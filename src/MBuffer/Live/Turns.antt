-- ===== src/MBuffer/Live/Turns.antt =====
-- States of m_buffer.cpp from which some schedule shows a task.
use dsui.Prelude.{ℕ, ◌<◌, ◌≡◌, refl, ap, some, List, [], ◌∷◌, All, length, update}
use dsui.Threads
use dsui.MBuffer.{Shared, Pc, step, turn, run}

-- From here `n` threads can take turns after which more than `c` tasks have been shown.
abbrev pub Shows : ℕ → ℕ → ℕ → Shared → (ℕ → Pc) → Type 0
Shows k n c m pc =
    (js : List ℕ) × All (λ j. j < n) js
    × (c < length (run k (record { mem = m; pc = pc }) js).mem.consumed)

module _ (k n c : ℕ) (m : Shared) (pc : ℕ → Pc) where
  pub Shows-now : c < length m.consumed → Shows k n c m pc
  unfolding Threads.run
  Shows-now more = ([], tt, more)

  pub Shows-later :
      (i : ℕ) {m' : Shared} {p' : Pc}
      → i < n
      → step k i m (pc i) ≡ some (m', p')
      → Shows k n c m' (update pc i p')
      → Shows k n c m pc
  unfolding Threads.run Threads.turn
  Shows-later i {m'} {p'} lt e (js, ok, more) =
      let moves : turn k (record { mem = m; pc = pc }) i
          ≡ record { mem = m'; pc = update pc i p' } =
        rw (e, Threads.turn) refl in
      (i ∷ js, (lt, ok), rw (ap (λ s. length (run k s js).mem.consumed) moves) more)
