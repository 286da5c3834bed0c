-- ===== src/Threads.antt =====
-- Threads over a shared memory, as all threaded parts of the program have them: a system is the memory
-- and the statement of each thread, and a schedule is a list of turns. A turn says which thread it is of
-- and what the thread is answered, where it asks for something.
pub mod Fair
use dsui.Prelude.{ℕ, ◌≡◌, Option, none, some, List, [], ◌∷◌, All, update, Option-cases, inl, inr}

pub record System (Mem Pc : Type 0) : Type 0 where
  pub mem : Mem
  pub pc : ℕ → Pc

pub always_allowed : {Turn : Type 0} (ts : List Turn) → All {0, 0} (λ (t : Turn). Unit) ts
always_allowed [] = tt
always_allowed (t ∷ ts) = (tt, always_allowed ts)

-- `step` is `none` while the thread blocks.
module _ {Turn Mem Pc : Type 0} (thread : Turn → ℕ)
    (step : Turn → Mem → Pc → Option (Mem × Pc)) where
  -- A blocked thread leaves the system as it is.
  unfoldable pub turn : System Mem Pc → Turn → System Mem Pc
  turn s t = elim (step t s.mem (s.pc (thread t))) [
    | none ↦ s
    | some (m, p) ↦ record { mem = m; pc = update s.pc (thread t) p }
  ]

  -- The turns of a schedule, first to last.
  unfoldable pub run : System Mem Pc → List Turn → System Mem Pc
  run s [] = s
  run s (t ∷ ts) = run (turn s t) ts

  -- What holds of a system after a turn, if it holds when the thread is blocked and when it moves.
  pub turn_cases :
      (P : System Mem Pc → Type 0) (s : System Mem Pc) (t : Turn)
      → P s
      → ((m : Mem) (p : Pc)
          → step t s.mem (s.pc (thread t)) ≡ some (m, p)
          → P (record { mem = m; pc = update s.pc (thread t) p }))
      → P (turn s t)
  unfolding turn
  turn_cases P s t blocked moved = elim (Option-cases (step t s.mem (s.pc (thread t)))) [
    | inl e ↦ rw (e, turn) blocked
    | inr ((m, p), e) ↦ rw (e, turn) (moved m p e)
  ]

  -- An invariant of the statements, under the turns that are allowed, holds after any schedule of them.
  module _ (Allowed : Turn → Type 0) (Inv : System Mem Pc → Type 0)
      (moved : (s : System Mem Pc) (t : Turn)
        → Allowed t
        → Inv s
        → (m : Mem) (p : Pc) → step t s.mem (s.pc (thread t)) ≡ some (m, p)
        → Inv (record { mem = m; pc = update s.pc (thread t) p })) where
    pub run_keeps : (s : System Mem Pc) (ts : List Turn) → All Allowed ts → Inv s → Inv (run s ts)
    unfolding run
    run_keeps s [] allowed inv = inv
    run_keeps s (t ∷ ts) (here, later) inv =
        run_keeps (turn s t) ts later (turn_cases Inv s t inv (moved s t here inv))

  -- The same where every turn is allowed.
  module _ (Inv : System Mem Pc → Type 0)
      (moved : (s : System Mem Pc) (t : Turn)
        → Inv s
        → (m : Mem) (p : Pc) → step t s.mem (s.pc (thread t)) ≡ some (m, p)
        → Inv (record { mem = m; pc = update s.pc (thread t) p })) where
    pub run_always_keeps : (s : System Mem Pc) (ts : List Turn) → Inv s → Inv (run s ts)
    run_always_keeps s ts =
        run_keeps (λ t. Unit) Inv (λ s t u inv. moved s t inv) s ts (always_allowed ts)
