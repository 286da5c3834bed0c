-- ===== src/MBuffer/Live/Shows.antt =====
-- The turns by which the threads of m_buffer.cpp take a task from a queue or bring it nearer to the
-- screen.
use dsui.Prelude.{
  true, ℕ, ◌+◌, ◌-◌, ◌<◌, ◌≤◌, ◌≡◌, ◌⊎◌, inl, inr, refl, none, some, List, ◌∷◌, arith, length,
  update,
}
use dsui.MBuffer.{
  BufferTask, Shared, Pc, p_wait, p_trylock, p_take, p_unlock, c_wait, c_lock, c_take, c_unlock,
  step,
}
use dsui.MBuffer.Invariant.{in_p, in_c, in_hand, weight}
use dsui.MBuffer.Live.{
  complete, busy, unblocked, step-cost, step-consumed, Live, step-Live, pending, pending-update,
}
use dsui.MBuffer.Live.Turns.{Shows, Shows-now, Shows-later}

-- `k` producers, the consumer and the ticking thread, among `n` threads.
module _ (k n c : ℕ) (all : k + 1 < n) where
  -- From any state that is nearer to a task on the screen one can be shown.
  abbrev Nearer : Shared → (ℕ → Pc) → Type 0
  Nearer m pc =
      (m' : Shared) (pc' : ℕ → Pc)
      → Live k n m' pc'
      → pending n m' pc' < pending n m pc
      → m'.consumed ≡ m.consumed
      → Shows k n c m' pc'

  -- The consumer waits for its tick, has it, and takes a task.
  pub consume_next :
      (m : Shared) (pc : ℕ → Pc) (t : BufferTask) (ts : List BufferTask)
      → Live k n m pc
      → m.c_mutex ≡ none
      → pc k ≡ c_wait
      → m.c_queue ≡ t ∷ ts
      → 0 < m.sems k
      → Nearer m pc
      → Shows k n c m pc
  unfolding step
  consume_next m pc t ts inv free at queue ticked nearer =
      let lt : k < n = omega (arith, all) in
      let m1 : Shared = record m { sems = update m.sems k (m.sems k - 1) } in
      let m2 : Shared = record m1 { c_mutex = some k } in
      let m3 : Shared = record m2 { c_queue = ts } in
      let pc1 = update pc k c_lock in
      let pc2 = update pc1 k c_take in
      let e1 : step k k m (pc k) ≡ some (m1, c_lock) = ground arith in
      let e2 : step k k m1 (pc1 k) ≡ some (m2, c_take) = ground arith in
      let e3 : step k k m2 (pc2 k) ≡ some (m3, c_unlock (some t)) = ground arith in
      let inv3 = step-Live (step-Live (step-Live inv k lt e1) k lt e2) k lt e3 in
      Shows-later k n c m pc k {m' = m1} {p' = c_lock} lt e1 (
        Shows-later k n c m1 pc1 k {m' = m2} {p' = c_take} lt e2 (
          Shows-later k n c m2 pc2 k {m' = m3} {p' = c_unlock (some t)} lt e3 (
            nearer m3 (update pc2 k (c_unlock (some t))) inv3
              (ground (
                arith,
                pending-update n m m1 pc k c_lock lt,
                pending-update n m1 m2 pc1 k c_take lt,
                pending-update n m2 m3 pc2 k (c_unlock (some t)) lt,
              ))
              refl)))

  -- Producer 0 gets the mutex, and takes a task.
  pub produce_taking :
      (m : Shared) (pc : ℕ → Pc) (t : BufferTask) (ts : List BufferTask)
      → Live k n m pc
      → m.p_mutex ≡ none
      → pc 0 ≡ p_trylock
      → m.p_queue ≡ t ∷ ts
      → Nearer m pc
      → Shows k n c m pc
  unfolding step
  produce_taking m pc t ts inv free at queue nearer =
      let lt : 0 < n = omega (arith, all) in
      let m1 : Shared = record m { p_mutex = some 0 } in
      let m2 : Shared = record m1 { p_queue = ts } in
      let pc1 = update pc 0 p_take in
      let e1 : step k 0 m (pc 0) ≡ some (m1, p_take) = ground arith in
      let e2 : step k 0 m1 (pc1 0) ≡ some (m2, p_unlock (some t)) = ground arith in
      Shows-later k n c m pc 0 {m' = m1} {p' = p_take} lt e1 (
        Shows-later k n c m1 pc1 0 {m' = m2} {p' = p_unlock (some t)} lt e2 (
          nearer m2 (update pc1 0 (p_unlock (some t))) (step-Live (step-Live inv 0 lt e1) 0 lt e2)
            (ground (
              arith,
              pending-update n m m1 pc 0 p_take lt,
              pending-update n m1 m2 pc1 0 (p_unlock (some t)) lt,
            ))
            refl))

  -- The same from where it waits for its tick.
  pub produce_next :
      (m : Shared) (pc : ℕ → Pc) (t : BufferTask) (ts : List BufferTask)
      → Live k n m pc
      → m.p_mutex ≡ none
      → pc 0 ≡ p_wait
      → m.p_queue ≡ t ∷ ts
      → 0 < m.sems 0
      → Nearer m pc
      → Shows k n c m pc
  unfolding step
  produce_next m pc t ts inv free at queue ticked nearer =
      let lt : 0 < n = omega (arith, all) in
      let m1 : Shared = record m { sems = update m.sems 0 (m.sems 0 - 1) } in
      let e1 : step k 0 m (pc 0) ≡ some (m1, p_trylock) = ground arith in
      let same = pending-update n m m1 pc 0 p_trylock lt in
      Shows-later k n c m pc 0 {m' = m1} {p' = p_trylock} lt e1 (
        produce_taking m1 (update pc 0 p_trylock) t ts (step-Live inv 0 lt e1) free (ground arith)
          queue (λ m' pc' inv' less kept. nearer m' pc' inv' (ground (arith, same, less)) kept))

  -- A busy thread moves and brings a task nearer to the screen, or shows one.
  pub advance :
      (m : Shared) (pc : ℕ → Pc) (i : ℕ)
      → Live k n m pc
      → i < n
      → 0 < busy (pc i)
      → ((in_p (pc i) ≡ true) ⊎ (in_c (pc i) ≡ true)) ⊎ ((m.p_mutex ≡ none) × (m.c_mutex ≡ none))
      → c ≤ length m.consumed
      → ((m' : Shared) (pc' : ℕ → Pc)
          → Live k n m' pc'
          → pending n m' pc' < pending n m pc
          → c ≤ length m'.consumed
          → Shows k n c m' pc')
      → Shows k n c m pc
  advance m pc i inv lt works free le nearer =
      let (m', p', e) = unblocked k i m (pc i) works free in
      Shows-later k n c m pc i {m' = m'} {p' = p'} lt e (elim (step-cost k i m (pc i) works e) [
        | inr more ↦ Shows-now k n c m' (update pc i p') (omega (arith, le, more))
        | inl less ↦
            nearer m' (update pc i p') (step-Live inv i lt e)
              (omega (arith, less, pending-update n m m' pc i p' lt))
              (omega (arith, le, step-consumed k i m (pc i) e))
      ])

  -- Who is not busy waits for a tick, and has nothing in hand.
  pub idle-hand : (p : Pc) → weight complete (in_hand p) ≤ busy p
  idle-hand p = ground arith
