-- ===== src/BoundedBuffer/Progress.antt =====
-- Which threads of product_consume_model.c can take a step.
use dsui.Prelude.{
  ℕ, ◌<◌, ◌≡◌, ◌≢◌, refl, inl, inr, Bool, true, false, none, some, List, arith, total, total_pos,
  Option-cases,
}
use native.Mathlib.Decide.{dec_lt}
use dsui.Threads.{run_always_keeps}
use dsui.BoundedBuffer.{
  Shared, Pc, p_wait, p_lock, p_store, p_next, p_count, p_unlock, p_post, step, System, run, init,
}
use dsui.BoundedBuffer.Invariant.{critical, token, Inv}

-- Whether a thread runs `producer` or `consumer`.
abbrev pub produces : Pc → Bool
produces (p_wait _) = true
produces (p_lock _) = true
produces (p_store _) = true
produces (p_next _) = true
produces (p_count _) = true
produces (p_unlock _) = true
produces (p_post _) = true
produces _ = false

pub step-produces :
    (i : ℕ) (m : Shared) (p : Pc) {m' : Shared} {p' : Pc}
    → step i m p ≡ some (m', p')
    → produces p' ≡ produces p
unfolding step
step-produces i m (p_wait x) e = ground arith
step-produces i m p e = ground arith

pub run-produces :
    (s : System) (is : List ℕ) (j : ℕ) → produces ((run s is).pc j) ≡ produces (s.pc j)
run-produces s is j =
    run_always_keeps (λ i. i) step (λ s'. produces (s'.pc j) ≡ produces (s.pc j))
      (λ s' i same m p e. ground (arith, same, step-produces i s'.mem (s'.pc i) e)) s is refl

pub init-produces : (b : ℕ → Bool) (j : ℕ) → produces ((init b).pc j) ≡ b j
unfolding init
init-produces b j = ground arith

-- In the critical section nothing blocks; before it only a held mutex does.
step-critical : (i : ℕ) (m : Shared) (p : Pc) → critical p ≡ true → step i m p ≢ none
unfolding step
step-critical i m (p_wait x) c = cc
step-critical i m p c = ground arith

step_unlocked : (i : ℕ) (m : Shared) (p : Pc) → 0 < token p → m.mutex ≡ none → step i m p ≢ none
unfolding step
step_unlocked i m (p_wait x) t free = absurd (omega arith)
step_unlocked i m p t free = ground arith

step_producer :
    (i : ℕ) (m : Shared) (p : Pc)
    → produces p ≡ true
    → 0 < m.empty_slots
    → m.mutex ≡ none
    → step i m p ≢ none
unfolding step
step_producer i m (p_wait x) t room free = ground arith
step_producer i m p t room free = ground arith

step_consumer :
    (i : ℕ) (m : Shared) (p : Pc)
    → produces p ≡ false
    → 0 < m.filled_slots
    → m.mutex ≡ none
    → step i m p ≢ none
unfolding step
step_consumer i m (p_wait x) t room free = ground arith
step_consumer i m p t room free = ground arith

-- Some thread below `n` is not blocked.
abbrev CanMove : ℕ → System → Type 0
CanMove n s = (k : ℕ) × (k < n) × (step k s.mem (s.pc k) ≢ none)

pub Inv-CanMove :
    {n : ℕ} (s : System) (p c : ℕ)
    → Inv n s.mem s.pc
    → p < n
    → c < n
    → produces (s.pc p) ≡ true
    → produces (s.pc c) ≡ false
    → CanMove n s
Inv-CanMove {n} s p c inv pl cl pp cc' = elim (Option-cases s.mem.mutex) [
  | inr (j, held) ↦ (j, (inv.owns j held).1, step-critical j _ _ (inv.owns j held).0)
  | inl free ↦ elim (dec_lt 0 (total token n s.pc)) [
    | yes busy ↦
        let (i, lt, pos) = total_pos token n s.pc busy in (i, lt, step_unlocked i _ _ pos free)
    | no idle ↦ elim (dec_lt 0 s.mem.empty_slots) [
      | yes room ↦ (p, pl, step_producer p _ _ pp room free)
      | no full ↦ (c, cl, step_consumer c _ _ cc' (omega (arith, inv.slots, idle, full)) free)
    ]
  ]
]
