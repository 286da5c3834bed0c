-- ===== src/BoundedBuffer/Fair.antt =====
-- How often the consumers of product_consume_model.c get an item, if every thread keeps running.
use dsui.Prelude.{
  ℕ, ◌+◌, ◌*◌, ◌≤◌, ◌<◌, ◌≡◌, ◌∙◌, Bool, true, false, some, List, ◌∷◌, [], arith, All, length,
  length-append, get_or, update, total, total-update, total_linear,
}
use dsui.Threads.Fair
use dsui.BoundedBuffer.{
  Shared, Pc, p_wait, p_lock, p_store, p_next, p_count, p_unlock, p_post, c_wait, c_lock, c_load,
  c_next, c_count, c_unlock, c_post, step, System, run, init,
}
use dsui.BoundedBuffer.Invariant.{token, Inv}
use dsui.BoundedBuffer.Moves.{step-Inv}
use dsui.BoundedBuffer.Safety.{after-Inv}
use dsui.BoundedBuffer.Progress.{produces, step-produces, run-produces, init-produces, Inv-CanMove}

-- How many statements of an item's way a thread has behind it: seven of its producer, then seven of its
-- consumer, which starts at 4 since it ends ten statements after the load of `c_load` counts fourteen.
abbrev stage : Pc → ℕ
stage (p_wait _) = 4
stage (p_lock _) = 5
stage (p_store _) = 6
stage (p_next _) = 7
stage (p_count _) = 8
stage (p_unlock _) = 9
stage (p_post _) = 10
stage c_next = 0
stage c_count = 1
stage c_unlock = 2
stage c_post = 3
stage c_wait = 4
stage c_lock = 12
stage c_load = 13

abbrev age : ℕ → Shared → (ℕ → Pc) → ℕ
age n m pc = 14 * length m.consumed + 7 * m.filled_slots + total stage n pc

stage-le-token : (p : Pc) → stage p ≤ 7 * token p + 6
stage-le-token (p_wait x) = omega arith
stage-le-token p = omega arith

age-le :
    {n : ℕ} {m : Shared} {pc : ℕ → Pc}
    → Inv n m pc
    → age n m pc ≤ 14 * length m.consumed + 6 * n + 70
age-le {n} {m} {pc} inv = omega (arith, inv.slots, total_linear stage token 7 6 stage-le-token n pc)

-- Every statement counts one.
step-age :
    (n i : ℕ) (m : Shared) (pc : ℕ → Pc) (p : Pc) {m' : Shared} {p' : Pc}
    → i < n
    → pc i ≡ p
    → step i m p ≡ some (m', p')
    → age n m' (update pc i p') ≡ age n m pc + 1
unfolding step
step-age n i m pc (p_wait x) {p' = p'} lt at e = ground (arith, total-update stage n pc i p' lt)
step-age n i m pc c_load {p' = p'} lt at e = ground (
  arith,
  total-update stage n pc i p' lt,
  length-append m.consumed (get_or m.buffer m.out 0 ∷ []),
)
step-age n i m pc p {p' = p'} lt at e = ground (arith, total-update stage n pc i p' lt)

-- What the counting needs: the invariant, and that `p` runs `producer` and `c` runs `consumer`.
abbrev Served : ℕ → ℕ → ℕ → System → Type 0
Served n p c s = Inv n s.mem s.pc × (produces (s.pc p) ≡ true) × (produces (s.pc c) ≡ false)

abbrev pub Round : ℕ → List ℕ → Type 0
Round n = Fair.Round (λ i. i) step (λ i. i < n) n

abbrev pub run_rounds : System → List (List ℕ) → System
run_rounds = Fair.run_rounds (λ i. i) step

Served-run_rounds :
    (n p c : ℕ)
    → p < n
    → c < n
    → (s : System) (rounds : List (List ℕ)) → All (Round n) rounds
    → Served n p c s
    → Served n p c (run_rounds s rounds)
      × (age n s.mem s.pc + length rounds
          ≤ age n (run_rounds s rounds).mem (run_rounds s rounds).pc)
Served-run_rounds n p c pl cl =
    Fair.age-run_rounds (λ i. i) step (λ i. i < n) (Served n p c)
      (λ s i lt (inv, pp, cc') m q e. (
        step-Inv inv i lt e,
        ground (arith, pp, step-produces i s.mem (s.pc i) e),
        ground (arith, cc', step-produces i s.mem (s.pc i) e),
      ))
      (λ s. age n s.mem s.pc)
      (λ s i lt served m q e. omega (arith, step-age n i s.mem s.pc (s.pc i) lt (λ _. s.pc i) e)) n
      (λ s (inv, pp, cc').
        let (k, lt, can) = Inv-CanMove s p c inv pl cl pp cc' in (k, lt, λ i same. rw same can))

-- With a producer and a consumer among the threads, from any state that a schedule of
-- product_consume_model.c reaches: if each of the threads, and no other, has a turn in each of a number
-- of rounds, in any order and as often as it likes, then the rounds are at most 14 for each item
-- consumed in them, and 6 for each thread and 70 more.
pub keeps_consuming :
    (n : ℕ) (b : ℕ → Bool) (is : List ℕ) (threads : All (λ i. i < n) is) (p c : ℕ)
    → p < n
    → c < n
    → b p ≡ true
    → b c ≡ false
    → (rounds : List (List ℕ)) → All (Round n) rounds
    → length rounds + 14 * length (run (init b) is).mem.consumed
      ≤ 14 * length (run_rounds (run (init b) is) rounds).mem.consumed + 6 * n + 70
keeps_consuming n b is threads p c pl cl bp bc rounds fair =
    let start : Served n p c (run (init b) is) = (
      after-Inv n b is threads,
      run-produces (init b) is p ∙ init-produces b p ∙ bp,
      run-produces (init b) is c ∙ init-produces b c ∙ bc,
    ) in
    let (served, older) = Served-run_rounds n p c pl cl (run (init b) is) rounds fair start in
    omega (arith, older, age-le served.0)
