-- ===== src/MBuffer/Live.antt =====
-- How far the tasks of m_buffer.cpp are from being shown, and what a statement changes of that.
pub mod Turns
pub mod Ticks
pub mod Shows
pub mod Always
use dsui.Prelude.{
  ℕ, ◌+◌, ◌*◌, ◌<◌, ◌≤◌, ◌≡◌, ◌⊎◌, inl, inr, refl, Bool, true, false, ◌&&◌, Option, none, some,
  List, [], ◌∷◌, ◌++◌, if◌then◌else◌, arith, length, length-append, update, total, total-update,
  Option-cases,
}
use dsui.MBuffer.{
  BufferTask, Shared, Pc, p_wait, p_trylock, p_take, p_unlock, p_run, p_lock, p_push, p_release,
  c_wait, c_lock, c_take, c_unlock, c_run, c_lock_back, c_push, c_release, t_post, t_post_consumer,
  step, entry,
}
use dsui.MBuffer.Invariant.{in_p, in_c, weighed, Locks}
use dsui.MBuffer.Moves.{step-Locks, step-weighed}
use dsui.MBuffer.Order.{role}

-- 1 for a task with both callbacks.
abbrev pub complete : BufferTask → ℕ
complete t = if t.produce_task && t.consume_task then 1 else 0

-- The statements that a thread has before it until it waits, and those of the task in its hand.
abbrev pub cost : Pc → ℕ
cost p_wait = 1
cost p_trylock = 1
cost p_take = 4
cost (p_unlock none) = 3
cost (p_unlock (some t)) = 9
cost (p_run none) = 2
cost (p_run (some t)) = 8
cost (p_lock t) = 7
cost (p_push t) = 6
cost p_release = 2
cost c_wait = 1
cost c_lock = 5
cost c_take = 4
cost (c_unlock t) = 3
cost (c_run t) = 2
cost (c_lock_back t) = 13
cost (c_push t) = 12
cost c_release = 2
cost (t_post k) = 0
cost t_post_consumer = 0

abbrev pub load : Shared → ℕ
load m = 9 * length m.p_queue + 3 * length m.c_queue

abbrev pub pending : ℕ → Shared → (ℕ → Pc) → ℕ
pending n m pc = load m + total cost n pc

-- 1 for a thread that does not wait for a tick.
abbrev pub busy : Pc → ℕ
busy p_wait = 0
busy p_trylock = 0
busy c_wait = 0
busy (t_post k) = 0
busy t_post_consumer = 0
busy p = 1

-- What holds between any two statements, with `k` producers among `n` threads.
pub record Live (k n : ℕ) (m : Shared) (pc : ℕ → Pc) : Type 0 where
  pub locks : Locks n m pc
  pub roles : (j : ℕ) → role (pc j) ≡ role (entry k j)
  pub kept : 0 < weighed complete n m pc

module _ {k n : ℕ} {m : Shared} {pc : ℕ → Pc} (inv : Live k n m pc) (i : ℕ) (lt : i < n) where
  step-roles :
      (p : Pc) {m' : Shared} {p' : Pc}
      → pc i ≡ p
      → step k i m p ≡ some (m', p')
      → (j : ℕ) → role (update pc i p' j) ≡ role (entry k j)
  unfolding step
  step-roles p at e j = ground (arith, inv.roles j, inv.roles i)

  pub step-Live :
      {m' : Shared} {p' : Pc} → step k i m (pc i) ≡ some (m', p') → Live k n m' (update pc i p')
  step-Live e = record {
    locks = step-Locks k inv.locks i lt e;
    roles = step-roles _ refl e;
    kept = omega (
      arith,
      inv.kept,
      step-weighed complete k n m pc i lt (λ t h. ground arith) (λ t h. ground arith) (pc i) refl e,
    );
  }

pub pending-update :
    (n : ℕ) (m m' : Shared) (pc : ℕ → Pc) (i : ℕ) (p' : Pc)
    → i < n
    → pending n m' (update pc i p') + load m + cost (pc i) ≡ pending n m pc + load m' + cost p'
pending-update n m m' pc i p' lt = omega (arith, total-update cost n pc i p' lt)

pub step-consumed :
    (k i : ℕ) (m : Shared) (p : Pc) {m' : Shared} {p' : Pc}
    → step k i m p ≡ some (m', p')
    → length m.consumed ≤ length m'.consumed
unfolding step
step-consumed k i m (c_run (some t)) e = ground (arith, length-append m.consumed (t ∷ []))
step-consumed k i m p e = ground arith

-- A thread that is busy, inside a critical section or while both are free, does not block, and brings
-- a task nearer to the screen or shows it.
pub step-cost :
    (k i : ℕ) (m : Shared) (p : Pc) {m' : Shared} {p' : Pc}
    → 0 < busy p
    → step k i m p ≡ some (m', p')
    → (load m' + cost p' < load m + cost p) ⊎ (length m.consumed < length m'.consumed)
unfolding step
step-cost k i m (p_push t) b e = ground (arith, length-append m.c_queue (t ∷ []))
step-cost k i m (c_push t) b e = ground (arith, length-append m.p_queue (t ∷ []))
step-cost k i m (c_run (some t)) b e = ground (arith, length-append m.consumed (t ∷ []))
step-cost k i m p b e = ground arith

pub unblocked :
    (k i : ℕ) (m : Shared) (p : Pc)
    → 0 < busy p
    → ((in_p p ≡ true) ⊎ (in_c p ≡ true)) ⊎ ((m.p_mutex ≡ none) × (m.c_mutex ≡ none))
    → (m' : Shared) × (p' : Pc) × (step k i m p ≡ some (m', p'))
unfolding step
unblocked k i m p b free = elim (Option-cases (step k i m p)) [
  | inl n ↦ absurd (ground arith)
  | inr ((m', p'), e) ↦ (m', p', e)
]
