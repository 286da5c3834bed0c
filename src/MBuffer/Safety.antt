-- ===== src/MBuffer/Safety.antt =====
-- What every schedule of m_buffer.cpp keeps.
use dsui.Prelude.{
  ◌∙◌, ℕ, ◌+◌, ◌<◌, ◌≤◌, ◌≡◌, ◌≢◌, ◌⊎◌, refl, inl, inr, true, ◌&&◌, none, some, List, ◌==◌,
  if◌then◌else◌, arith, All, total, update, total-update, le-total, total-eq_zero,
}
use native.Mathlib.Decide.{ℕ_discrete}
use dsui.Threads.{run_keeps}
use dsui.MBuffer.{BufferTask, Shared, Pc, p_wait, step, System, init, run, entry}
use dsui.MBuffer.Invariant.{in_p, in_c, in_hand, weight, sum, weighed, Locks}
use dsui.MBuffer.Moves.{step-Locks, step-weighed}

-- 1 for a task with this argument and both callbacks.
abbrev pub named : ℕ → BufferTask → ℕ
named k t = if t.args == k && (t.produce_task && t.consume_task) then 1 else 0

pub init-Locks : (n k : ℕ) (tasks : List BufferTask) → Locks n (init k tasks).mem (init k tasks).pc
unfolding init
init-Locks n k tasks = record {
  p_owner = λ j c. ground arith;
  p_owns = λ j c. cc;
  c_owner = λ j c. ground arith;
  c_owns = λ j c. cc;
}

pub init-weighed :
    (w : BufferTask → ℕ) (n k : ℕ) (tasks : List BufferTask)
    → weighed w n (init k tasks).mem (init k tasks).pc ≡ sum w tasks
unfolding init
init-weighed w n k tasks =
    ground (arith, total-eq_zero (λ p. weight w (in_hand p)) n (entry k) (λ i. ground arith))

-- If two threads have a task of the weighed kind in hand, the threads together have two.
pub two_hands :
    (w : BufferTask → ℕ) (n : ℕ) (pc : ℕ → Pc) (i j : ℕ)
    → i < n
    → j < n
    → i ≢ j
    → weight w (in_hand (pc i)) + weight w (in_hand (pc j)) ≤ total (λ p. weight w (in_hand p)) n pc
two_hands w n pc i j lt_i lt_j ne = ground (
  arith,
  total-update (λ p. weight w (in_hand p)) n pc i p_wait lt_i,
  le-total (λ p. weight w (in_hand p)) n (update pc i p_wait) j lt_j,
)

-- Neither critical section has a statement that can block.
inside_moves :
    (k i : ℕ) (m : Shared) (p : Pc) → (in_p p ≡ true) ⊎ (in_c p ≡ true) → step k i m p ≢ none
unfolding step
inside_moves k i m p h = ground arith

module _ (k n : ℕ) (tasks : List BufferTask) (is : List ℕ) (threads : All (λ i. i < n) is) where
  abbrev pub after : System
  after = run k (init k tasks) is

  after-Locks : Locks n after.mem after.pc
  after-Locks =
      run_keeps (λ i. i) (step k) (λ i. i < n) (λ s. Locks n s.mem s.pc)
        (λ s i lt inv m p e. step-Locks k inv i lt e) (init k tasks) is threads
        (init-Locks n k tasks)

  after-weighed :
      (a : ℕ)
      → weighed (named a) n after.mem after.pc
        ≡ weighed (named a) n (init k tasks).mem (init k tasks).pc
  after-weighed a =
      run_keeps (λ i. i) (step k) (λ i. i < n)
        (λ s.
          weighed (named a) n s.mem s.pc ≡ weighed (named a) n (init k tasks).mem (init k tasks).pc)
        (λ s i lt same m p e.
          step-weighed (named a) k n s.mem s.pc i lt (λ t h. ground arith) (λ t h. ground arith)
            (s.pc i) refl e
          ∙ same)
        (init k tasks) is threads refl

  -- For any number of producers and any schedule of the threads, a task with both callbacks stands as
  -- often in the two queues and in the threads' hands as it stood among the constructor's tasks: none
  -- is lost and none is doubled.
  pub tasks_kept : (a : ℕ) → weighed (named a) n after.mem after.pc ≡ sum (named a) tasks
  tasks_kept a = after-weighed a ∙ init-weighed (named a) n k tasks

  -- For any number of producers and any schedule, if a task with both callbacks was given to the
  -- constructor once, then two threads that have it in hand are the same thread, and while one has it
  -- it stands in neither queue: its two callbacks are never called at once.
  pub one_holder :
      (a i j : ℕ) (t : BufferTask)
      → sum (named a) tasks ≡ 1
      → i < n
      → j < n
      → named a t ≡ 1
      → in_hand (after.pc i) ≡ some t
      → in_hand (after.pc j) ≡ some t
      → (i ≡ j) × (sum (named a) after.mem.p_queue ≡ 0) × (sum (named a) after.mem.c_queue ≡ 0)
  one_holder a i j t once lt_i lt_j at hi hj = elim (ℕ_discrete i j) [
    | yes same ↦ (
      same,
      ground (arith, tasks_kept a, le-total (λ p. weight (named a) (in_hand p)) n after.pc i lt_i),
      ground (arith, tasks_kept a, le-total (λ p. weight (named a) (in_hand p)) n after.pc i lt_i),
    )
    | no ne ↦ absurd (ground (arith, tasks_kept a, two_hands (named a) n after.pc i j lt_i lt_j ne))
  ]

  -- For any number of producers and any schedule, the thread that holds one of the two mutexes is
  -- not blocked.
  holder_moves :
      (j : ℕ)
      → (after.mem.p_mutex ≡ some j) ⊎ (after.mem.c_mutex ≡ some j)
      → step k j after.mem (after.pc j) ≢ none
  holder_moves j (inl p) = inside_moves k j after.mem (after.pc j) (inl (after-Locks.p_owns j p).0)
  holder_moves j (inr c) = inside_moves k j after.mem (after.pc j) (inr (after-Locks.c_owns j c).0)
