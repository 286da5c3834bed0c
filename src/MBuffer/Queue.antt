-- ===== src/MBuffer/Queue.antt =====
-- m_buffer.cpp with one producer thread as a queue of the tasks that are drawn and not shown yet.
use dsui.Prelude.{
  inr, inl, Bool-cases, ℕ, ◌≤◌, ◌<◌, ◌≡◌, refl, some, List, [], ◌∷◌, ◌++◌, All, arith, length,
  length-append,
}
use dsui.Threads.{run_keeps}
use dsui.Fifo.{Ends, Moves, IsQueue, Change, same, entered_one, left_one}
use dsui.Fifo.Refines.{Buffer, run_refines}
use dsui.MBuffer.{update, BufferTask, Shared, Pc, p_run, c_run, step, System, run, init}
use dsui.MBuffer.Invariant.{in_hand, weight, sum, weighed}
use dsui.MBuffer.Moves.{step-weighed_le}
use dsui.MBuffer.Safety.{init-weighed, two_hands}
use dsui.MBuffer.Order.{before_show, before_queue, not_shown, Order, step-Order, init-Order}

-- The tasks drawn and the tasks shown.
abbrev pub ends : Shared → Ends BufferTask
ends m = record { entered = m.produced; left = m.consumed }

abbrev one : BufferTask → ℕ
one t = 1

length-sum : (ts : List BufferTask) → sum one ts ≡ length ts
length-sum [] = refl
length-sum (t ∷ ts) = omega (arith, length-sum ts)

before_show-le : (p : Pc) → length (before_show p) ≤ weight one (in_hand p)
before_show-le p = ground arith

before_queue-le : (p : Pc) → length (before_queue p) ≤ weight one (in_hand p)
before_queue-le p = ground arith

-- What keeps the queue in order, and bounds it by the number of tasks.
record Held (n count : ℕ) (s : System) : Type 0 where
  order : Order n s.mem s.pc
  few : weighed one n s.mem s.pc ≤ count

Held-IsQueue : (n count : ℕ) → 1 < n → (s : System) → Held n count s → IsQueue count (ends s.mem)
Held-IsQueue n count two s held = record {
  waiting = _;
  in_order = held.order.in_order;
  bounded = omega (
    arith,
    held.few,
    length-append (before_show (s.pc 1)) (s.mem.c_queue ++ before_queue (s.pc 0)),
    length-append s.mem.c_queue (before_queue (s.pc 0)),
    length-sum s.mem.c_queue,
    before_show-le (s.pc 1),
    before_queue-le (s.pc 0),
    two_hands one n s.pc 0 1 (omega arith) two (omega arith),
  );
}

step-Held :
    (n count : ℕ) (s : System) (i : ℕ)
    → i < n
    → Held n count s
    → (m : Shared) (p : Pc) → step 1 i s.mem (s.pc i) ≡ some (m, p)
    → Held n count (record { mem = m; pc = update s.pc i p })
step-Held n count s i lt held m p e = record {
  order = step-Order held.order i lt e;
  few = omega (arith, held.few, step-weighed_le one 1 n s.mem s.pc i lt (s.pc i) refl e);
}

step-Change :
    (i : ℕ) (m : Shared) (p : Pc) (m' : Shared) (p' : Pc)
    → step 1 i m p ≡ some (m', p')
    → Change (ends m) (ends m')
unfolding step
step-Change i m (p_run (some t)) m' p' e = elim (Bool-cases t.produce_task) [
  | inl drawn ↦ entered_one t (ground arith)
  | inr not ↦ same (ground arith)
]
step-Change i m (c_run (some t)) m' p' e = elim (Bool-cases t.consume_task) [
  | inl shown ↦ left_one t (ground arith)
  | inr not ↦ same (ground arith)
]
step-Change i m p m' p' e = same (ground arith)

abbrev tasks_buffer : (n count : ℕ) → 1 < n → Buffer BufferTask (λ i. i) (step 1)
tasks_buffer n count two = record {
  Allowed = λ i. i < n;
  Inv = Held n count;
  moved = step-Held n count;
  places = count;
  ends = ends;
  queue = Held-IsQueue n count two;
  change = step-Change;
}

-- With one producer thread and tasks whose consume_task is not NULL, from any state that a schedule of
-- m_buffer.cpp reaches, whatever the schedule is from there, the tasks drawn and shown are those that go
-- through a queue with as many places as there are tasks: the task shown is the first of those drawn
-- and not shown, and none is drawn while that many wait.
pub tasks_queue :
    (n : ℕ) (tasks : List BufferTask) (is js : List ℕ)
    → 1 < n
    → sum not_shown tasks ≡ 0
    → All (λ i. i < n) is
    → All (λ i. i < n) js
    → Moves
        (length tasks)
        (ends (run 1 (init 1 tasks) is).mem)
        (ends (run 1 (run 1 (init 1 tasks) is) js).mem)
tasks_queue n tasks is js two shown before after =
    let tasks_held = step-Held n (length tasks) in
    run_refines BufferTask (λ i. i) (step 1) (tasks_buffer n (length tasks) two)
      (run 1 (init 1 tasks) is) js after
      (run_keeps (λ i. i) (step 1) (λ i. i < n) (Held n (length tasks)) tasks_held (init 1 tasks) is
        before
        (record {
          order = init-Order n tasks shown;
          few = omega (arith, init-weighed one n 1 tasks, length-sum tasks);
        }))
