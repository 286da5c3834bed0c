-- ===== src/MBuffer/Tests.antt =====
-- m_buffer.cpp with three tasks, two producers, the consumer and the ticking thread, on a schedule.
use dsui.Prelude.{
  length, ◌<◌, All, ℕ, ◌-◌, ◌≡◌, refl, Bool, true, false, none, some, List, [], ◌∷◌, ◌++◌, arith,
  replicate, if◌then◌else◌, leb, ◌==◌,
}
use dsui.Threads
use dsui.MBuffer.{step, BufferTask, run, init}
use dsui.MBuffer.Invariant.{weighed, sum}
use dsui.MBuffer.Safety.{named, tasks_kept, one_holder}
use dsui.Fifo.{Moves}
use dsui.MBuffer.Live.Always.{keeps_showing}
use dsui.MBuffer.Queue.{ends, tasks_queue}
use dsui.MBuffer.Start.{
  construct, destroy, destroy-construct, max_produce_thread_num, sems_from, MBufferObject,
}
use dsui.MBuffer.Start.Threads.{start_m_buffer_thread, producer, consumer, ticker}

abbrev task : ℕ → BufferTask
task a = record { args = a; produce_task = true; consume_task = true }

abbrev three_tasks : List BufferTask
three_tasks = task 0 ∷ task 1 ∷ task 2 ∷ []

-- A tick, then producer 0 takes and draws a task, the consumer (thread 2) shows it, and producer 1
-- takes the next one.
abbrev frame : List ℕ
frame = replicate 4 3 ++ replicate 8 0 ++ replicate 8 2 ++ replicate 5 1

-- The consumer has `p_mutex`.
abbrev giving_back : List ℕ
giving_back = replicate 4 3 ++ replicate 8 0 ++ replicate 6 2

frame_output :
    ((run 2 (init 2 three_tasks) frame).mem.produced ≡ task 0 ∷ task 1 ∷ [])
    × ((run 2 (init 2 three_tasks) frame).mem.consumed ≡ task 0 ∷ [])
unfolding Threads.run Threads.turn step init
frame_output = (refl, refl)

tasks_kept_example :
    weighed (named 1) 4 (run 2 (init 2 three_tasks) frame).mem (run 2 (init 2 three_tasks) frame).pc
    ≡ sum (named 1) three_tasks
tasks_kept_example = tasks_kept 2 4 three_tasks frame (omega arith) 1

one_holder_example :
    (◌≡◌ {A = ℕ} 1 1)
    × (sum (named 1) (run 2 (init 2 three_tasks) frame).mem.p_queue ≡ 0)
    × (sum (named 1) (run 2 (init 2 three_tasks) frame).mem.c_queue ≡ 0)
unfolding Threads.run Threads.turn step init
one_holder_example =
    one_holder 2 4 three_tasks frame (omega arith) 1 1 1 (task 1) refl (omega arith) (omega arith)
      refl refl refl

-- One producer: thread 1 is the consumer, thread 2 ticks.
abbrev single : List ℕ
single = replicate 3 2 ++ replicate 8 0 ++ replicate 5 1 ++ replicate 3 2 ++ replicate 5 0

-- The program of m_buffer_input_show_test.cpp has three tasks: the destructor would leave seven
-- semaphores.
destroy-construct_example :
    (o : MBufferObject) × (construct (some three_tasks) 3 ≡ some o)
    × (destroy o ≡ (
        if leb 3 max_produce_thread_num
        then some (sems_from 3 (max_produce_thread_num - 3))
        else none))
destroy-construct_example = destroy-construct three_tasks 3 (omega arith)

-- With every thread created, the first is the consumer and the last one ticks.
all_started :
    (start_m_buffer_thread (λ k. true) three_tasks).1
    ≡ consumer
      ∷ producer 0
      ∷ producer 1
      ∷ producer 2
      ∷ producer 3
      ∷ producer 4
      ∷ producer 5
      ∷ producer 6
      ∷ producer 7
      ∷ producer 8
      ∷ producer 9
      ∷ ticker
      ∷ []
unfolding start_m_buffer_thread
all_started = refl

-- The fifth thread cannot be created.
abbrev one_fails : ℕ → Bool
one_fails k = if k == 4 then false else true

tasks_queue_example :
    Moves 3
      (ends (run 1 (init 1 three_tasks) (replicate 3 2)).mem)
      (ends (run 1 (run 1 (init 1 three_tasks) (replicate 3 2)) single).mem)
tasks_queue_example =
    tasks_queue 3 three_tasks (replicate 3 2) single (omega arith) refl (omega arith) (omega arith)

keeps_showing_example :
    (js : List ℕ) × All (λ j. j < 4) js
    × (length (run 2 (init 2 three_tasks) frame).mem.consumed
        < length (run 2 (run 2 (init 2 three_tasks) frame) js).mem.consumed)
keeps_showing_example =
    keeps_showing 2 4 three_tasks frame (omega arith) (omega arith) (omega arith) (omega arith)
