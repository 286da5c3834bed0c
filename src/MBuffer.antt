-- ===== src/MBuffer.antt =====
-- src/display/m_buffer.h and m_buffer.cpp: tasks (frame buffers) that go round between two queues.
-- Producer threads draw what they take from `p_queue` and put it on `c_queue`, one consumer thread
-- shows what it takes from there and gives it back, and a third kind of thread ticks.
pub mod Invariant
pub mod Moves
pub mod Safety
pub mod Order
pub mod Queue
pub mod Live
pub mod Start
mod Tests
use dsui.Threads
use dsui.Prelude.{
  ℕ, ◌+◌, ◌-◌, ◌^◌, Bool, Option, none, some, List, [], ◌∷◌, ◌++◌, ◌==◌, ltb, if◌then◌else◌, update,
}

-- `struct buffer_task`: `args` is the number of the task's argument, and the two tests say whether the
-- callback is not NULL.
pub record BufferTask : Type 0 where
  pub args : ℕ
  pub produce_task : Bool
  pub consume_task : Bool

-- What the threads share. `sems i` is the semaphore of producer `i`, and after the producers' that of
-- the consumer. The two lists are the calls made of `produce_task` and of `consume_task`.
pub record Shared : Type 0 where
  pub sems : ℕ → ℕ
  pub p_queue : List BufferTask
  pub c_queue : List BufferTask
  pub p_mutex : Option ℕ
  pub c_mutex : Option ℕ
  pub produced : List BufferTask
  pub consumed : List BufferTask

-- The statement that a thread executes next, with its `p_task` or `c_task`; `none` is NULL.
pub data Pc : Type 0 where
  p_wait p_trylock p_take : Pc
  p_unlock p_run : Option BufferTask → Pc
  p_lock p_push : BufferTask → Pc
  p_release : Pc
  c_wait c_lock c_take : Pc
  c_unlock c_run : Option BufferTask → Pc
  c_lock_back c_push : BufferTask → Pc
  c_release : Pc
  t_post : ℕ → Pc
  t_post_consumer : Pc

-- `sem_post`, which fails when the semaphore has the largest value.
abbrev pub sem_post : ℕ → ℕ
sem_post x = if ltb x (2 ^ 31 - 1) then x + 1 else x

-- A step of thread `i` beside `p_thread_size` producers; `none` while `sem_wait` or
-- `pthread_mutex_lock` blocks it. `pthread_mutex_trylock` gives up instead.
unfoldable pub step : ℕ → ℕ → Shared → Pc → Option (Shared × Pc)
step n i m p_wait =
    if m.sems i == 0
    then none
    else some (record m { sems = update m.sems i (m.sems i - 1) }, p_trylock)
step n i m p_trylock = elim m.p_mutex [
  | none ↦ some (record m { p_mutex = some i }, p_take)
  | some j ↦ some (m, p_run none)
]
step n i m p_take = elim m.p_queue [
  | [] ↦ some (m, p_unlock none)
  | t ∷ ts ↦ some (record m { p_queue = ts }, p_unlock (some t))
]
step n i m (p_unlock t) = some (record m { p_mutex = none }, p_run t)
step n i m (p_run none) = some (m, p_wait)
step n i m (p_run (some t)) =
    if t.produce_task
    then some (record m { produced = m.produced ++ t ∷ [] }, p_lock t)
    else some (m, p_wait)
step n i m (p_lock t) = elim m.c_mutex [
  | none ↦ some (record m { c_mutex = some i }, p_push t)
  | some j ↦ none
]
step n i m (p_push t) = some (record m { c_queue = m.c_queue ++ t ∷ [] }, p_release)
step n i m p_release = some (record m { c_mutex = none }, p_wait)
step n i m c_wait =
    if m.sems i == 0
    then none
    else some (record m { sems = update m.sems i (m.sems i - 1) }, c_lock)
step n i m c_lock = elim m.c_mutex [
  | none ↦ some (record m { c_mutex = some i }, c_take)
  | some j ↦ none
]
step n i m c_take = elim m.c_queue [
  | [] ↦ some (m, c_unlock none)
  | t ∷ ts ↦ some (record m { c_queue = ts }, c_unlock (some t))
]
step n i m (c_unlock t) = some (record m { c_mutex = none }, c_run t)
step n i m (c_run none) = some (m, c_wait)
step n i m (c_run (some t)) =
    if t.consume_task
    then some (record m { consumed = m.consumed ++ t ∷ [] }, c_lock_back t)
    else some (m, c_wait)
step n i m (c_lock_back t) = elim m.p_mutex [
  | none ↦ some (record m { p_mutex = some i }, c_push t)
  | some j ↦ none
]
step n i m (c_push t) = some (record m { p_queue = m.p_queue ++ t ∷ [] }, c_release)
step n i m c_release = some (record m { p_mutex = none }, c_wait)
step n i m (t_post k) =
    if ltb k n
    then some (record m { sems = update m.sems k (sem_post (m.sems k)) }, t_post (k + 1))
    else some (m, t_post_consumer)
step n i m t_post_consumer =
    some (record m { sems = update m.sems n (sem_post (m.sems n)) }, t_post 0)

abbrev pub System : Type 0
System = Threads.System Shared Pc

-- The turns are thread numbers; the first argument is that of `step`.
abbrev pub turn : ℕ → System → ℕ → System
turn n = Threads.turn (λ i. i) (step n)

abbrev pub run : ℕ → System → List ℕ → System
run n = Threads.run (λ i. i) (step n)

-- The object as the constructor leaves it.
abbrev pub start : List BufferTask → Shared
start tasks = record {
  sems = λ i. 0;
  p_queue = tasks;
  c_queue = [];
  p_mutex = none;
  c_mutex = none;
  produced = [];
  consumed = [];
}

-- Threads 0, …, `n - 1` are the producers, `n` is the consumer, and what is above ticks.
abbrev pub entry : ℕ → ℕ → Pc
entry n i = if ltb i n then p_wait else (if i == n then c_wait else t_post 0)

unfoldable pub init : ℕ → List BufferTask → System
init n tasks = record { mem = start tasks; pc = λ i. entry n i }
