-- ===== src/BoundedBuffer.antt =====
-- src/examples/input_show/product_consume_model.c: producers and consumers that share a ring of ten
-- slots under two semaphores and a mutex. One step is one statement of one thread, so a schedule (a
-- list of thread numbers) is an interleaving of the program.
mod Pending
pub mod Invariant
mod Moves
pub mod Safety
pub mod Queue
pub mod Progress
mod Fair
pub mod Main
mod Tests
use dsui.Threads
use dsui.Prelude.{
  ℕ, ◌+◌, ◌-◌, ◌%◌, ◌^◌, Bool, true, false, Option, none, some, List, [], ◌∷◌, ◌++◌, ◌==◌,
  if◌then◌else◌, get_or, set, replicate, update,
}

abbrev pub buffer_size : ℕ
buffer_size = 10

-- An `int` that is only counted up and down, as its bit pattern. C leaves it undefined what follows the
-- largest `int`; here it is the smallest.
abbrev pub int_suc : ℕ → ℕ
int_suc x = (x + 1) % 2 ^ 32

abbrev pub int_pred : ℕ → ℕ
int_pred x = (x + 2 ^ 32 - 1) % 2 ^ 32

-- The globals: `in` is the field `inp`. The two lists are what the `printf` calls have shown.
pub record Shared : Type 0 where
  pub buffer : List ℕ
  pub count : ℕ
  pub inp : ℕ
  pub out : ℕ
  pub empty_slots : ℕ
  pub filled_slots : ℕ
  pub mutex : Option ℕ
  pub produced : List ℕ
  pub consumed : List ℕ

-- The statement that a thread executes next, with the `item` of a producer.
pub data Pc : Type 0 where
  p_wait p_lock p_store p_next p_count p_unlock p_post : ℕ → Pc
  c_wait c_lock c_load c_next c_count c_unlock c_post : Pc

-- A step of thread `i`; `none` while `sem_wait` or `pthread_mutex_lock` blocks it.
pub step : ℕ → Shared → Pc → Option (Shared × Pc)
step i m (p_wait item) =
    if m.empty_slots == 0
    then none
    else some (record m { empty_slots = m.empty_slots - 1 }, p_lock item)
step i m (p_lock item) = elim m.mutex [
  | none ↦ some (record m { mutex = some i }, p_store item)
  | some j ↦ none
]
step i m (p_store item) = some (
  record m { buffer = set m.buffer m.inp item; produced = m.produced ++ item ∷ [] },
  p_next (int_suc item),
)
step i m (p_next item) = some (record m { inp = (m.inp + 1) % buffer_size }, p_count item)
step i m (p_count item) = some (record m { count = int_suc m.count }, p_unlock item)
step i m (p_unlock item) = some (record m { mutex = none }, p_post item)
step i m (p_post item) = some (record m { filled_slots = m.filled_slots + 1 }, p_wait item)
step i m c_wait =
    if m.filled_slots == 0
    then none
    else some (record m { filled_slots = m.filled_slots - 1 }, c_lock)
step i m c_lock = elim m.mutex [ none ↦ some (record m { mutex = some i }, c_load) | some j ↦ none ]
step i m c_load = some (record m { consumed = m.consumed ++ get_or m.buffer m.out 0 ∷ [] }, c_next)
step i m c_next = some (record m { out = (m.out + 1) % buffer_size }, c_count)
step i m c_count = some (record m { count = int_pred m.count }, c_unlock)
step i m c_unlock = some (record m { mutex = none }, c_post)
step i m c_post = some (record m { empty_slots = m.empty_slots + 1 }, c_wait)

abbrev pub System : Type 0
System = Threads.System Shared Pc

-- The turns are thread numbers.
abbrev pub run : System → List ℕ → System
run = Threads.run (λ i. i) step

-- The globals once `main` has run its `sem_init` calls.
abbrev pub start : Shared
start = record {
  buffer = replicate buffer_size 0;
  count = 0;
  inp = 0;
  out = 0;
  empty_slots = buffer_size;
  filled_slots = 0;
  mutex = none;
  produced = [];
  consumed = [];
}

-- A thread before its first statement: a producer starts with item 1.
abbrev pub entry : Bool → Pc
entry true = p_wait 1
entry false = c_wait

-- `is_producer` says which threads `main` creates as producers.
pub init : (ℕ → Bool) → System
init is_producer = record { mem = start; pc = λ i. entry (is_producer i) }

-- The threads of `main`: 0, 1 and 2 produce, 3 consumes.
abbrev pub main_threads : ℕ
main_threads = 4

abbrev pub main_producer : ℕ → Bool
main_producer i = if i == 3 then false else true
