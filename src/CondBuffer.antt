-- ===== src/CondBuffer.antt =====
-- src/examples/input_show/triple_buffer_model.c: producers and a consumer that share ten slots under
-- a mutex and two condition variables. One step is one statement of one thread.
pub mod Invariant
mod Moves
pub mod Bounds
pub mod Main
mod Tests
use dsui.Threads
use dsui.Prelude.{
  ℕ, ◌+◌, ◌%◌, ◌^◌, ◌≡◌, Bool, true, false, ◌||◌, Option, none, some, List, [], ◌∷◌, ◌++◌, ◌==◌,
  leb, if◌then◌else◌, get_or, set, replicate, update,
}

abbrev pub buffer_size : ℕ
buffer_size = 10

-- `++` on an `int`, as a bit pattern.
abbrev pub int_suc : ℕ → ℕ
int_suc x = (x + 1) % 2 ^ 32

-- The globals. `produced` is what the producers have printed, `consumed i` what thread `i` has
-- printed as consumed.
pub record Shared : Type 0 where
  pub buffer : List ℕ
  pub count : ℕ
  pub prod_count : ℕ
  pub mutex : Option ℕ
  pub produced : List ℕ
  pub consumed : ℕ → List ℕ

-- The statement that a thread executes next. A producer has its `item`; a consumer its `cons_count`
-- and, once it has read the buffer, its `item`.
pub data Pc : Type 0 where
  p_rand : Pc
  p_lock p_test p_wait p_store p_count p_prod p_print : ℕ → Pc
  p_signal p_unlock : Pc
  c_lock c_test c_wait c_load : ℕ → Pc
  c_inc c_print : ℕ → ℕ → Pc
  c_signal c_unlock : ℕ → Pc

abbrev acquire : ℕ → Shared → Pc → Option (Shared × Pc)
acquire i m p = elim m.mutex [ none ↦ some (record m { mutex = some i }, p) | some j ↦ none ]

-- A step of thread `i`, `none` while it waits for the mutex; `r` is what `rand` returns to it. By
-- POSIX a call of `pthread_cond_wait` may return without a signal, so a waiting thread goes on as
-- soon as the mutex is free, and `pthread_cond_signal` changes nothing that the threads can see.
pub step : ℕ → ℕ → Shared → Pc → Option (Shared × Pc)
step i r m p_rand = some (m, p_lock (r % 100))
step i r m (p_lock item) = acquire i m (p_test item)
step i r m (p_test item) =
    if m.count == buffer_size
    then some (record m { mutex = none }, p_wait item)
    else some (m, p_store item)
step i r m (p_wait item) = acquire i m (p_test item)
step i r m (p_store item) = some (record m { buffer = set m.buffer m.count item }, p_count item)
step i r m (p_count item) = some (record m { count = int_suc m.count }, p_prod item)
step i r m (p_prod item) = some (record m { prod_count = int_suc m.prod_count }, p_print item)
step i r m (p_print item) = some (record m { produced = m.produced ++ item ∷ [] }, p_signal)
step i r m p_signal = some (m, p_unlock)
step i r m p_unlock = some (record m { mutex = none }, p_rand)
step i r m (c_lock k) = acquire i m (c_test k)
step i r m (c_test k) =
    if m.count == 0 || leb m.prod_count k
    then some (record m { mutex = none }, c_wait k)
    else some (m, c_load k)
step i r m (c_wait k) = acquire i m (c_test k)
step i r m (c_load k) = some (m, c_inc k (get_or m.buffer (k % buffer_size) 0))
step i r m (c_inc k item) = some (m, c_print (int_suc k) item)
step i r m (c_print k item) =
    some (record m { consumed = update m.consumed i (m.consumed i ++ item ∷ []) }, c_signal k)
step i r m (c_signal k) = some (m, c_unlock k)
step i r m (c_unlock k) = some (record m { mutex = none }, c_lock k)

abbrev pub System : Type 0
System = Threads.System Shared Pc

-- A turn is a thread number and what `rand` returns to the thread.
abbrev pub by_turn : ℕ × ℕ → Shared → Pc → Option (Shared × Pc)
by_turn (i, r) = step i r

abbrev pub run : System → List (ℕ × ℕ) → System
run = Threads.run (λ t. t.0) by_turn

-- The globals as the program starts.
abbrev pub start : Shared
start = record {
  buffer = replicate buffer_size 0;
  count = 0;
  prod_count = 0;
  mutex = none;
  produced = [];
  consumed = λ _. [];
}

abbrev pub entry : Bool → Pc
entry true = p_rand
entry false = c_lock 0

-- `is_producer` says which threads `main` creates as producers.
pub init : (ℕ → Bool) → System
init is_producer = record { mem = start; pc = λ i. entry (is_producer i) }

-- The threads of `main`: 0, 1 and 2 produce, 3 consumes.
abbrev pub main_producer : ℕ → Bool
main_producer i = if i == 3 then false else true
