-- ===== src/BoundedBuffer/Invariant.antt =====
-- What holds between any two statements of product_consume_model.c, whatever the schedule: who may
-- be in the critical section, how the semaphores count the slots, where `in` and `out` stand.
use dsui.Prelude.{ℕ, ◌+◌, ◌%◌, ◌<◌, ◌≡◌, Bool, true, false, Option, none, some, ◌++◌, length, total}
use dsui.BoundedBuffer.{
  buffer_size, Shared, Pc, p_wait, p_lock, p_next, p_count, p_unlock, p_post, c_wait, c_lock,
  c_load, c_next, c_count, c_post,
}
use dsui.BoundedBuffer.Pending.{pending}

-- Between `pthread_mutex_lock` and `pthread_mutex_unlock`.
abbrev pub critical : Pc → Bool
critical (p_wait _) = false
critical (p_lock _) = false
critical (p_post _) = false
critical c_wait = false
critical c_lock = false
critical c_post = false
critical _ = true

-- A thread between its `sem_wait` and its `sem_post` has taken one slot off the semaphores.
abbrev pub token : Pc → ℕ
token (p_wait _) = 0
token c_wait = 0
token _ = 1

-- That slot holds an item that is not consumed yet.
abbrev pub stored : Pc → ℕ
stored (p_next _) = 1
stored (p_count _) = 1
stored (p_unlock _) = 1
stored (p_post _) = 1
stored c_lock = 1
stored c_load = 1
stored _ = 0

-- How far the globals lag behind while a thread is half way through its critical section.
abbrev pub in_lag : Pc → ℕ
in_lag (p_next _) = 1
in_lag _ = 0

abbrev pub out_lag : Pc → ℕ
out_lag c_next = 1
out_lag _ = 0

abbrev pub up_lag : Pc → ℕ
up_lag (p_next _) = 1
up_lag (p_count _) = 1
up_lag _ = 0

abbrev pub down_lag : Pc → ℕ
down_lag c_next = 1
down_lag c_count = 1
down_lag _ = 0

abbrev pub owner_pc : Option ℕ → (ℕ → Pc) → Pc
owner_pc none pc = c_wait
owner_pc (some j) pc = pc j

-- The number of items in the buffer.
abbrev pub held : ℕ → Shared → (ℕ → Pc) → ℕ
held n m pc = m.filled_slots + total stored n pc

pub record Inv (n : ℕ) (m : Shared) (pc : ℕ → Pc) : Type 0 where
  pub owner : (j : ℕ) → critical (pc j) ≡ true → m.mutex ≡ some j
  pub owns : (j : ℕ) → m.mutex ≡ some j → (critical (pc j) ≡ true) × (j < n)
  pub slots : m.empty_slots + m.filled_slots + total token n pc ≡ buffer_size
  pub size : length m.buffer ≡ buffer_size
  pub in_range : (m.inp < buffer_size) × (m.out < buffer_size)
  pub input :
      (m.inp + in_lag (owner_pc m.mutex pc)) % buffer_size
      ≡ (m.out + out_lag (owner_pc m.mutex pc) + held n m pc) % buffer_size
  pub counted :
      m.count + up_lag (owner_pc m.mutex pc) ≡ held n m pc + down_lag (owner_pc m.mutex pc)
  pub fifo :
      m.produced
      ≡ m.consumed
        ++ pending m.buffer ((m.out + out_lag (owner_pc m.mutex pc)) % buffer_size) (held n m pc)
