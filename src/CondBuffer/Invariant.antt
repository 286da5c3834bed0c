-- ===== src/CondBuffer/Invariant.antt =====
-- What holds between any two statements of triple_buffer_model.c, whatever the schedule.
use dsui.Prelude.{
  ℕ, suc, ◌+◌, ◌≤◌, ◌<◌, ◌≡◌, Bool, true, false, Option, none, some, List, [], ◌∷◌, ◌++◌, length,
  take,
}
use dsui.CondBuffer.{
  buffer_size, Shared, Pc, p_rand, p_lock, p_wait, p_store, p_count, p_prod, p_print, c_lock,
  c_test, c_wait, c_load, c_inc, c_print, c_signal, c_unlock,
}

-- Between taking the mutex and giving it back.
abbrev pub critical : Pc → Bool
critical p_rand = false
critical (p_lock _) = false
critical (p_wait _) = false
critical (c_lock _) = false
critical (c_wait _) = false
critical _ = true

abbrev pub owner_pc : Option ℕ → (ℕ → Pc) → Pc
owner_pc none pc = p_rand
owner_pc (some j) pc = pc j

-- How far the counters lag behind the buffer while a producer is half way.
abbrev pub count_lag : Pc → ℕ
count_lag (p_count _) = 1
count_lag _ = 0

abbrev pub prod_lag : Pc → ℕ
prod_lag (p_count _) = 1
prod_lag (p_prod _) = 1
prod_lag _ = 0

-- The item that is stored and not printed yet.
abbrev pub unprinted : Pc → List ℕ
unprinted (p_count item) = item ∷ []
unprinted (p_prod item) = item ∷ []
unprinted (p_print item) = item ∷ []
unprinted _ = []

-- What the last test of the thread that holds the mutex says of the counters.
abbrev pub Tested : Shared → Pc → Type 0
Tested m (p_store _) = m.count < buffer_size
Tested m (c_load k) = k < m.prod_count
Tested m _ = Unit

-- The number of items that a consumer has read, and the one that it has not printed yet.
abbrev pub position : Pc → ℕ
position (c_lock k) = k
position (c_test k) = k
position (c_wait k) = k
position (c_load k) = k
position (c_inc k _) = suc k
position (c_print k _) = k
position (c_signal k) = k
position (c_unlock k) = k
position _ = 0

abbrev pub unseen : Pc → List ℕ
unseen (c_inc _ item) = item ∷ []
unseen (c_print _ item) = item ∷ []
unseen _ = []

-- The number of items in the buffer.
abbrev pub stored : Shared → (ℕ → Pc) → ℕ
stored m pc = m.count + count_lag (owner_pc m.mutex pc)

pub record Inv (m : Shared) (pc : ℕ → Pc) : Type 0 where
  pub owner : (j : ℕ) → critical (pc j) ≡ true → m.mutex ≡ some j
  pub owns : (j : ℕ) → m.mutex ≡ some j → critical (pc j) ≡ true
  pub size : length m.buffer ≡ buffer_size
  pub bounded : stored m pc ≤ buffer_size
  pub counted : m.prod_count + prod_lag (owner_pc m.mutex pc) ≡ stored m pc
  pub contents : take (stored m pc) m.buffer ≡ m.produced ++ unprinted (owner_pc m.mutex pc)
  pub tested : Tested m (owner_pc m.mutex pc)
  pub reading :
      (j : ℕ)
      → (position (pc j) ≤ length m.produced)
        × (m.consumed j ++ unseen (pc j) ≡ take (position (pc j)) m.produced)
