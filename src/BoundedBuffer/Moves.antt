-- ===== src/BoundedBuffer/Moves.antt =====
-- A statement of thread `i` keeps each field of the invariant.
use mathlib.Core.List.{append_assoc}
use dsui.Prelude.{
  ℕ, ◌+◌, ◌-◌, ◌%◌, ◌≤◌, ◌<◌, ◌≡◌, refl, true, some, [], ◌∷◌, ◌++◌, arith, length, length-set,
  get_or, update, total, total-update, total_mono, le-total,
}
use dsui.BoundedBuffer.{buffer_size, Shared, Pc, p_wait, p_store, c_wait, c_load, step}
use dsui.BoundedBuffer.Pending.{pending, pending-set, pending_of_pos}
use dsui.BoundedBuffer.Invariant.{
  critical, token, stored, in_lag, out_lag, up_lag, down_lag, owner_pc, held, Inv,
}

stored-le-token : (p : Pc) → stored p ≤ token p
stored-le-token (p_wait x) = omega arith
stored-le-token p = omega arith

pub held-le : {n : ℕ} {m : Shared} {pc : ℕ → Pc} → Inv n m pc → held n m pc ≤ buffer_size
held-le {n} {m} {pc} inv = omega (arith, inv.slots, total_mono stored token stored-le-token n pc)

module _ {n : ℕ} {m : Shared} {pc : ℕ → Pc} (inv : Inv n m pc) (i : ℕ) (lt : i < n) where
  open inv use {owner, owns, slots, size, in_range, input, counted, fifo}

  counts :
      (p p' : Pc)
      → pc i ≡ p
      → (total token n (update pc i p') + token p ≡ total token n pc + token p')
        × (total stored n (update pc i p') + stored p ≡ total stored n pc + stored p')
  counts p p' at = ground (arith, total-update token n pc i p' lt, total-update stored n pc i p' lt)

  step-owner :
      (p : Pc) {m' : Shared} {p' : Pc}
      → pc i ≡ p
      → step i m p ≡ some (m', p')
      → (j : ℕ) → critical (update pc i p' j) ≡ true
      → m'.mutex ≡ some j
  unfolding step
  step-owner (p_wait x) at e j c = ground (arith, owner j, owner i)
  step-owner p at e j c = ground (arith, owner j, owner i)

  step-owns :
      (p : Pc) {m' : Shared} {p' : Pc}
      → pc i ≡ p
      → step i m p ≡ some (m', p')
      → (j : ℕ) → m'.mutex ≡ some j
      → (critical (update pc i p' j) ≡ true) × (j < n)
  unfolding step
  step-owns (p_wait x) at e j c = ground (arith, owns j, owner i)
  step-owns p at e j c = ground (arith, owns j, owner i)

  step-slots :
      (p : Pc) {m' : Shared} {p' : Pc}
      → pc i ≡ p
      → step i m p ≡ some (m', p')
      → m'.empty_slots + m'.filled_slots + total token n (update pc i p') ≡ buffer_size
  unfolding step
  step-slots (p_wait x) {p' = p'} at e = ground (arith, counts (p_wait x) p' at)
  step-slots p {p' = p'} at e = ground (arith, counts p p' at)

  -- A thread about to store has a free slot.
  store_room : (item : ℕ) → pc i ≡ p_store item → held n m pc < buffer_size
  store_room item at = omega (
    arith,
    counts (p_store item) c_wait at,
    total_mono stored token stored-le-token n (update pc i c_wait),
  )

  -- A thread about to load has an item.
  load_room : pc i ≡ c_load → 0 < held n m pc
  load_room at = ground (arith, le-total stored n pc i lt)

  step-size :
      (p : Pc) {m' : Shared} {p' : Pc} → step i m p ≡ some (m', p') → length m'.buffer ≡ buffer_size
  unfolding step
  step-size (p_store x) e = ground (arith, length-set m.buffer m.inp x)
  step-size p e = ground arith

  step-in_range :
      (p : Pc) {m' : Shared} {p' : Pc}
      → step i m p ≡ some (m', p')
      → (m'.inp < buffer_size) × (m'.out < buffer_size)
  unfolding step
  step-in_range (p_store x) e = ground arith
  step-in_range p e = ground arith

  step-input :
      (p : Pc) {m' : Shared} {p' : Pc}
      → pc i ≡ p
      → step i m p ≡ some (m', p')
      → (m'.inp + in_lag (owner_pc m'.mutex (update pc i p'))) % buffer_size
        ≡ (m'.out + out_lag (owner_pc m'.mutex (update pc i p')) + held n m' (update pc i p'))
          % buffer_size
  unfolding step
  step-input (p_wait x) {p' = p'} at e = ground (arith, counts (p_wait x) p' at, owner i, owns i)
  step-input p {p' = p'} at e = ground (arith, counts p p' at, owner i, owns i)

  step-counted :
      (p : Pc) {m' : Shared} {p' : Pc}
      → pc i ≡ p
      → step i m p ≡ some (m', p')
      → m'.count + up_lag (owner_pc m'.mutex (update pc i p'))
        ≡ held n m' (update pc i p') + down_lag (owner_pc m'.mutex (update pc i p'))
  unfolding step
  step-counted (p_wait x) {p' = p'} at e =
      ground (arith, counts (p_wait x) p' at, owner i, owns i, held-le inv)
  step-counted p {p' = p'} at e = ground (arith, counts p p' at, owner i, owns i, held-le inv)

  abbrev first : ℕ
  first = (m.out + out_lag (owner_pc m.mutex pc)) % buffer_size

  step-fifo :
      (p : Pc) {m' : Shared} {p' : Pc}
      → pc i ≡ p
      → step i m p ≡ some (m', p')
      → m'.produced
        ≡ m'.consumed
          ++ pending m'.buffer
              ((m'.out + out_lag (owner_pc m'.mutex (update pc i p'))) % buffer_size)
              (held n m' (update pc i p'))
  unfolding step
  step-fifo (p_store x) {p' = p'} at e = ground (
    arith,
    counts (p_store x) p' at,
    owner i,
    store_room x at,
    pending-set m.buffer x (held n m pc) first m.inp,
    append_assoc m.consumed (pending m.buffer first (held n m pc)) (x ∷ []),
  )
  step-fifo c_load {p' = p'} at e = ground (
    arith,
    counts c_load p' at,
    owner i,
    load_room at,
    pending_of_pos m.buffer first (held n m pc),
    append_assoc m.consumed (get_or m.buffer m.out 0 ∷ [])
        (pending m.buffer ((m.out + 1) % buffer_size) (held n m pc - 1)),
  )
  step-fifo p {p' = p'} at e = ground (arith, counts p p' at, owner i, owns i)

  pub step-Inv :
      {m' : Shared} {p' : Pc} → step i m (pc i) ≡ some (m', p') → Inv n m' (update pc i p')
  step-Inv e = record {
    owner = step-owner _ refl e;
    owns = step-owns _ refl e;
    slots = step-slots _ refl e;
    size = step-size _ e;
    in_range = step-in_range _ e;
    input = step-input _ refl e;
    counted = step-counted _ refl e;
    fifo = step-fifo _ refl e;
  }
