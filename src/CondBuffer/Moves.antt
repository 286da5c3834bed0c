-- ===== src/CondBuffer/Moves.antt =====
-- A statement of thread `i` keeps each field of the invariant.
use mathlib.Core.List.{append-nil}
use dsui.Prelude.{
  ℕ, ◌+◌, ◌≤◌, ◌≡◌, refl, ap, true, some, [], ◌∷◌, ◌++◌, arith, length, length-set, length-append,
  length-take, get_or-take, take, take-suc, take-append, take-set, update,
}
use dsui.CondBuffer.{
  buffer_size, Shared, Pc, p_rand, p_store, p_print, c_load, c_inc, c_print, step,
}
use dsui.CondBuffer.Invariant.{
  critical, owner_pc, prod_lag, unprinted, Tested, position, unseen, stored, Inv,
}

-- The producers have printed at most BUFFER_SIZE items.
pub length-produced-le : {m : Shared} {pc : ℕ → Pc} → Inv m pc → length m.produced ≤ buffer_size
length-produced-le {m} {pc} inv = omega (
  arith,
  inv.size,
  inv.bounded,
  length-take (stored m pc) m.buffer,
  ap length inv.contents,
  length-append m.produced (unprinted (owner_pc m.mutex pc)),
)

module _ {m : Shared} {pc : ℕ → Pc} (inv : Inv m pc) (i r : ℕ) where
  open inv use {owner, owns, size, bounded, counted, contents, tested, reading}

  step-owner :
      (p : Pc) {m' : Shared} {p' : Pc}
      → pc i ≡ p
      → step i r m p ≡ some (m', p')
      → (j : ℕ) → critical (update pc i p' j) ≡ true
      → m'.mutex ≡ some j
  unfolding step
  step-owner p_rand at e j c = ground (arith, owner j, owner i)
  step-owner p at e j c = ground (arith, owner j, owner i)

  step-owns :
      (p : Pc) {m' : Shared} {p' : Pc}
      → pc i ≡ p
      → step i r m p ≡ some (m', p')
      → (j : ℕ) → m'.mutex ≡ some j
      → critical (update pc i p' j) ≡ true
  unfolding step
  step-owns p_rand at e j c = ground (arith, owns j, owner i)
  step-owns p at e j c = ground (arith, owns j, owner i)

  step-size :
      (p : Pc) {m' : Shared} {p' : Pc}
      → step i r m p ≡ some (m', p')
      → length m'.buffer ≡ buffer_size
  unfolding step
  step-size (p_store x) e = ground (arith, length-set m.buffer m.count x)
  step-size p e = ground arith

  step-bounded :
      (p : Pc) {m' : Shared} {p' : Pc}
      → pc i ≡ p
      → step i r m p ≡ some (m', p')
      → stored m' (update pc i p') ≤ buffer_size
  unfolding step
  step-bounded p_rand at e = ground (arith, owner i, owns i)
  step-bounded p at e = ground (arith, owner i, owns i)

  step-counted :
      (p : Pc) {m' : Shared} {p' : Pc}
      → pc i ≡ p
      → step i r m p ≡ some (m', p')
      → m'.prod_count + prod_lag (owner_pc m'.mutex (update pc i p')) ≡ stored m' (update pc i p')
  unfolding step
  step-counted p_rand at e = ground (arith, owner i, owns i)
  step-counted p at e = ground (arith, owner i, owns i)

  step-contents :
      (p : Pc) {m' : Shared} {p' : Pc}
      → pc i ≡ p
      → step i r m p ≡ some (m', p')
      → take (stored m' (update pc i p')) m'.buffer
        ≡ m'.produced ++ unprinted (owner_pc m'.mutex (update pc i p'))
  unfolding step
  step-contents (p_store x) at e =
      ground (arith, owner i, take-set m.count m.buffer x, append-nil m.produced)
  step-contents (p_print x) at e = ground (arith, owner i, append-nil (m.produced ++ x ∷ []))
  step-contents p at e = ground (arith, owner i, owns i)

  step-Tested :
      (p : Pc) {m' : Shared} {p' : Pc}
      → pc i ≡ p
      → step i r m p ≡ some (m', p')
      → Tested m' (owner_pc m'.mutex (update pc i p'))
  unfolding step
  step-Tested p_rand at e = ground (arith, owner i, owns i)
  step-Tested p at e = ground (arith, owner i, owns i)

  printed :
      {p : Pc} → pc i ≡ p → critical p ≡ true → unprinted p ≡ [] → length m.produced ≡ stored m pc
  printed at c u = ground (
    arith,
    owner i,
    length-take (stored m pc) m.buffer,
    ap length contents,
    append-nil m.produced,
  )

  step-reading :
      (p : Pc) {m' : Shared} {p' : Pc}
      → pc i ≡ p
      → step i r m p ≡ some (m', p')
      → (j : ℕ)
      → (position (update pc i p' j) ≤ length m'.produced)
        × (m'.consumed j ++ unseen (update pc i p' j)
            ≡ take (position (update pc i p' j)) m'.produced)
  unfolding step
  step-reading (p_print x) at e j = ground (
    arith,
    reading j,
    reading i,
    length-append m.produced (x ∷ []),
    take-append (position (pc j)) m.produced (x ∷ []),
  )
  step-reading (c_load k) at e j = ground (
    arith,
    reading j,
    reading i,
    owner i,
    printed at,
    take-suc k m.produced 0,
    get_or-take (stored m pc) k m.buffer 0,
    append-nil m.produced,
    append-nil (m.consumed i),
  )
  step-reading (c_print k x) at e j =
      ground (arith, reading j, reading i, append-nil (m.consumed i ++ x ∷ []))
  step-reading (c_inc k x) at e j = ground (arith, reading j, reading i, length-produced-le inv)
  step-reading p at e j = ground (arith, reading j, reading i)

  pub step-Inv :
      {m' : Shared} {p' : Pc} → step i r m (pc i) ≡ some (m', p') → Inv m' (update pc i p')
  step-Inv e = record {
    owner = step-owner _ refl e;
    owns = step-owns _ refl e;
    size = step-size _ e;
    bounded = step-bounded _ refl e;
    counted = step-counted _ refl e;
    contents = step-contents _ refl e;
    tested = step-Tested _ refl e;
    reading = step-reading _ refl e;
  }
