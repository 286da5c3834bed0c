-- ===== src/Fifo.antt =====
-- What a bounded first-in first-out queue promises, as the buffers of the program have it: the abstract
-- machine that they implement. The machine is seen from its two ends.
pub mod Refines
use mathlib.Core.List.{append_assoc, append-nil}
use dsui.Prelude.{
  ℕ, ◌+◌, ◌≤◌, ◌<◌, ◌≡◌, refl, ◌∙◌, ap, sym, List, [], ◌∷◌, ◌++◌, arith, length, length-append,
}

-- What has entered so far and what has left, oldest first.
pub record Ends (A : Type 0) : Type 0 where
  pub entered : List A
  pub left : List A

-- An item enters while fewer than `places` wait; the one that leaves is the first of those waiting.
pub data Move {A : Type 0} (places : ℕ) (q : Ends A) : Ends A → Type 0 where
  enter :
      (x : A)
      → length q.entered < length q.left + places
      → Move places q (record q { entered = q.entered ++ x ∷ [] })
  leave :
      (x : A) (rest : List A)
      → q.entered ≡ q.left ++ x ∷ rest
      → Move places q (record q { left = q.left ++ x ∷ [] })

-- Any number of moves.
pub data Moves {A : Type 0} (places : ℕ) (q : Ends A) : Ends A → Type 0 where
  here : Moves places q q
  next : {r s : Ends A} → Moves places q r → Move places r s → Moves places q s

pub Moves-trans :
    {A : Type 0} {places : ℕ} {q r s : Ends A}
    → Moves places q r
    → Moves places r s
    → Moves places q s
Moves-trans first here = first
Moves-trans first (next later m) = next (Moves-trans first later) m

-- The items that wait, `places` of them at most.
pub record IsQueue {A : Type 0} (places : ℕ) (q : Ends A) : Type 0 where
  pub waiting : List A
  pub in_order : q.entered ≡ q.left ++ waiting
  pub bounded : length waiting ≤ places

-- A change at either end that the machine may not be allowed to make.
pub data Change {A : Type 0} (q : Ends A) (r : Ends A) : Type 0 where
  same : r ≡ q → Change q r
  entered_one : (x : A) → r ≡ record q { entered = q.entered ++ x ∷ [] } → Change q r
  left_one : (x : A) → r ≡ record q { left = q.left ++ x ∷ [] } → Change q r

-- A change to a queue is a move of the machine.
pub Change-Moves :
    {A : Type 0} {places : ℕ} {q r : Ends A} → Change q r → IsQueue places r → Moves places q r
Change-Moves {places = places} {q} (same e) is = rw e here
Change-Moves {places = places} {q} {r} (entered_one x e) is =
    let order : q.entered ++ x ∷ [] ≡ q.left ++ is.waiting = rw e at is.in_order in
    rw e (
      next here (
        enter x (
          omega (
            arith,
            is.bounded,
            ap length order,
            length-append q.entered (x ∷ []),
            length-append q.left is.waiting,
          ))))
Change-Moves {places = places} {q} {r} (left_one x e) is =
    let order : q.entered ≡ (q.left ++ x ∷ []) ++ is.waiting = rw e at is.in_order in
    rw e (next here (leave x is.waiting (order ∙ append_assoc q.left (x ∷ []) is.waiting)))
