-- ===== src/Prelude/Bags.antt =====
-- Lists up to the order of their items: what a table holds, wherever in it.
use Prim.Native.Nat.{ℕ, ◌+◌}
use mathlib.Core.Path.{◌≡◌, refl}
use mathlib.Core.Bool.{Bool}
use mathlib.Core.List.{List, [], ◌∷◌}
use mathlib.Core.Quot
use mathlib.Core.Quot.{Quot, Quot-set}
use native.Mathlib.Nat.{ℕ_set}
use native.Mathlib.Omega.{arith}
use dsui.Prelude.Tests.{if◌then◌else◌}

-- `same` tests whether two items are equal.
module _ {A : Type 0} (same : A → A → Bool) where
  abbrev pub count : A → List A → ℕ
  count a [] = 0
  count a (x ∷ xs) = (if same a x then 1 else 0) + count a xs

  abbrev pub SameItems : List A → List A → Type 0
  SameItems xs ys = (a : A) → count a xs ≡ count a ys

  abbrev pub Bag : Type 0
  Bag = Quot SameItems

  pub occurrences : A → Bag → ℕ
  occurrences a = Quot.lift ℕ_set (count a) (λ xs ys h. h a)

  SameItems-cons : (x : A) (xs ys : List A) → SameItems xs ys → SameItems (x ∷ xs) (x ∷ ys)
  SameItems-cons x xs ys h a = omega (arith, h a)

  pub put : A → Bag → Bag
  put x =
      Quot.lift Quot-set (λ xs. Quot.mk (x ∷ xs)) (λ xs ys h. Quot.sound (SameItems-cons x xs ys h))

  pub occurrences-mk : (a : A) (xs : List A) → occurrences a (Quot.mk xs) ≡ count a xs
  unfolding occurrences
  occurrences-mk a xs = refl

  -- To have put an item in is to hold one more of it.
  pub put_of_count :
      (x : A) (xs ys : List A)
      → ((a : A) → count a ys ≡ (if same a x then 1 else 0) + count a xs)
      → ◌≡◌ {A = Bag} (Quot.mk ys) (put x (Quot.mk xs))
  unfolding put
  put_of_count x xs ys h = Quot.sound h
