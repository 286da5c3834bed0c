-- ===== src/Prelude/Family.antt =====
-- What belongs to each thread, as a function of the thread's number: a write for one thread, and the
-- sum of what the threads below a bound weigh.
use Prim.Native.Nat.{ℕ, zero, suc, ◌+◌, ◌*◌, ◌≤◌, ◌<◌}
use mathlib.Core.Path.{◌≡◌, refl}
use native.Mathlib.Decide.{dec_lt}
use native.Mathlib.Nat.{mul-add, mul-suc}
use native.Mathlib.Omega.{arith}
use dsui.Prelude.Tests.{◌==◌, if◌then◌else◌}

abbrev pub update {ℓ} : {A : Type ℓ} → (ℕ → A) → ℕ → A → ℕ → A
update pc i new j = if j == i then new else pc j

-- The sum is taken from thread 0 upwards.
pub total {ℓ} : {A : Type ℓ} → (A → ℕ) → ℕ → (ℕ → A) → ℕ
total weight zero pc = 0
total weight (suc n) pc = weight (pc 0) + total weight n (λ i. pc (suc i))

module _ {ℓ} {A : Type ℓ} (weight : A → ℕ) where
  total_congr :
      (n : ℕ) (p q : ℕ → A)
      → ((i : ℕ) → weight (p i) ≡ weight (q i))
      → total weight n p ≡ total weight n q
  unfolding total
  total_congr zero p q same = refl
  total_congr (suc n) p q same =
      omega (arith, same 0, total_congr n (λ i. p (suc i)) (λ i. q (suc i)) (λ i. same (suc i)))

  pub total-update :
      (n : ℕ) (pc : ℕ → A) (i : ℕ) (new : A)
      → i < n
      → total weight n (update pc i new) + weight (pc i) ≡ total weight n pc + weight new
  unfolding total
  total-update zero pc i new lt = absurd (omega arith)
  total-update (suc n) pc zero new lt =
      let tail : total weight n (λ j. update pc 0 new (suc j)) ≡ total weight n (λ j. pc (suc j)) =
        total_congr n _ _ (λ j. ground arith) in
      omega (arith, tail)
  total-update (suc n) pc (suc i) new lt =
      let shift : total weight n (λ j. update pc (suc i) new (suc j))
          ≡ total weight n (update (λ j. pc (suc j)) i new) =
        total_congr n _ _ (λ j. ground arith) in
      let head : weight (update pc (suc i) new 0) ≡ weight (pc 0) = ground arith in
      omega (arith, head, shift, total-update n (λ j. pc (suc j)) i new (omega arith))

  pub total-eq_zero : (n : ℕ) (pc : ℕ → A) → ((i : ℕ) → weight (pc i) ≡ 0) → total weight n pc ≡ 0
  unfolding total
  total-eq_zero zero pc light = refl
  total-eq_zero (suc n) pc light =
      omega (arith, light 0, total-eq_zero n (λ i. pc (suc i)) (λ i. light (suc i)))

  -- If the threads together weigh something, one of them does.
  pub total_pos :
      (n : ℕ) (pc : ℕ → A) → 0 < total weight n pc → (i : ℕ) × (i < n) × (0 < weight (pc i))
  unfolding total
  total_pos zero pc some_weight = absurd (omega arith)
  total_pos (suc n) pc some_weight = elim (dec_lt 0 (weight (pc 0))) [
    | yes first ↦ (0, omega arith, first)
    | no none_here ↦
        let (i, lt, heavy) = total_pos n (λ i. pc (suc i)) (omega (arith, none_here)) in
        (suc i, omega arith, heavy)
  ]

  pub le-total : (n : ℕ) (pc : ℕ → A) (i : ℕ) → i < n → weight (pc i) ≤ total weight n pc
  unfolding total
  le-total zero pc i lt = absurd (omega arith)
  le-total (suc n) pc zero lt = omega arith
  le-total (suc n) pc (suc i) lt = omega (arith, le-total n (λ j. pc (suc j)) i (omega arith))

  pub total_mono :
      (heavier : A → ℕ)
      → ((a : A) → weight a ≤ heavier a)
      → (n : ℕ) (pc : ℕ → A) → total weight n pc ≤ total heavier n pc
  unfolding total
  total_mono heavier le zero pc = omega arith
  total_mono heavier le (suc n) pc =
      omega (arith, le (pc 0), total_mono heavier le n (λ i. pc (suc i)))

  -- The same for a bound that is linear in another weight.
  pub total_linear :
      (unit : A → ℕ) (k each : ℕ)
      → ((a : A) → weight a ≤ k * unit a + each)
      → (n : ℕ) (pc : ℕ → A) → total weight n pc ≤ k * total unit n pc + each * n
  unfolding total
  total_linear unit k each le zero pc = omega arith
  total_linear unit k each le (suc n) pc = omega (
    arith,
    le (pc 0),
    total_linear unit k each le n (λ i. pc (suc i)),
    mul-add k (unit (pc 0)) (total unit n (λ i. pc (suc i))),
    mul-suc each n,
  )
