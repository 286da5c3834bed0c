-- ===== src/BoundedBuffer/Pending.antt =====
-- The items between `out` and `in`, oldest first, and how a store and a load change them.
use dsui.Prelude.{
  ℕ, zero, suc, ◌+◌, ◌-◌, ◌%◌, ◌<◌, ◌≡◌, refl, ap, List, [], ◌∷◌, ◌++◌, arith, length, get_or, set,
  get_or-set_self, get_or-set_ne,
}
use mathlib.Core.Path.{ap₂}
use dsui.BoundedBuffer.{buffer_size}

-- The `n` items from index `h` on, going round at `BUFFER_SIZE`.
abbrev pub pending : List ℕ → ℕ → ℕ → List ℕ
pending buf h zero = []
pending buf h (suc n) = get_or buf h 0 ∷ pending buf ((h + 1) % buffer_size) n

pub length-pending : (buf : List ℕ) (h n : ℕ) → length (pending buf h n) ≡ n
length-pending buf h zero = refl
length-pending buf h (suc n) = ap suc (length-pending buf ((h + 1) % buffer_size) n)

-- A store just past the pending items extends them by that item.
pub pending-set :
    (buf : List ℕ) (x n h i : ℕ)
    → length buf ≡ buffer_size
    → h < buffer_size
    → n < buffer_size
    → i ≡ (h + n) % buffer_size
    → pending (set buf i x) h (suc n) ≡ pending buf h n ++ x ∷ []
pending-set buf x zero h i size hh hn e =
    let at : i ≡ h = omega arith in
    ap (λ (v : ℕ). v ∷ []) (ground (arith, get_or-set_self buf h x 0))
pending-set buf x (suc n) h i size hh hn e =
    ap₂ ◌∷◌ (get_or-set_ne buf i h x 0 (omega arith))
      (pending-set buf x n ((h + 1) % buffer_size) i size (omega arith) (omega arith) (omega arith))

pub pending_of_pos :
    (buf : List ℕ) (h n : ℕ)
    → 0 < n
    → pending buf h n ≡ get_or buf h 0 ∷ pending buf ((h + 1) % buffer_size) (n - 1)
pending_of_pos buf h zero lt = absurd (omega arith)
pending_of_pos buf h (suc n) lt =
    ap (λ k. get_or buf h 0 ∷ pending buf ((h + 1) % buffer_size) k) (omega arith)
