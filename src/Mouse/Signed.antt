-- ===== src/Mouse/Signed.antt =====
-- The mouse of src/examples/input_show/input_show.c, on `int32_t` coordinates. A sum that no `int32_t`
-- holds is undefined behaviour, `none`.
use native.Mathlib.Decide.{ℕ_discrete}
use dsui.Prelude.{
  ℕ, ◌+◌, ◌≤◌, ◌-◌, ◌/◌, ◌^◌, ◌<◌, ◌≡◌, Bool, Option, none, some, ◌==◌, ltb, leb, if◌then◌else◌,
  arith, ◌&&◌,
}
use dsui.Prelude.Int.{ℤ, pos, negsuc, pos_part, neg_part, ◌+ℤ◌, ◌≤ℤ◌, +ℤ_parts, eq_of_parts}
use dsui.InputReader.Kernel.{InputEvent}
use dsui.Mouse.Unsigned.{ev_rel, rel_x, rel_y}

pub record MousePos : Type 0 where
  pub x : ℤ
  pub y : ℤ
  pub max_x : ℤ
  pub max_y : ℤ
  pub min_x : ℤ
  pub min_y : ℤ

infixl 5 ◌>>=◌
abbrev ◌>>=◌ : {A B : Type 0} → Option A → (A → Option B) → Option B
none >>= f = none
some a >>= f = f a

abbrev pub int32 : ℤ → Option ℤ
int32 a = if ltb (pos_part a) (2 ^ 31) && leb (neg_part a) (2 ^ 31) then some a else none

-- C rounds a quotient towards 0.
abbrev pub half : ℤ → ℤ
half (pos n) = pos (n / 2)
half (negsuc n) = if n == 0 then pos 0 else negsuc ((n + 1) / 2 - 1)

abbrev pub leb_ℤ : ℤ → ℤ → Bool
leb_ℤ a b = leb (pos_part a + neg_part b) (pos_part b + neg_part a)

-- `init_mp`
unfoldable pub init_mp : ℤ → ℤ → ℤ → ℤ → Option MousePos
init_mp min_x min_y max_x max_y = do
  sum_x ← int32 (max_x +ℤ min_x)
  sum_y ← int32 (max_y +ℤ min_y)
  some (record {
    x = half sum_x;
    y = half sum_y;
    max_x = max_x;
    max_y = max_y;
    min_x = min_x;
    min_y = min_y;
  })

abbrev pub clamp : ℤ → ℤ → ℤ → ℤ
clamp lo hi v = let up = if leb_ℤ v lo then lo else v in if leb_ℤ hi up then hi else up

unfoldable pub move : ℤ → ℤ → ℤ → ℤ → Option ℤ
move v d lo hi = do sum ← int32 (v +ℤ d); some (clamp lo hi sum)

-- `test_input_callback`
unfoldable pub test_input_callback : InputEvent → MousePos → Option MousePos
unfolding move
test_input_callback event mp =
    let to_x = move mp.x event.value mp.min_x mp.max_x >>= λ v. some (record mp { x = v }) in
    let to_y = move mp.y event.value mp.min_y mp.max_y >>= λ v. some (record mp { y = v }) in
    if event.type == ev_rel
    then (if event.code == rel_x then to_x else (if event.code == rel_y then to_y else some mp))
    else some mp

-- The pointer is within bounds of at most 2^30 in size.
pub record InBounds (mp : MousePos) : Type 0 where
  pub across : (mp.min_x ≤ℤ mp.x) × (mp.x ≤ℤ mp.max_x)
  pub down : (mp.min_y ≤ℤ mp.y) × (mp.y ≤ℤ mp.max_y)
  pub wide : (negsuc (2 ^ 30) ≤ℤ mp.min_x) × (mp.max_x ≤ℤ pos (2 ^ 30))
  pub high : (negsuc (2 ^ 30) ≤ℤ mp.min_y) × (mp.max_y ≤ℤ pos (2 ^ 30))

-- The value of an event is less than 2^30 in size.
abbrev pub IsModest : ℤ → Type 0
IsModest d = (pos_part d < 2 ^ 30) × (neg_part d < 2 ^ 30)

-- A move within bounds of at most 2^30 in size by less than 2^30 is defined, and it is exact or stops
-- at the bound that it would pass.
move_lem :
    (v d lo hi : ℤ)
    → (lo ≤ℤ v) × (v ≤ℤ hi)
    → (negsuc (2 ^ 30) ≤ℤ lo) × (hi ≤ℤ pos (2 ^ 30))
    → IsModest d
    → move v d lo hi
      ≡ some (if leb_ℤ (v +ℤ d) lo then lo else (if leb_ℤ hi (v +ℤ d) then hi else v +ℤ d))
unfolding move
move_lem v d lo hi inside small modest = ground (arith, +ℤ_parts v d, eq_of_parts lo hi)

clamp-range : (lo hi v : ℤ) → lo ≤ℤ hi → (lo ≤ℤ clamp lo hi v) × (clamp lo hi v ≤ℤ hi)
clamp-range lo hi v le = ground arith

move-range :
    (v d lo hi : ℤ)
    → (lo ≤ℤ v) × (v ≤ℤ hi)
    → (negsuc (2 ^ 30) ≤ℤ lo) × (hi ≤ℤ pos (2 ^ 30))
    → IsModest d
    → (w : ℤ) × (move v d lo hi ≡ some w) × ((lo ≤ℤ w) × (w ≤ℤ hi))
unfolding move
move-range v d lo hi inside small modest =
    (clamp lo hi (v +ℤ d), ground (arith, +ℤ_parts v d), clamp-range lo hi (v +ℤ d) (omega arith))

-- From within bounds of at most 2^30 in size, test_input_callback is defined on every event whose
-- value is less than 2^30 in size, and leaves the pointer within bounds.
pub callback_keeps_bounds :
    (event : InputEvent) (mp : MousePos)
    → InBounds mp
    → IsModest event.value
    → (mp' : MousePos) × (test_input_callback event mp ≡ some mp') × InBounds mp'
unfolding test_input_callback
callback_keeps_bounds event mp inv modest =
    let (v, ev, in_v) = move-range mp.x event.value mp.min_x mp.max_x inv.across inv.wide modest in
    let (w, ew, in_w) = move-range mp.y event.value mp.min_y mp.max_y inv.down inv.high modest in
    elim (ℕ_discrete event.type ev_rel) [
      | yes rel ↦ elim (ℕ_discrete event.code rel_x) [
        | yes x ↦ (
          record mp { x = v },
          ground arith,
          record { across = in_v; down = inv.down; wide = inv.wide; high = inv.high },
        )
        | no not_x ↦ elim (ℕ_discrete event.code rel_y) [
          | yes y ↦ (
            record mp { y = w },
            ground arith,
            record { across = inv.across; down = in_w; wide = inv.wide; high = inv.high },
          )
          | no not_y ↦ (mp, ground arith, inv)
        ]
      ]
      | no other ↦ (mp, ground arith, inv)
    ]

-- On a screen of at most 2^30 by 2^30, with the bounds 0 and its size, init_mp is defined and puts the
-- pointer within bounds.
pub init_mp-InBounds :
    (width height : ℕ)
    → width ≤ 2 ^ 30
    → height ≤ 2 ^ 30
    → (mp : MousePos) × (init_mp (pos 0) (pos 0) (pos width) (pos height) ≡ some mp) × InBounds mp
unfolding init_mp ◌+ℤ◌
init_mp-InBounds width height w h = (
  record {
    x = pos (width / 2);
    y = pos (height / 2);
    max_x = pos width;
    max_y = pos height;
    min_x = pos 0;
    min_y = pos 0;
  },
  ground arith,
  record { across = omega arith; down = omega arith; wide = omega arith; high = omega arith },
)

-- An event moves the pointer and no bound.
pub callback_keeps_limits :
    (event : InputEvent) (mp : MousePos) {mp' : MousePos}
    → test_input_callback event mp ≡ some mp'
    → (mp'.min_x ≡ mp.min_x)
      × (mp'.min_y ≡ mp.min_y)
      × (mp'.max_x ≡ mp.max_x)
      × (mp'.max_y ≡ mp.max_y)
unfolding test_input_callback move
callback_keeps_limits event mp e = ground arith

pub init_mp_limits :
    (min_x min_y max_x max_y : ℤ) {mp : MousePos}
    → init_mp min_x min_y max_x max_y ≡ some mp
    → (mp.min_x ≡ min_x) × (mp.min_y ≡ min_y) × (mp.max_x ≡ max_x) × (mp.max_y ≡ max_y)
unfolding init_mp
init_mp_limits min_x min_y max_x max_y {mp} e = ground arith
