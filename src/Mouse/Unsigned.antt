-- ===== src/Mouse/Unsigned.antt =====
-- The mouse of src/examples/input_show/m_buffer_input_show_test.cpp, on `uint32_t` coordinates.
use dsui.Prelude.{ℕ, ◌+◌, ◌-◌, ◌/◌, ◌%◌, ◌^◌, ◌<◌, ◌≤◌, ◌≡◌, ◌↔◌, ◌==◌, leb, if◌then◌else◌, arith}
use dsui.Prelude.Int.{ℤ, pos, negsuc}
use dsui.InputReader.Kernel.{InputEvent}

pub record MousePos : Type 0 where
  pub x : ℕ
  pub y : ℕ
  pub max_x : ℕ
  pub max_y : ℕ
  pub min_x : ℕ
  pub min_y : ℕ

-- The globals `g_mp` and `g_last_mp`.
pub record Mouse : Type 0 where
  pub g_mp : MousePos
  pub g_last_mp : MousePos

-- EV_REL, REL_X and REL_Y of linux/input-event-codes.h.
abbrev pub ev_rel : ℕ
ev_rel = 2

abbrev pub rel_x : ℕ
rel_x = 0

abbrev pub rel_y : ℕ
rel_y = 1

-- An `int32_t` as a `uint32_t`.
abbrev pub uint32 : ℤ → ℕ
uint32 (pos n) = n % 2 ^ 32
uint32 (negsuc n) = 2 ^ 32 - 1 - n % 2 ^ 32

-- The two tests after a move.
abbrev pub clamp : ℕ → ℕ → ℕ → ℕ
clamp lo hi v = let up = if leb v lo then lo else v in if leb hi up then hi else up

unfoldable pub move : ℕ → ℤ → ℕ → ℕ → ℕ
move v d lo hi = clamp lo hi ((v + uint32 d) % 2 ^ 32)

unfoldable pub test_input_callback : InputEvent → MousePos → MousePos
unfolding move
test_input_callback event mp =
    if event.type == ev_rel
    then (if event.code == rel_x
        then record mp { x = move mp.x event.value mp.min_x mp.max_x }
        else (if event.code == rel_y
            then record mp { y = move mp.y event.value mp.min_y mp.max_y }
            else mp))
    else mp

-- One field of `update_last_mp`: its new last value, and `ret` after it.
abbrev pub follow : ℕ → ℕ → ℕ → ℕ × ℕ
follow last now ret = if last == now then (last, ret) else (now, 1)

-- What `update_last_mp` returns, and the new `g_last_mp`.
unfoldable pub update_last_mp : Mouse → ℕ × Mouse
update_last_mp m =
    let (a, r1) = follow m.g_last_mp.min_x m.g_mp.min_x 0 in
    let (b, r2) = follow m.g_last_mp.max_x m.g_mp.max_x r1 in
    let (c, r3) = follow m.g_last_mp.min_y m.g_mp.min_y r2 in
    let (d, r4) = follow m.g_last_mp.max_y m.g_mp.max_y r3 in
    let (e, r5) = follow m.g_last_mp.x m.g_mp.x r4 in
    let (f, r6) = follow m.g_last_mp.y m.g_mp.y r5 in
    (
      r6,
      record m { g_last_mp = record { x = e; y = f; max_x = b; max_y = d; min_x = a; min_y = c } },
    )

-- `init_mp`, for bounds that are not negative and whose sum is an `int32_t`.
unfoldable pub init_mp : ℕ → ℕ → ℕ → ℕ → Mouse → Mouse
unfolding update_last_mp
init_mp min_x min_y max_x max_y m =
    (update_last_mp (record m {
      g_mp = record {
        x = (max_x + min_x) / 2;
        y = (max_y + min_y) / 2;
        max_x = max_x;
        max_y = max_y;
        min_x = min_x;
        min_y = min_y;
      };
    })).1

-- The pointer is within its bounds.
pub record InBounds (mp : MousePos) : Type 0 where
  pub left : mp.min_x ≤ mp.x
  pub right : mp.x ≤ mp.max_x
  pub top : mp.min_y ≤ mp.y
  pub bottom : mp.y ≤ mp.max_y

-- init_mp puts the pointer within its bounds and copies them: g_last_mp equals g_mp after it.
pub init_mp_within_bounds :
    (min_x min_y max_x max_y : ℕ) (m : Mouse)
    → min_x ≤ max_x
    → min_y ≤ max_y
    → InBounds (init_mp min_x min_y max_x max_y m).g_mp
      × ((init_mp min_x min_y max_x max_y m).g_last_mp ≡ (init_mp min_x min_y max_x max_y m).g_mp)
unfolding init_mp
init_mp_within_bounds min_x min_y max_x max_y m h k = (
  record { left = omega arith; right = omega arith; top = omega arith; bottom = omega arith },
  ground arith,
)

-- update_last_mp makes g_last_mp equal to g_mp, leaves g_mp, and returns 0 exactly if they were equal.
update_last_mp_lem :
    (m : Mouse)
    → ((update_last_mp m).1 ≡ record { g_mp = m.g_mp; g_last_mp = m.g_mp })
      × (((update_last_mp m).0 ≡ 0) ↔ (m.g_last_mp ≡ m.g_mp))
unfolding update_last_mp
update_last_mp_lem m = (ground arith, ((λ e. ground arith), (λ e. ground arith)))

-- A move to the right, from within the bounds and without overflow, is exact or stops at the right
-- bound.
pub move_right :
    (v d lo hi : ℕ)
    → lo ≤ v
    → v ≤ hi
    → v + d < 2 ^ 32
    → move v (pos d) lo hi ≡ (if leb (v + d) hi then v + d else hi)
unfolding move
move_right v d lo hi a b small = ground arith

-- A move by d + 1 to the left, from within bounds below 2^31, is exact or stops at the left bound if
-- d is below the coordinate, and otherwise goes to the right bound.
pub move_left :
    (v d lo hi : ℕ)
    → lo ≤ v
    → v ≤ hi
    → hi < 2 ^ 31
    → d < 2 ^ 31
    → move v (negsuc d) lo hi
      ≡ (if leb v d then hi else (if leb (v - (d + 1)) lo then lo else v - (d + 1)))
unfolding move
move_left v d lo hi a b small e = ground arith
