-- ===== src/Frame/Paint.antt =====
-- The pixels that the two loops of `create_fb` and `draw_fb` write.
use native.Mathlib.Decide.{ℕ_discrete}
use dsui.Prelude.{
  Bool, ℕ, zero, suc, ◌+◌, ◌*◌, ◌%◌, ◌^◌, ◌<◌, ◌≤◌, ◌≡◌, ◌⊎◌, inl, inr, ◌↔◌, refl, true, arith,
  update, leb, if◌then◌else◌, ◌&&◌, ◌==◌,
}
use dsui.Prelude.Int.{ℤ, pos, negsuc}
use dsui.Mouse.Unsigned.{uint32}
use dsui.Mouse.Signed.{MousePos}
use dsui.Mouse.Midway.{IsPlace}
use dsui.Mouse.Unsigned
use dsui.Frame.{
  create_fb_seen, Globals, Pixels, paint_row, paint_rows, create_fb, draw_fb, Trend, next_color,
  pointer_pixel, line_pixel, abs_diff, miw, draw_miw,
}

module _ (width : ℕ) (pixel : ℕ → ℕ → ℕ) where
  paint_row_outside :
      (h w count : ℕ) (vaddr : Pixels) (k : ℕ)
      → h * width + w + count ≤ 2 ^ 32
      → (k < h * width + w) ⊎ (h * width + w + count ≤ k)
      → paint_row width pixel h w count vaddr k ≡ vaddr k
  unfolding paint_row
  paint_row_outside h w zero vaddr k fits out = refl
  paint_row_outside h w (suc count) vaddr k fits out = ground (
    arith,
    paint_row_outside h (w + 1) count (update vaddr ((h * width + w) % 2 ^ 32) (pixel h w)) k
        (omega (arith, fits)) (omega (arith, out)),
  )

  paint_row_inside :
      (h w count : ℕ) (vaddr : Pixels) (x : ℕ)
      → h * width + w + count ≤ 2 ^ 32
      → w ≤ x
      → x < w + count
      → paint_row width pixel h w count vaddr (h * width + x) ≡ pixel h x
  unfolding paint_row
  paint_row_inside h w zero vaddr x fits ge lt = absurd (omega arith)
  paint_row_inside h w (suc count) vaddr x fits ge lt = elim (ℕ_discrete x w) [
    | yes here ↦ ground (
      arith,
      paint_row_outside h (w + 1) count (update vaddr ((h * width + w) % 2 ^ 32) (pixel h w))
          (h * width + w) (omega (arith, fits)) (omega arith),
    )
    | no later ↦ ground (
      arith,
      paint_row_inside h (w + 1) count (update vaddr ((h * width + w) % 2 ^ 32) (pixel h w)) x
          (omega (arith, fits)) (omega (arith, ge, later)) (omega (arith, lt)),
    )
  ]

  pub paint_rows_outside :
      (h count : ℕ) (vaddr : Pixels) (k : ℕ)
      → (h + count) * width ≤ 2 ^ 32
      → (k < h * width) ⊎ ((h + count) * width ≤ k)
      → paint_rows width pixel h count vaddr k ≡ vaddr k
  unfolding paint_rows
  paint_rows_outside h zero vaddr k fits out = refl
  paint_rows_outside h (suc count) vaddr k fits out =
      let later =
        paint_rows_outside (h + 1) count (paint_row width pixel h 0 width vaddr) k
          (omega (arith, fits)) (omega (arith, out)) in
      let row = paint_row_outside h 0 width vaddr k (omega (arith, fits)) (omega (arith, out)) in cc

  pub paint_rows_inside :
      (h count : ℕ) (vaddr : Pixels) (y x : ℕ)
      → (h + count) * width ≤ 2 ^ 32
      → h ≤ y
      → y < h + count
      → x < width
      → paint_rows width pixel h count vaddr (y * width + x) ≡ pixel y x
  unfolding paint_rows
  paint_rows_inside h zero vaddr y x fits ge lt_y lt_x = absurd (omega arith)
  paint_rows_inside h (suc count) vaddr y x fits ge lt_y lt_x = elim (ℕ_discrete y h) [
    | yes here ↦
        let later =
          paint_rows_outside (h + 1) count (paint_row width pixel h 0 width vaddr) (h * width + x)
            (omega (arith, fits)) (inl (omega (arith, lt_x))) in
        let row =
          paint_row_inside h 0 width vaddr x (omega (arith, fits)) (omega arith)
            (omega (arith, lt_x)) in
        cc
    | no below ↦
        paint_rows_inside (h + 1) count (paint_row width pixel h 0 width vaddr) y x
          (omega (arith, fits)) (omega (arith, ge, below)) (omega (arith, lt_y)) lt_x
  ]

-- `abs_diff` is the distance of two numbers below 2^31.
pub abs_diff_lem :
    (a b n : ℕ)
    → a < 2 ^ 31
    → b < 2 ^ 31
    → (leb (abs_diff a b) n ≡ true) ↔ ((a ≤ b + n) × (b ≤ a + n))
abs_diff_lem a b n lt_a lt_b = ((λ e. ground arith), (λ e. ground arith))

-- On a picture of at most 2^32 pixels, with the pointer not negative and below 2^31 and the width
-- and the height at most 2^31, create_fb makes the pixel in row `y` and column `x` black within MIW of the pointer in both
-- directions, and gives it the colour elsewhere.
pub create_fb_pixel :
    (g : Globals) (color : ℕ) (mp : MousePos) (vaddr : Pixels) (px py y x : ℕ)
    → g.height * g.width ≤ 2 ^ 32
    → mp.x ≡ pos px
    → mp.y ≡ pos py
    → (px < 2 ^ 31) × (py < 2 ^ 31) × (g.width ≤ 2 ^ 31) × (g.height ≤ 2 ^ 31)
    → y < g.height
    → x < g.width
    → (create_fb g color mp vaddr).0 (y * g.width + x) ≡ (
        if (leb y (py + miw) && leb py (y + miw)) && (leb x (px + miw) && leb px (x + miw))
        then 0
        else color)
unfolding create_fb create_fb_seen
create_fb_pixel g color mp vaddr px py y x fits at_x at_y small lt_y lt_x =
    let painted =
      paint_rows_inside g.width (pointer_pixel mp color) 0 g.height vaddr y x (omega (arith, fits))
        (omega arith) (omega (arith, lt_y)) lt_x in
    let across = abs_diff_lem x px miw (omega (arith, small)) (omega (arith, small)) in
    let down = abs_diff_lem y py miw (omega (arith, small)) (omega (arith, small)) in
    ground (arith, painted, across, down, at_x, at_y, small)

-- Whether a row or a column is within MIW of the pointer's.
abbrev pub near : ℕ → ℤ → Bool
near y (pos p) = leb y (p + miw) && leb p (y + miw)
near y (negsuc n) = leb (y + n + 1) miw

near_lem : (y : ℕ) (v : ℤ) → y < 2 ^ 16 → IsPlace v → leb (abs_diff y (uint32 v)) miw ≡ near y v
near_lem y (pos p) lt place = ground arith
near_lem y (negsuc n) lt place = ground arith

-- A pixel of `create_fb` while the pointer moves.
pub create_fb_seen_pixel :
    (g : Globals) (color : ℕ) (seen : ℕ → ℕ → MousePos) (vaddr : Pixels) (y x : ℕ)
    → g.height * g.width ≤ 2 ^ 32
    → (y < 2 ^ 16) × (x < 2 ^ 16)
    → IsPlace (seen y x).y × IsPlace (seen y x).x
    → y < g.height
    → x < g.width
    → (create_fb_seen g color seen vaddr).0 (y * g.width + x)
      ≡ (if near y (seen y x).y && near x (seen y x).x then 0 else color)
unfolding create_fb_seen
create_fb_seen_pixel g color seen vaddr y x fits small place lt_y lt_x =
    let painted =
      paint_rows_inside g.width (λ h w. pointer_pixel (seen h w) color h w) 0 g.height vaddr y x
        (omega (arith, fits)) (omega arith) (omega (arith, lt_y)) lt_x in
    let down = near_lem y (seen y x).y small.0 place.0 in
    let across = near_lem x (seen y x).x small.1 place.1 in rw (painted, down, across) refl

-- create_fb writes nothing behind the last row of a picture of at most 2^32 pixels.
pub create_fb_outside :
    (g : Globals) (color : ℕ) (mp : MousePos) (vaddr : Pixels) (k : ℕ)
    → g.height * g.width ≤ 2 ^ 32
    → g.height * g.width ≤ k
    → (create_fb g color mp vaddr).0 k ≡ vaddr k
unfolding create_fb create_fb_seen
create_fb_outside g color mp vaddr k fits behind =
    paint_rows_outside g.width (pointer_pixel mp color) 0 g.height vaddr k (omega (arith, fits))
      (inr (omega (arith, behind)))

-- On a picture of at most 2^32 pixels, with the pointer's row below 2^31 and the height at most
-- 2^31, draw_fb makes
-- the pixel in row `y` and column `x` white in the column of the pointer within MIW rows of it, and
-- gives it the new colour elsewhere.
pub draw_fb_pixel :
    (width height : ℕ) (mp : Unsigned.MousePos) (t : Trend) (vaddr : Pixels) (y x : ℕ)
    → height * width ≤ 2 ^ 32
    → (mp.y < 2 ^ 31) × (height ≤ 2 ^ 31)
    → y < height
    → x < width
    → (draw_fb width height mp (t, vaddr)).1 (y * width + x) ≡ (
        if (leb y (mp.y + draw_miw) && leb mp.y (y + draw_miw)) && (x == mp.x)
        then 0xffff_ffff
        else (next_color t).g_color)
unfolding draw_fb
draw_fb_pixel width height mp t vaddr y x fits small lt_y lt_x =
    let painted =
      paint_rows_inside width (line_pixel mp (next_color t).g_color) 0 height vaddr y x
        (omega (arith, fits)) (omega arith) (omega (arith, lt_y)) lt_x in
    let down = abs_diff_lem y mp.y draw_miw (omega (arith, small)) (omega (arith, small)) in
    ground (arith, painted, down, small)
