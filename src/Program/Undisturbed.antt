-- ===== src/Program/Undisturbed.antt =====
-- A draw of `draw_fb` of m_buffer_input_show_test.cpp that is made pixel by pixel while the mouse stands
-- still.
use dsui.Frame.Paint.{paint_rows_outside, paint_rows_inside}
use dsui.Frame.Color.{next_color-InTrend, InTrend}
use dsui.Program.Picture.{pixel_fits, few_pixels, line_pixel_lem, line_value, IsRow}
use mathlib.Core.Path.{ap₂}
use dsui.Prelude.{
  inr, ◌⊎◌, ◌≤◌, ◌<◌, ℕ, zero, suc, ◌+◌, ◌*◌, ◌%◌, ◌^◌, ◌≡◌, refl, ◌∙◌, sym, ap, false, Option,
  none, some, arith, ◌==◌, update,
}
use dsui.Frame.{Pixels, Trend, paint_row, paint_rows, line_pixel, next_color}
use dsui.Screen.Buffers.{Framebuffer}
use dsui.Program.{Display, ◌>>=◌, at_pixel, start_draw, draw_pixel}

-- The pixels from `at` on, at most `count` of them; `none` if there are more.
pub draw_on : ℕ → Framebuffer → Option (ℕ × ℕ) → Display → Option Display
draw_on count b none d = some d
draw_on zero b (some hw) d = none
draw_on (suc count) b (some hw) d = do (d', at) ← draw_pixel b hw d; draw_on count b at d'

pub draw_whole : Framebuffer → Display → Option Display
draw_whole b d = do (d', at) ← start_draw b d; draw_on (b.height * b.width) b at d'

-- What differs between two moments of a draw: the pixels in the memory at `a`.
pub record Leaves (a : ℕ) (pixels : Pixels) (d d' : Display) : Type 0 where
  pub memory : d'.world.video a ≡ pixels
  pub elsewhere : (k : ℕ) → (k == a) ≡ false → d'.world.video k ≡ d.world.video k
  pub same_mouse : d'.g_mp ≡ d.g_mp
  pub same_trend : d'.trend ≡ d.trend

-- What has been left after one pixel and then after the others.
Leaves-trans :
    {a : ℕ} {p q : Pixels} {d d' d'' : Display}
    → Leaves a p d d'
    → Leaves a q d' d''
    → Leaves a q d d''
Leaves-trans first later = record {
  memory = later.memory;
  elsewhere = λ k ne. later.elsewhere k ne ∙ first.elsewhere k ne;
  same_mouse = later.same_mouse ∙ first.same_mouse;
  same_trend = later.same_trend ∙ first.same_trend;
}

Leaves-eq : {a : ℕ} {p q : Pixels} {d d' : Display} → p ≡ q → Leaves a p d d' → Leaves a q d d'
Leaves-eq same left = record {
  memory = left.memory ∙ same;
  elsewhere = left.elsewhere;
  same_mouse = left.same_mouse;
  same_trend = left.same_trend;
}

module _ (b : Framebuffer) {a : ℕ} (at_a : b.vaddr ≡ some a)
    (small : (b.width < 2 ^ 16) × (b.height < 2 ^ 16))
    (room : 4 * (b.height * b.width) ≤ b.size) where
  abbrev with_pixel : ℕ → ℕ → Display → Display
  with_pixel h w d = record d {
    world = record d.world {
      video = update d.world.video a (
          update (d.world.video a) ((h * b.width + w) % 2 ^ 32)
            (line_pixel d.g_mp d.trend.g_color h w));
    };
  }

  draw_pixel_lem :
      (h w : ℕ) (d : Display)
      → h < b.height
      → w < b.width
      → draw_pixel b (h, w) d ≡ some (with_pixel h w d, at_pixel b.width b.height h (w + 1))
  draw_pixel_lem h w d lt_h lt_w =
      let fits = pixel_fits (λ mp. Unit) b.width b.height small h w b.size room lt_h lt_w in
      rw (at_a, fits) refl

  with_pixel-Leaves :
      (h w : ℕ) (d : Display)
      → Leaves a
          (update
            (d.world.video a)
            ((h * b.width + w) % 2 ^ 32)
            (line_pixel d.g_mp d.trend.g_color h w))
          d
          (with_pixel h w d)
  with_pixel-Leaves h w d = record {
    memory = ground arith;
    elsewhere = λ k ne. ground (arith, ne);
    same_mouse = refl;
    same_trend = refl;
  }

  draw_on_lem :
      (rows columns count h w : ℕ) (d : Display)
      → b.height ≡ h + 1 + rows
      → b.width ≡ w + 1 + columns
      → count ≡ rows * b.width + columns + 1
      → (d' : Display) × (draw_on count b (some (h, w)) d ≡ some d')
        × Leaves a
            (paint_rows b.width (line_pixel d.g_mp d.trend.g_color) (h + 1) rows (
              paint_row b.width
                (line_pixel d.g_mp d.trend.g_color)
                h
                w
                (suc columns)
                (d.world.video a)))
            d
            d'
  unfolding draw_on paint_rows paint_row
  draw_on_lem rows columns zero h w d high wide enough = absurd (omega (arith, enough))
  draw_on_lem zero zero (suc count) h w d high wide enough =
      let ended : at_pixel b.width b.height h (w + 1) ≡ none = ground (arith, high, wide) in
      (
        with_pixel h w d,
        rw (draw_pixel_lem h w d (omega (arith, high)) (omega (arith, wide)), ended, ◌>>=◌) refl,
        with_pixel-Leaves h w d,
      )
  draw_on_lem (suc rows) zero (suc count) h w d high wide enough =
      let next : at_pixel b.width b.height h (w + 1) ≡ some (h + 1, 0) =
        ground (arith, high, wide) in
      let (d', e, later) =
        draw_on_lem rows w count (h + 1) 0 (with_pixel h w d) (omega (arith, high))
          (omega (arith, wide)) (omega (arith, enough, wide)) in
      let pixel = line_pixel d.g_mp d.trend.g_color in
      let full : suc w ≡ b.width = omega (arith, wide) in
      let same =
        ap₂
          (λ (n : ℕ) (v : Pixels).
            paint_rows b.width pixel (h + 1 + 1) rows (paint_row b.width pixel (h + 1) 0 n v))
          full (with_pixel-Leaves h w d).memory in
      (
        d',
        rw (draw_pixel_lem h w d (omega (arith, high)) (omega (arith, wide)), next, ◌>>=◌) e,
        Leaves-trans (with_pixel-Leaves h w d) (Leaves-eq same later),
      )
  draw_on_lem rows (suc columns) (suc count) h w d high wide enough =
      let next : at_pixel b.width b.height h (w + 1) ≡ some (h, w + 1) =
        ground (arith, high, wide) in
      let (d', e, later) =
        draw_on_lem rows columns count h (w + 1) (with_pixel h w d) (omega (arith, high))
          (omega (arith, wide)) (omega (arith, enough)) in
      let pixel = line_pixel d.g_mp d.trend.g_color in
      let same =
        ap
          (λ (v : Pixels).
            paint_rows b.width pixel (h + 1) rows
              (paint_row b.width pixel h (w + 1) (suc columns) v))
          (with_pixel-Leaves h w d).memory in
      (
        d',
        rw (draw_pixel_lem h w d (omega (arith, high)) (omega (arith, wide)), next, ◌>>=◌) e,
        Leaves-trans (with_pixel-Leaves h w d) (Leaves-eq same later),
      )

paint_rows_of_no_width :
    (pixel : ℕ → ℕ → ℕ) (h rows : ℕ) (v : Pixels) → paint_rows 0 pixel h rows v ≡ v
unfolding paint_rows paint_row
paint_rows_of_no_width pixel h zero v = refl
paint_rows_of_no_width pixel h (suc rows) v = paint_rows_of_no_width pixel (h + 1) rows v

no_pixel : (rows : ℕ) → at_pixel 0 (suc rows) 0 0 ≡ none
no_pixel rows = ground arith

first_pixel : (rows columns : ℕ) → at_pixel (suc columns) (suc rows) 0 0 ≡ some (0, 0)
first_pixel rows columns = ground arith

-- The same by the size of the frame buffer.
whole_of_size :
    (b : Framebuffer) (a height width : ℕ) (d : Display)
    → b.vaddr ≡ some a
    → b.height ≡ height
    → b.width ≡ width
    → (b.width < 2 ^ 16) × (b.height < 2 ^ 16)
    → 4 * (b.height * b.width) ≤ b.size
    → (d' : Display) × (draw_on (height * width) b (at_pixel width height 0 0) d ≡ some d')
      × Leaves a
          (paint_rows width (line_pixel d.g_mp d.trend.g_color) 0 height (d.world.video a))
          d
          d'
unfolding draw_on paint_rows paint_row
whole_of_size b a zero width d at_a high wide small room = (
  d,
  refl,
  record { memory = refl; elsewhere = λ k ne. refl; same_mouse = refl; same_trend = refl },
)
whole_of_size b a (suc rows) zero d at_a high wide small room = (
  d,
  rw (no_pixel rows) refl,
  record {
    memory =
        sym (
          paint_rows_of_no_width (line_pixel d.g_mp d.trend.g_color) 0 (suc rows)
            (d.world.video a));
    elsewhere = λ k ne. refl;
    same_mouse = refl;
    same_trend = refl;
  },
)
whole_of_size b a (suc rows) (suc columns) d at_a high wide small room =
    let pixel = line_pixel d.g_mp d.trend.g_color in
    let count = suc rows * suc columns in
    let (d', e, left) =
      draw_on_lem b at_a small room rows columns count 0 0 d (omega (arith, high))
        (omega (arith, wide)) (rw wide (omega arith)) in
    (
      d',
      rw (first_pixel rows columns) e,
      Leaves-eq
          (ap
            (λ (n : ℕ).
              paint_rows n pixel (0 + 1) rows
                (paint_row n pixel 0 0 (suc columns) (d.world.video a)))
            wide)
          left,
    )

next_color-by_one :
    (t : Trend)
    → InTrend t
    → ((next_color t).g_color ≡ t.g_color + 1) ⊎ (t.g_color ≡ (next_color t).g_color + 1)
unfolding next_color
next_color-by_one t inv = ground (arith, inv.up, inv.down)

-- If the mouse stands still, in a row whose distances to those of the picture are an `int`, the draw
-- of a frame buffer with less than 2^16 columns and rows that is mapped with room for four bytes a
-- pixel, pixel by pixel as the threads of m_buffer_input_show_test.cpp make it, comes to its end, with
-- no write outside the mapping. The colour has changed by one and is at most 0xf0, below 0xf0 on its
-- way up and above 10 on its way down, if it was so before; each pixel is white in the column of the
-- pointer within MIW rows of it, and has the new colour elsewhere; and no memory but that of the
-- pixels has changed.
pub draw_whole_pixel :
    (b : Framebuffer) (a : ℕ) (d : Display)
    → b.vaddr ≡ some a
    → (b.width < 2 ^ 16) × (b.height < 2 ^ 16)
    → 4 * (b.height * b.width) ≤ b.size
    → IsRow d.g_mp.y
    → InTrend d.trend
    → (d' : Display) × (draw_whole b d ≡ some d')
      × ((d'.trend.g_color ≡ d.trend.g_color + 1) ⊎ (d.trend.g_color ≡ d'.trend.g_color + 1))
      × InTrend d'.trend
      × ((y x : ℕ)
          → y < b.height
          → x < b.width
          → d'.world.video a (y * b.width + x) ≡ line_value d.g_mp d'.trend.g_color y x)
      × ((k : ℕ) → b.height * b.width ≤ k → d'.world.video a k ≡ d.world.video a k)
      × ((k : ℕ) → (k == a) ≡ false → d'.world.video k ≡ d.world.video k)
unfolding draw_whole
draw_whole_pixel b a d at_a small room low trend =
    let (d', e, left) =
      whole_of_size b a b.height b.width (record d { trend = next_color d.trend }) at_a refl refl
        small room in
    let pixel = line_pixel d.g_mp (next_color d.trend).g_color in
    let fits : (0 + b.height) * b.width ≤ 2 ^ 32 =
      omega (arith, few_pixels (λ mp. Unit) b.width b.height small) in
    let bounded : InTrend d'.trend = rw left.same_trend (next_color-InTrend d.trend trend) in
    (
      d',
      e,
      rw left.same_trend (next_color-by_one d.trend trend),
      bounded,
      (λ y x lt_y lt_x.
          rw (left.same_trend, left.memory)
            (paint_rows_inside b.width pixel 0 b.height (d.world.video a) y x fits (omega arith)
                (omega (arith, lt_y)) lt_x
              ∙ line_pixel_lem (λ mp. Unit) b.width b.height small d.g_mp
                  (next_color d.trend).g_color y x lt_y low)),
      (λ k behind. rw left.memory (
          paint_rows_outside b.width pixel 0 b.height (d.world.video a) k fits
            (inr (omega (arith, behind))))),
      left.elsewhere,
    )
