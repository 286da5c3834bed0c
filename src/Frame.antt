-- ===== src/Frame.antt =====
-- The pictures of src/examples/input_show: `create_fb` of input_show.c and `draw_fb` of
-- m_buffer_input_show_test.cpp write every pixel of a frame buffer, with the mouse pointer in it.
pub mod Paint
pub mod Color
mod Tests
use dsui.Prelude.{
  Option, ℕ, zero, suc, ◌+◌, ◌-◌, ◌*◌, ◌%◌, ◌^◌, Bool, true, false, ◌&&◌, ◌==◌, ltb, leb,
  if◌then◌else◌, update,
}
use dsui.Prelude.Int.{ℤ, pos, negsuc}
use dsui.Mouse.Unsigned.{uint32}
use dsui.Mouse.Signed.{MousePos}
use dsui.Mouse.Unsigned

-- `abs` of a difference of two `uint32_t`, read as an `int`.
abbrev pub abs_diff : ℕ → ℕ → ℕ
abs_diff a b = let d = (a + 2 ^ 32 - b) % 2 ^ 32 in if ltb d (2 ^ 31) then d else 2 ^ 32 - d

-- The memory that `vaddr` points to, by the index of the pixel.
abbrev pub Pixels : Type 0
Pixels = ℕ → ℕ

module _ (width : ℕ) (pixel : ℕ → ℕ → ℕ) where
  -- The inner loop in row `h` from column `w` on, `count` rounds.
  unfoldable pub paint_row : ℕ → ℕ → ℕ → Pixels → Pixels
  paint_row h w zero vaddr = vaddr
  paint_row h w (suc count) vaddr =
      paint_row h (w + 1) count (update vaddr ((h * width + w) % 2 ^ 32) (pixel h w))

  -- The outer loop from row `h` on, `count` rounds.
  unfoldable pub paint_rows : ℕ → ℕ → Pixels → Pixels
  unfolding paint_row
  paint_rows h zero vaddr = vaddr
  paint_rows h (suc count) vaddr = paint_rows (h + 1) count (paint_row h 0 width vaddr)

-- MIW of input_show.c, and the pixel that `create_fb` writes.
abbrev pub miw : ℕ
miw = 10

abbrev pub pointer_pixel : MousePos → ℕ → ℕ → ℕ → ℕ
pointer_pixel g_mp color h w =
    if leb (abs_diff h (uint32 g_mp.y)) miw && leb (abs_diff w (uint32 g_mp.x)) miw
    then 0
    else color

-- `struct framebuffer` of input_show.c, and its globals `create`, `fb_id` and `vaddr`, with what
-- `create_fb` uses of them.
pub record Framebuffer : Type 0 where
  pub size : ℕ
  pub handle : ℕ
  pub fb_id : ℕ
  pub vaddr : Option ℕ

pub record Globals : Type 0 where
  pub width : ℕ
  pub height : ℕ
  pub create_size : ℕ
  pub create_handle : ℕ
  pub new_fb_id : ℕ
  pub mapped_at : Option ℕ

-- `create_fb` of input_show.c, with the place where the pointer is at each row and column, which the input
-- thread moves meanwhile: the pixels and `*buf` after it. It takes the width and the height from
-- `create`, not from its arguments.
unfoldable pub create_fb_seen : Globals → ℕ → (ℕ → ℕ → MousePos) → Pixels → Pixels × Framebuffer
unfolding paint_rows
create_fb_seen g color seen vaddr = (
  paint_rows g.width (λ h w. pointer_pixel (seen h w) color h w) 0 g.height vaddr,
  record {
    size = g.create_size;
    handle = g.create_handle;
    fb_id = g.new_fb_id;
    vaddr = g.mapped_at;
  },
)

-- The same with a pointer that stands still.
unfoldable pub create_fb : Globals → ℕ → MousePos → Pixels → Pixels × Framebuffer
unfolding create_fb_seen
create_fb g color g_mp vaddr = create_fb_seen g color (λ h w. g_mp) vaddr

-- `g_color` and `trend_flag`, and how `draw_fb` changes them.
pub record Trend : Type 0 where
  pub g_color : ℕ
  pub trend_flag : Bool

unfoldable pub next_color : Trend → Trend
next_color t =
    let up = (t.g_color + 1) % 2 ^ 32 in
    let down = (t.g_color + 2 ^ 32 - 1) % 2 ^ 32 in
    if t.trend_flag
    then record { g_color = down; trend_flag = if leb down 10 then false else true }
    else record { g_color = up; trend_flag = if leb 0xf0 up then true else false }

-- MIW of m_buffer_input_show_test.cpp, and the pixel that `draw_fb` writes.
abbrev pub draw_miw : ℕ
draw_miw = 20

abbrev pub line_pixel : Unsigned.MousePos → ℕ → ℕ → ℕ → ℕ
line_pixel g_mp color h w =
    if leb (abs_diff h g_mp.y) draw_miw && (w == g_mp.x) then 0xffff_ffff else color

-- `draw_fb` of m_buffer_input_show_test.cpp.
unfoldable pub draw_fb : ℕ → ℕ → Unsigned.MousePos → Trend × Pixels → Trend × Pixels
unfolding next_color paint_rows
draw_fb width height g_mp (t, vaddr) =
    (next_color t, paint_rows width (line_pixel g_mp (next_color t).g_color) 0 height vaddr)
