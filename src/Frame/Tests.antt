-- ===== src/Frame/Tests.antt =====
-- A picture of 40 by 30 pixels with the pointer near its left edge.
use dsui.Prelude.{some, ◌+◌, ◌*◌, ◌≡◌, refl, true, false, ◌&&◌, ◌==◌, leb, if◌then◌else◌, arith}
use dsui.Prelude.Int.{pos}
use dsui.Mouse.Signed.{MousePos}
use dsui.Mouse.Unsigned
use dsui.Frame.{Globals, Pixels, Trend, create_fb, draw_fb, next_color, miw, draw_miw}
use dsui.Frame.Paint.{create_fb_pixel, draw_fb_pixel}

abbrev blank : Pixels
blank k = 7

abbrev small : Globals
small = record {
  width = 40;
  height = 30;
  create_size = 4800;
  create_handle = 1;
  new_fb_id = 1;
  mapped_at = some 65536;
}

abbrev pointer : MousePos
pointer = record {
  x = pos 5;
  y = pos 20;
  max_x = pos 40;
  max_y = pos 30;
  min_x = pos 0;
  min_y = pos 0;
}

abbrev line : Unsigned.MousePos
line = record { x = 5; y = 20; max_x = 40; max_y = 30; min_x = 0; min_y = 0 }

abbrev rising : Trend
rising = record { g_color = 0xef; trend_flag = false }

create_fb_pixel_example : (create_fb small 9 pointer blank).0 (12 * 40 + 15) ≡ (
    if (leb 12 (20 + miw) && leb 20 (12 + miw)) && (leb 15 (5 + miw) && leb 5 (15 + miw))
    then 0
    else 9)
create_fb_pixel_example =
    create_fb_pixel small 9 pointer blank 5 20 12 15 (omega arith) refl refl (omega arith)
      (omega arith) (omega arith)

draw_fb_pixel_example : (draw_fb 40 30 line (rising, blank)).1 (12 * 40 + 5) ≡ (
    if (leb 12 (20 + draw_miw) && leb 20 (12 + draw_miw)) && (5 == 5)
    then 0xffff_ffff
    else (next_color rising).g_color)
draw_fb_pixel_example =
    draw_fb_pixel 40 30 line rising blank 12 5 (omega arith) (omega arith) (omega arith)
      (omega arith)

-- At 0xf0 the colour turns.
turning : next_color rising ≡ record { g_color = 0xf0; trend_flag = true }
unfolding next_color
turning = refl
