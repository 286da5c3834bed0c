-- ===== src/Frame/Color.antt =====
-- The colour of `draw_fb` of m_buffer_input_show_test.cpp over its calls.
use dsui.Prelude.{◌<◌, ◌≤◌, ◌≡◌, true, false, arith}
use dsui.Frame.{Trend, next_color}

-- Going up the colour is below 0xf0, going down it is above 10 and at most 0xf0.
pub record InTrend (t : Trend) : Type 0 where
  pub up : t.trend_flag ≡ false → t.g_color < 0xf0
  pub down : t.trend_flag ≡ true → (10 < t.g_color) × (t.g_color ≤ 0xf0)

pub next_color-InTrend : (t : Trend) → InTrend t → InTrend (next_color t)
unfolding next_color
next_color-InTrend t inv = record {
  up = λ e. ground (arith, inv.up, inv.down);
  down = λ e. ground (arith, inv.up, inv.down);
}

pub InTrend-color : (t : Trend) → InTrend t → t.g_color ≤ 0xf0
InTrend-color t inv = ground (arith, inv.up, inv.down)
