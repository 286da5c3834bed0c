-- ===== src/Program/Input/Pictures.antt =====
-- The pictures that m_buffer_input_show_test.cpp shows while its input thread moves the mouse.
use dsui.Mouse.Unsigned
use dsui.MBuffer
use dsui.Screen.Drm.{Drm}
use dsui.Program.{zero_pos}

-- The pointer after the call of `init_mp` in `main`.
abbrev pub start_pos : Unsigned.MousePos
start_pos = (Unsigned.init_mp 0 0 800 1280 (record { g_mp = zero_pos; g_last_mp = zero_pos })).g_mp
