-- ===== src/Program/Input/Tests.antt =====
-- m_buffer_input_show_test.cpp with its input thread, on a screen of 4 by 3 pixels.
use dsui.Prelude.{ℕ, ◌≡◌, refl, Option, none, some, List, [], ◌∷◌, ◌++◌, map, replicate}
use dsui.Prelude.Int.{ℤ, pos, negsuc}
use dsui.InputReader.Kernel.{InputEvent}
use dsui.Mouse.Unsigned
use dsui.Frame.{next_color}
use dsui.MBuffer
use dsui.Screen.Buffers.{create_fb}
use dsui.Screen.{find_connector}
use dsui.Program
use dsui.Program.{Started, stopped, running, main}
use dsui.Program.Machine.{tame, drm, idle}
use dsui.Program.Input.{Turn, of_thread, of_input, Whole, next_event, whole_run, callback_step}

abbrev moved_by : ℕ → ℤ → InputEvent
moved_by code d = record { type = 2; code = code; value = d }

-- The pointer goes from the middle to the left and the top, as three statements for each event.
abbrev to_corner : List Turn
to_corner =
    replicate 3 (of_input (moved_by 0 (negsuc 397)))
    ++ replicate 3 (of_input (moved_by 1 (negsuc 638)))

-- Thread 0 draws while the pointer, moved up by two rows from row 1, stands above the screen; the tests
-- put it at the bottom, out of sight, and a move to the right follows.
abbrev in_between : List Turn
in_between =
    replicate 3 (of_thread 2)
    ++ replicate 6 (of_thread 0)
    ++ of_input (moved_by 1 (negsuc 1)) ∷ replicate 6 (of_thread 0)
    ++ replicate 5 (of_input (moved_by 0 (pos 1)))
    ++ replicate 8 (of_thread 0)
    ++ replicate 6 (of_thread 1)

abbrev from_main : List Turn → Option Started → Option Whole
from_main ts none = none
from_main ts (some (stopped code w)) = none
from_main ts (some (running r)) = whole_run (record { rest = r; input = next_event }) ts

abbrev pixels_shown : Option Whole → List (List ℕ)
pixels_shown none = []
pixels_shown (some w) =
    map (λ s. map s.1 (0 ∷ 1 ∷ 2 ∷ 3 ∷ 4 ∷ 5 ∷ 6 ∷ 7 ∷ 8 ∷ 9 ∷ 10 ∷ 11 ∷ []))
      w.rest.display.world.shown

-- White up to the sixth pixel only.
in_between_shows :
    pixels_shown (from_main (to_corner ++ in_between) (main tame drm idle))
    ≡ (1 ∷ 1 ∷ 0xffff_ffff ∷ 1 ∷ 1 ∷ 1 ∷ 0xffff_ffff ∷ 1 ∷ 1 ∷ 1 ∷ 1 ∷ 1 ∷ []) ∷ []
unfolding main Program.run find_connector MBuffer.step MBuffer.init create_fb next_color whole_run
    callback_step Unsigned.init_mp
in_between_shows = refl
