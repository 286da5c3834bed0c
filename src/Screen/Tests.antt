-- ===== src/Screen/Tests.antt =====
-- The screen with two connectors of which one has no mode, and one frame buffer.
use dsui.Prelude.{
  inl, inr, Bool-cases, ltb, if◌then◌else◌, arith, List, ℕ, ◌+◌, ◌*◌, length, ◌≡◌, refl, some, [],
  ◌∷◌,
}
use dsui.Prelude.Int.{pos, negsuc}
use dsui.Screen.Drm.{
  connected, subpixel_unknown, mmap, Calls, World, Drm, DrmModeModeInfo, DrmModeConnector,
  DrmModeRes,
}
use dsui.Screen.{undefined, ready, find_screen, find_connector}
use dsui.Log.{bytes, dslog, digits, default_level}
use dsui.InputReader.Kernel.{added}
use dsui.Screen.Show.{dslog_tag, test_event_callback, Ui, start_ui, running, ui_loop, Seen}
use dsui.Screen.Show.Pointer.{ShowsPointer}
use dsui.Mouse.Signed.{init_mp}
use dsui.Mouse.Driven.{mouse_after}
use dsui.Mouse.Midway.{Reached}
use dsui.InputReader.Kernel.{InputEvent}
use dsui.Prelude.Int.{◌+ℤ◌}
use dsui.Screen.Show.Loop.{pointer_on_screen}

abbrev mode : DrmModeModeInfo
mode = record {
  clock = 0;
  hdisplay = 800;
  hsync_start = 0;
  hsync_end = 0;
  htotal = 0;
  hskew = 0;
  vdisplay = 1280;
  vsync_start = 0;
  vsync_end = 0;
  vtotal = 0;
  vscan = 0;
  vrefresh = 60;
  flags = 0;
  type = 0;
  name = [];
}

abbrev panel : DrmModeConnector
panel = record {
  connector_id = 21;
  encoder_id = 0;
  connector_type = 0;
  connector_type_id = 0;
  connection = connected;
  mm_width = 0;
  mm_height = 0;
  subpixel = subpixel_unknown;
  count_modes = 1;
  modes = mode ∷ [];
  count_props = 0;
  props = [];
  prop_values = [];
  count_encoders = 0;
  encoders = [];
}

abbrev resources : ℕ → List ℕ → List ℕ → DrmModeRes
resources count crtcs connectors = record {
  count_fbs = 0;
  fbs = [];
  count_crtcs = count;
  crtcs = crtcs;
  count_connectors = count;
  connectors = connectors;
  count_encoders = 0;
  encoders = [];
  min_width = 0;
  max_width = 4096;
  min_height = 0;
  max_height = 4096;
}

abbrev two : DrmModeRes
two = resources 2 (10 ∷ 11 ∷ []) (20 ∷ 21 ∷ [])

abbrev one : DrmModeRes
one = resources 1 (10 ∷ []) (20 ∷ [])

two_is_ready : find_screen (λ i id. some panel) (some two) ≡ ready 11 21 panel
unfolding find_screen find_connector
two_is_ready = refl

one_is_undefined : find_screen (λ i id. some panel) (some one) ≡ undefined
unfolding find_screen find_connector
one_is_undefined = refl

-- A number above the addresses mapped so far.
abbrev next_free : Calls → ℕ
next_free [] = 4096
next_free (mmap size offset (some k) ∷ cs) = next_free cs + k + 1
next_free (c ∷ cs) = next_free cs

-- Buffers and frame buffers are numbered by the calls made.
abbrev drm : Drm
drm = record {
  card = λ cs. some 3;
  resources = λ cs. some two;
  connector = λ i id. some panel;
  dumb = λ cs w h. (length cs, 4 * w, 4 * (h * w));
  fb_id = λ cs h. 40 + length cs;
  offset = λ cs h. 8192 * h;
  address = λ cs s o. some (next_free cs);
}

abbrev addr : Calls → ℕ → ℕ → ℕ
addr cs size offset = next_free cs

abbrev idle : World
idle = record { calls = []; video = λ a i. 0; shown = [] }

-- The pointer is in the middle until row 640 is drawn, and then 5 columns left of the screen, as it is in
-- test_input_callback after a move of 405 to the left and before the first test.
abbrev sweep : Seen
sweep y x = record {
  x = if ltb y 640 then pos 400 else negsuc 4;
  y = pos 640;
  max_x = pos 800;
  max_y = pos 1280;
  min_x = pos 0;
  min_y = pos 0;
}

abbrev still : Seen
still y x = record {
  x = pos 400;
  y = pos 640;
  max_x = pos 800;
  max_y = pos 1280;
  min_x = pos 0;
  min_y = pos 0;
}

abbrev far_left : InputEvent
far_left = record { type = 2; code = 0; value = negsuc 404 }

still-Reached : (y x : ℕ) → Reached (still 0 0) (still y x)
unfolding mouse_after
still-Reached y x = record {
  events = [];
  event = far_left;
  mp = still 0 0;
  modest = tt;
  next_modest = omega arith;
  follows = refl;
  across = inl refl;
  down = inl refl;
}

sweep-Reached : (y x : ℕ) → Reached (still 0 0) (sweep y x)
unfolding mouse_after ◌+ℤ◌
sweep-Reached y x = record {
  events = [];
  event = far_left;
  mp = still 0 0;
  modest = tt;
  next_modest = omega arith;
  follows = refl;
  across = elim (Bool-cases (ltb y 640)) [
    | inl before ↦ inl (rw before refl)
    | inr after ↦ inr (inl (rw after refl))
  ];
  down = inl refl;
}

pointer_on_screen_example :
    (ui : Ui) × (ui' : Ui) × (start_ui drm idle ≡ some (running ui))
    × (ui_loop ui (sweep ∷ still ∷ []) ≡ some ui')
    × (ui.g_mp ≡ still 0 0)
    × ShowsPointer mode sweep ui'
unfolding find_connector init_mp ◌+ℤ◌
pointer_on_screen_example =
    pointer_on_screen drm addr mode (λ cs size offset. refl) (omega arith) (λ cs. omega arith) 10 20
      panel two idle (still 0 0) sweep (still ∷ []) refl refl refl refl
      (sweep-Reached, (still-Reached, tt))

-- What the client of the input reader prints about a new device.
printed_line :
    dslog default_level dslog_tag (test_event_callback (bytes "event3") added)
    ≡ bytes "D/INPUT_SHOW(test_event_callback 77):event3 is added\n" ∷ []
unfolding dslog test_event_callback digits
printed_line = refl
