-- ===== src/Program/Tests.antt =====
-- The program on a screen of 4 by 3 pixels, with mmap giving an address behind all others.
use dsui.Prelude.{
  ◌⊎◌, inl, ◌*◌, ◌≤◌, ◌+◌, false, length, ◌<◌, All, get_elem?, false, ◌==◌, ◌≤◌, none, Option, ℕ,
  ◌≡◌, refl, some, List, [], ◌∷◌, ◌++◌, map, replicate, arith,
}
use dsui.Mouse.Unsigned
use dsui.MBuffer
use dsui.MBuffer.{BufferTask}
use dsui.Screen.Buffers.{Framebuffer, create_fb}
use dsui.Screen.{find_connector}
use dsui.Program.Undisturbed.{draw_whole, draw_whole_pixel}
use dsui.Frame.{next_color}
use dsui.Frame.Color.{InTrend}
use dsui.Program.Picture.{line_value}
use dsui.Program.{Display, picture, Running, main, running, run, Started, stopped}
use dsui.Program.InOrder.{ids_of, shown_ids}
use dsui.Program.Sequence.{screen_in_order}
use dsui.Program.Start.{whole_pictures}
use dsui.Program.Live.Always.{screen_goes_on}
use dsui.Program.Machine.{tame, mode, panel, res, drm, idle, above, above-free}

-- The mouse in a column of the screen.
abbrev mouse : ℕ → Unsigned.MousePos
mouse x = record { x = x; y = 1; max_x = 800; max_y = 1280; min_x = 0; min_y = 0 }

-- Thread 2 ticks; thread 0 takes a frame buffer and draws seven of the twelve pixels, the mouse moves,
-- and it draws the rest; thread 1, which shows, has got its tick in between.
abbrev order : List (ℕ × ℕ)
order =
    replicate 3 (2, 0)
    ++ replicate 12 (0, 2)
    ++ ((1, 0) ∷ [])
    ++ replicate 8 (0, 3)
    ++ replicate 4 (1, 3)

abbrev schedule : List (ℕ × Unsigned.MousePos)
schedule = map (λ (i, x). (i, mouse x)) order

abbrev from_main : List (ℕ × Unsigned.MousePos) → Option Started → Option Running
from_main js none = none
from_main js (some (stopped code w)) = none
from_main js (some (running r)) = run r js

abbrev pixels_shown : Option Running → List (List ℕ)
pixels_shown none = []
pixels_shown (some r) =
    map (λ s. map s.1 (0 ∷ 1 ∷ 2 ∷ 3 ∷ 4 ∷ 5 ∷ 6 ∷ 7 ∷ 8 ∷ 9 ∷ 10 ∷ 11 ∷ [])) r.display.world.shown

-- The picture is on the screen after the schedule, white where the mouse was when the pixel was drawn.
schedule_shows :
    pixels_shown (from_main schedule (main tame drm idle))
    ≡ (1 ∷ 1 ∷ 0xffff_ffff ∷ 1 ∷ 1 ∷ 1 ∷ 0xffff_ffff ∷ 0xffff_ffff ∷ 1 ∷ 1 ∷ 1 ∷ 0xffff_ffff ∷ [])
      ∷ []
unfolding main run find_connector MBuffer.step MBuffer.init create_fb next_color
schedule_shows = refl

-- Thread 1 has missed two of three ticks and shows the first picture; its frame buffer is the only one
-- on p_queue, and thread 0 draws into it while it is on the screen.
abbrev late : List (ℕ × Unsigned.MousePos)
late =
    replicate 9 (2, mouse 0)
    ++ replicate 60 (0, mouse 2)
    ++ replicate 8 (1, mouse 2)
    ++ replicate 3 (2, mouse 0)
    ++ replicate 10 (0, mouse 2)

-- The number of the frame buffer on the screen and its first pixel when it was put there; those of the
-- first frame buffer as they are now.
abbrev screen_and_memory : Option Running → Option (ℕ × ℕ × ℕ × ℕ)
screen_and_memory none = none
screen_and_memory (some r) = elim r.display.world.shown [
  | [] ↦ none
  | s ∷ ss ↦ elim (get_elem? r.display.buf 0) [
    | none ↦ none
    | some b ↦ some (s.0, s.1 0, b.fb_id, picture b r.display.world 0)
  ]
]

drawn_on_screen : screen_and_memory (from_main late (main tame drm idle)) ≡ some (2, 1, 2, 4)
unfolding main run find_connector MBuffer.step MBuffer.init create_fb next_color
drawn_on_screen = refl

abbrev buffer : Framebuffer
buffer = record { width = 4; height = 3; size = 48; handle = 1; fb_id = 2; vaddr = some 16 }

abbrev before_draw : Display
before_draw = record {
  buf = buffer ∷ [];
  crtc_id = 11;
  conn_id = 21;
  mode = mode;
  trend = record { g_color = 0xef; trend_flag = false };
  g_mp = mouse 2;
  world = idle;
}

-- The colour before is 0xef, and on its way up: it turns at 0xf0.
before_draw-InTrend : InTrend before_draw.trend
before_draw-InTrend = record { up = λ e. omega arith; down = λ e. cc }

draw_whole_pixel_example :
    (d' : Display) × (draw_whole buffer before_draw ≡ some d')
    × ((d'.trend.g_color ≡ 0xef + 1) ⊎ (0xef ≡ d'.trend.g_color + 1))
    × InTrend d'.trend
    × ((y x : ℕ)
        → y < 3
        → x < 4
        → d'.world.video 16 (y * 4 + x) ≡ line_value (mouse 2) d'.trend.g_color y x)
    × ((k : ℕ) → 3 * 4 ≤ k → d'.world.video 16 k ≡ before_draw.world.video 16 k)
    × ((k : ℕ) → (k == 16) ≡ false → d'.world.video k ≡ before_draw.world.video k)
draw_whole_pixel_example =
    draw_whole_pixel buffer 16 before_draw refl (omega arith) (omega arith) (inl (omega arith))
      before_draw-InTrend

-- The program where the schedule starts and where it ends.
ran :
    (r : Running) × (r' : Running) × (main tame drm idle ≡ some (running r))
    × (run r schedule ≡ some r')
unfolding find_connector
ran =
    let (r, r', is, starts, runs, all, taken, shown) =
      whole_pictures tame refl drm (λ cs s o. above cs) mode (λ cs s o. refl)
        (λ cs s o. above-free cs (above cs) (omega arith)) (omega arith) (λ cs. omega arith)
        (λ mp. mp.x ≤ 3) 3 11 21 panel res idle schedule refl refl refl refl (omega arith) in
    (r, r', starts, runs)

screen_in_order_example :
    (rest : List ℕ) × (ids_of ran.1.display.buf ran.1.threads.mem.produced
      ≡ shown_ids ran.1.display.world.shown ++ rest)
screen_in_order_example =
    screen_in_order tame drm 3 idle ran.0 schedule ran.1 refl ran.2 (omega arith) ran.3

screen_goes_on_example :
    (r : Running) × (r' : Running) × (ks : List (ℕ × Unsigned.MousePos)) × (r'' : Running) × (main
        tame drm idle
      ≡ some (running r))
    × (run r schedule ≡ some r')
    × (run r' ks ≡ some r'')
    × All (λ k. k.0 < 3) ks
    × (length r'.display.world.shown < length r''.display.world.shown)
unfolding find_connector
screen_goes_on_example =
    screen_goes_on tame refl drm (λ cs s o. above cs) mode (λ cs s o. refl)
      (λ cs s o. above-free cs (above cs) (omega arith)) (omega arith) (λ cs. omega arith) 3 11 21
      panel res idle schedule refl refl refl refl (omega arith) (omega arith)
