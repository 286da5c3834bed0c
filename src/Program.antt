-- ===== src/Program.antt =====
-- src/examples/input_show/m_buffer_input_show_test.cpp as a whole: three frame buffers go round in the
-- multi-buffer model, whose producers draw them and whose consumer puts them on the screen, while the
-- mouse moves. A turn of a thread that draws is one pixel, so a draw is interleaved with the other threads
-- and with the mouse. There is one producer, as this file's MAX_PRODUCE_THREAD_NUM says; what the program is if
-- m_buffer.cpp is compiled for another number is left undefined.
pub mod Picture
pub mod Ready
pub mod Shown
pub mod Draws
pub mod Away
pub mod Effects
pub mod Buffers
pub mod Undisturbed
pub mod InOrder
pub mod Moves
pub mod Sequence
pub mod Turns
pub mod Start
pub mod Live
pub mod Input
mod Machine
mod Tests
use dsui.Prelude.{
  ◌==◌, leb, Bool, ℕ, zero, suc, ◌+◌, Option, none, some, List, [], ◌∷◌, update, get_elem?, true,
  false, if◌then◌else◌, ◌*◌, ◌%◌, ◌^◌, ltb, ◌&&◌,
}
use dsui.Prelude.Int.{ℤ, negsuc}
use dsui.Mouse.Unsigned
use dsui.Frame.{Trend, next_color, line_pixel}
use dsui.MBuffer.{BufferTask, Pc, p_run, c_run}
use dsui.MBuffer
use dsui.Screen.Drm.{
  Drm, Calls, World, log, DrmModeModeInfo, DrmModeRes, DrmModeConnector, open_card, set_crtc,
}
use dsui.Screen.Buffers.{Framebuffer, create_fb}
use dsui.Screen.{Setup, undefined, returned, ready, find_connector}

infixl 5 ◌>>=◌
abbrev pub ◌>>=◌ : {A B : Type 0} → Option A → (A → Option B) → Option B
none >>= f = none
some a >>= f = f a

abbrev pub max_produce_thread_num : ℕ
max_produce_thread_num = 1

-- What the language leaves open: the MAX_PRODUCE_THREAD_NUM with which m_buffer.cpp is compiled, for an
-- object of the size that this file gives it, and whether a function that flows off its end without the
-- value that it ought to return, as `produce_frame_buffer`, `consume_frame_buffer` and
-- `test_input_callback` do, goes back to its caller. Both are no errors to the compiler.
pub record Build : Type 0 where
  pub compiled_thread_num : ℕ
  pub returns_at_end : Bool

abbrev pub is_defined : Build → Bool
is_defined build = (build.compiled_thread_num == max_produce_thread_num) && build.returns_at_end

abbrev pub buffer_task_size : ℕ
buffer_task_size = 3

-- The globals of the program, but for those of the input reader. `mode` is `connector->modes[0]`.
pub record Display : Type 0 where
  pub buf : List Framebuffer
  pub crtc_id : ℕ
  pub conn_id : ℕ
  pub mode : DrmModeModeInfo
  pub trend : Trend
  pub g_mp : Unsigned.MousePos
  pub world : World

-- The loops of `draw_fb` in row `h` at column `w`: the pixel that they write next, and `none` at their
-- end.
abbrev pub at_pixel : ℕ → ℕ → ℕ → ℕ → Option (ℕ × ℕ)
at_pixel width height h w =
    if ltb h height
    then (if ltb w width
        then some (h, w)
        else (if ltb (h + 1) height && ltb 0 width then some (h + 1, 0) else none))
    else none

-- `draw_fb` up to its loops, and then pixel by pixel, with the mouse where it is at that pixel. `none`
-- is a write through MAP_FAILED or behind the end of the mapping.
abbrev pub start_draw : Framebuffer → Display → Option (Display × Option (ℕ × ℕ))
start_draw b d = some (record d { trend = next_color d.trend }, at_pixel b.width b.height 0 0)

abbrev pub draw_pixel : Framebuffer → ℕ × ℕ → Display → Option (Display × Option (ℕ × ℕ))
draw_pixel b (h, w) d = elim b.vaddr [
  | none ↦ none
  | some a ↦
      let pixels =
        update (d.world.video a) ((h * b.width + w) % 2 ^ 32)
          (line_pixel d.g_mp d.trend.g_color h w) in
      if leb (4 * ((h * b.width + w) % 2 ^ 32 + 1)) b.size
      then some (
        record d { world = record d.world { video = update d.world.video a pixels } },
        at_pixel b.width b.height h (w + 1),
      )
      else none
]

-- The argument of a callback is the index in `buf`, and NULL behind its end. `at` is where the thread is
-- in the loops, if it has got to them.
unfoldable pub produce_frame_buffer :
    ℕ → Option (ℕ × ℕ) → Display → Option (Display × Option (ℕ × ℕ))
produce_frame_buffer arg at d = elim (get_elem? d.buf arg) [
  | none ↦ some (d, none)
  | some b ↦ elim at [ none ↦ start_draw b d | some hw ↦ draw_pixel b hw d ]
]

-- The pixels that a frame buffer has in memory.
abbrev pub picture : Framebuffer → World → ℕ → ℕ
picture b w = elim b.vaddr [ none ↦ (λ i. 0) | some a ↦ w.video a ]

-- `consume_frame_buffer`, but for the times that it measures and prints.
unfoldable pub consume_frame_buffer : ℕ → Display → Display
consume_frame_buffer arg d = elim (get_elem? d.buf arg) [
  | none ↦ d
  | some b ↦ record d {
    world = record d.world {
      calls = set_crtc d.crtc_id b.fb_id d.conn_id d.mode ∷ d.world.calls;
      shown = (b.fb_id, picture b d.world) ∷ d.world.shown;
    };
  }
]

-- What a step of a thread of the multi-buffer model does to the globals, and where it is in the loops of
-- `draw_fb` afterwards: the step is not over before they are.
unfoldable pub effect : Pc → Option (ℕ × ℕ) → Display → Option (Display × Option (ℕ × ℕ))
unfolding produce_frame_buffer consume_frame_buffer
effect (p_run (some t)) at d =
    if t.produce_task then produce_frame_buffer t.args at d else some (d, none)
effect (c_run (some t)) at d =
    some (if t.consume_task then consume_frame_buffer t.args d else d, none)
effect p at d = some (d, none)

-- `drawing i` is where thread `i` is in the loops of `draw_fb`.
pub record Running : Type 0 where
  pub display : Display
  pub threads : MBuffer.System
  pub drawing : ℕ → Option (ℕ × ℕ)

-- A turn of thread `i`, with what it reads of the mouse if it reads it, which can be anything: the input
-- thread writes a coordinate up to three times for one event. A blocked thread leaves all as it is.
unfoldable pub turn : Running → ℕ × Unsigned.MousePos → Option Running
unfolding effect
turn r (i, mouse) = elim (MBuffer.step max_produce_thread_num i r.threads.mem (r.threads.pc i)) [
  | none ↦ some r
  | some (m, p) ↦ do
    (d, at) ← effect (r.threads.pc i) (r.drawing i) (record r.display { g_mp = mouse })
    some (elim at [
      | none ↦ record {
        display = d;
        threads = record { mem = m; pc = update r.threads.pc i p };
        drawing = update r.drawing i none;
      }
      | some hw ↦ record {
        display = d;
        threads = r.threads;
        drawing = update r.drawing i (some hw);
      }
    ])
]

-- The turns of a schedule, first to last.
unfoldable pub run : Running → List (ℕ × Unsigned.MousePos) → Option Running
unfolding turn
run r [] = some r
run r (j ∷ js) = do r' ← turn r j; run r' js

-- The buffers and the tasks that `main` makes from index `i` on, `count` of them.
module _ (drm : Drm) (mode : DrmModeModeInfo) where
  unfoldable pub make_buffers : ℕ → Calls → List Framebuffer × Calls
  make_buffers zero cs = ([], cs)
  make_buffers (suc count) cs =
      let (b, cs1) = create_fb drm mode.hdisplay mode.vdisplay cs in
      let (bs, cs2) = make_buffers count cs1 in (b ∷ bs, cs2)

unfoldable pub make_tasks : ℕ → ℕ → List BufferTask
make_tasks i zero = []
make_tasks i (suc count) =
    record { args = i; produce_task = true; consume_task = true } ∷ make_tasks (i + 1) count

-- `main` returns, or goes on with the threads running.
pub data Started : Type 0 where
  stopped : ℤ → World → Started
  running : Running → Started

abbrev pub zero_pos : Unsigned.MousePos
zero_pos = record { x = 0; y = 0; max_x = 0; max_y = 0; min_x = 0; min_y = 0 }

-- `main`, with every thread created. The object of the multi-buffer model is made in it, with the
-- constructor that m_buffer.cpp has been compiled to.
module _ (build : Build) (drm : Drm) where
  unfoldable pub after_setup : Setup → World → Option Started
  unfolding make_buffers make_tasks
  after_setup undefined w = none
  after_setup (returned code) w = some (stopped code w)
  after_setup (ready crtc conn c) w = do
    mode ← get_elem? c.modes 0
    let (bufs, cs) = make_buffers drm mode buffer_task_size w.calls in
        if is_defined build
        then some (
            running (record {
              display = record {
                buf = bufs;
                crtc_id = crtc;
                conn_id = conn;
                mode = mode;
                trend = record { g_color = 0; trend_flag = false };
                g_mp =
                    (Unsigned.init_mp 0 0 800 1280
                      (record { g_mp = zero_pos; g_last_mp = zero_pos })).g_mp;
                world = record w { calls = cs };
              };
              threads = MBuffer.init max_produce_thread_num (make_tasks 0 buffer_task_size);
              drawing = λ i. none;
            }))
        else none

  unfoldable pub main : World → Option Started
  unfolding after_setup
  main w =
      let w1 = log (open_card (drm.card w.calls)) w in
      do
        res ← drm.resources w1.calls
        after_setup
            (find_connector 1 (returned (negsuc 0)) drm.connector res 0 res.count_connectors none)
            w1
