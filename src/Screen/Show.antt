-- ===== src/Screen/Show.antt =====
-- src/examples/input_show/input_show.c: `main` sets up one frame buffer and the mouse, starts the
-- input threads and then draws and shows the picture with the pointer for ever.
pub mod Pointer
pub mod Loop
use dsui.Prelude.{
  ◌*◌, leb, if◌then◌else◌, ◌++◌, ℕ, Option, none, some, List, [], ◌∷◌, update, get_elem?,
}
use dsui.Prelude.Int.{ℤ, pos, negsuc}
use dsui.Log.{Message, debug, bytes}
use dsui.InputReader.Kernel.{ChangeType, added, removed}
use dsui.Mouse.Signed.{MousePos, init_mp}
use dsui.Frame.{Globals, Framebuffer, create_fb_seen}
use dsui.Screen.Drm.{
  Drm, Calls, World, log, DrmModeModeInfo, DrmModeConnector, DrmModeRes, open_card, set_crtc, rm_fb,
  munmap, destroy_dumb,
}
use dsui.Screen.Buffers.{filled, make_buffer}
use dsui.Screen.{Setup, undefined, returned, ready, find_connector}

infixl 5 ◌>>=◌
abbrev ◌>>=◌ : {A B : Type 0} → Option A → (A → Option B) → Option B
none >>= f = none
some a >>= f = f a

-- The globals of the program once it draws, `g_mp` as `init_mp` leaves it: `create`, `fb_id` and `vaddr` are in `globals`, `buf` is
-- `buf[0]`, the only one used, and `mode` is `connector->modes[0]`.
pub record Ui : Type 0 where
  pub globals : Globals
  pub g_mp : MousePos
  pub crtc_id : ℕ
  pub conn_id : ℕ
  pub mode : DrmModeModeInfo
  pub buf : Framebuffer
  pub world : World

abbrev pub g_color : ℕ
g_color = 0xffffff

-- `main` returns, or goes on to draw.
pub data Started : Type 0 where
  stopped : ℤ → World → Started
  running : Ui → Started

abbrev zero_buffer : Framebuffer
zero_buffer = record { size = 0; handle = 0; fb_id = 0; vaddr = none }

abbrev pub dslog_tag : List ℕ
dslog_tag = bytes "INPUT_SHOW"

-- `test_event_callback`, by the message that it prints. It ends without a return value.
unfoldable pub test_event_callback : List ℕ → ChangeType → Message
test_event_callback event_name change_type =
    let change : List ℕ = elim change_type [
      | added ↦ bytes " is added\n"
      | removed ↦ bytes " is removed\n"
    ] in
    record {
      level = debug;
      func = bytes "test_event_callback";
      line = 77;
      text = event_name ++ change;
    }

module _ (drm : Drm) where
  -- `main` from `init_mp` to `init_input`, whose result is not used. The clamp of the mouse is undefined
  -- if the size does not fit into an `int32_t`.
  unfoldable pub set_up : ℕ → ℕ → DrmModeModeInfo → World → Option Started
  set_up crtc conn mode w = do
    mp ← init_mp (pos 0) (pos 0) (pos mode.hdisplay) (pos mode.vdisplay)
    let create = filled drm mode.hdisplay mode.vdisplay w.calls
    let (fb_id, vaddr, cs) = make_buffer drm create w.calls
    some (
        running (record {
          globals = record {
            width = create.width;
            height = create.height;
            create_size = create.size;
            create_handle = create.handle;
            new_fb_id = fb_id;
            mapped_at = vaddr;
          };
          g_mp = mp;
          crtc_id = crtc;
          conn_id = conn;
          mode = mode;
          buf = zero_buffer;
          world = record w { calls = cs };
        }))

  unfoldable pub after_setup : Setup → World → Option Started
  unfolding set_up
  after_setup undefined w = none
  after_setup (returned code) w = some (stopped code w)
  after_setup (ready crtc conn c) w = do mode ← get_elem? c.modes 0; set_up crtc conn mode w

  -- `main` up to its endless loop. The global `connector` starts as NULL.
  unfoldable pub start_ui : World → Option Started
  unfolding after_setup find_connector
  start_ui w =
      let w1 = log (open_card (drm.card w.calls)) w in
      do
        res ← drm.resources w1.calls
        after_setup
            (find_connector 0 (returned (negsuc 0)) drm.connector res 0 res.count_connectors none)
            w1

-- Where the pointer is while a picture is drawn, by the row and the column that are drawn: the input
-- thread can move it at any time, also in the middle of test_input_callback.
abbrev pub Seen : Type 0
Seen = ℕ → ℕ → MousePos

-- `show_mouse`, but for the times that it measures and prints. `none` is a write through MAP_FAILED or
-- behind the end of the mapping.
unfoldable pub show_mouse : Ui → Seen → Option Ui
show_mouse ui seen = elim ui.globals.mapped_at [
  | none ↦ none
  | some a ↦
      let (pixels, buf) = create_fb_seen ui.globals g_color seen (ui.world.video a) in
      if leb (4 * (ui.globals.height * ui.globals.width)) ui.globals.create_size
      then some (record ui {
        buf = buf;
        world = record {
          calls = set_crtc ui.crtc_id buf.fb_id ui.conn_id ui.mode ∷ ui.world.calls;
          video = update ui.world.video a pixels;
          shown = (buf.fb_id, pixels) ∷ ui.world.shown;
        };
      })
      else none
]

-- The endless loop of `main`, with where the pointer is in each round, the latest round first.
unfoldable pub ui_loop : Ui → List Seen → Option Ui
unfolding show_mouse
ui_loop ui [] = some ui
ui_loop ui (seen ∷ earlier) = do u ← ui_loop ui earlier; show_mouse u seen

-- `release_fb`, which `main` calls only behind its endless loop.
unfoldable pub release_fb : Framebuffer → World → World
release_fb buf w =
    log (destroy_dumb (record { handle = buf.handle }))
      (log (munmap buf.vaddr buf.size) (log (rm_fb buf.fb_id) w))
