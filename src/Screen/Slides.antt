-- ===== src/Screen/Slides.antt =====
-- src/examples/input_show/input_show_.c: three frame buffers, filled with red, green and blue, are put
-- on the screen one after the other and given back.
pub mod Made
pub mod Shown
use dsui.Prelude.{
  ℕ, zero, suc, ◌+◌, ◌/◌, ◌^◌, Option, none, some, List, ◌∷◌, ltb, if◌then◌else◌, update, get_elem?,
}
use dsui.Prelude.Int.{ℤ, pos}
use dsui.Screen.Drm.{
  World, log, Drm, Call, Calls, DrmModeModeInfo, DrmModeConnector, open_card, set_crtc, rm_fb,
  munmap, destroy_dumb, free_connector, free_resources, close_card,
}
use dsui.Screen.Buffers.{filled, make_buffer}
use dsui.Screen.{Setup, undefined, returned, ready, find_connector}

infixl 5 ◌>>=◌
abbrev ◌>>=◌ : {A B : Type 0} → Option A → (A → Option B) → Option B
none >>= f = none
some a >>= f = f a

-- `struct framebuffer`
pub record Framebuffer : Type 0 where
  pub size : ℕ
  pub handle : ℕ
  pub fb_id : ℕ
  pub vaddr : Option ℕ

-- `for (i = 0; i < create.size / 4; i++)` from `i` on, `count` rounds.
pub fill : ℕ → ℕ → ℕ → (ℕ → ℕ) → ℕ → ℕ
fill color i zero vaddr = vaddr
fill color i (suc count) vaddr = fill color (i + 1) count (update vaddr i color)

-- The whole loop of `create_fb`: `none` is a write through MAP_FAILED, or a loop that does not end
-- because no `uint32_t` reaches `size / 4`.
unfoldable pub fill_all : ℕ → ℕ → Option ℕ → (ℕ → ℕ → ℕ) → Option (ℕ → ℕ → ℕ)
unfolding fill
fill_all color size none video = if ltb size 4 then some video else none
fill_all color size (some a) video =
    if ltb (size / 4) (2 ^ 32)
    then some (update video a (fill color 0 (size / 4) (video a)))
    else none

module _ (drm : Drm) where
  unfoldable pub create_fb : ℕ → ℕ → ℕ → World → Option (Framebuffer × World)
  unfolding fill_all
  create_fb width height color w =
      let create = filled drm width height w.calls in
      let (fb_id, vaddr, cs) = make_buffer drm create w.calls in
      let buf : Framebuffer = record {
        size = create.size;
        handle = create.handle;
        fb_id = fb_id;
        vaddr = vaddr;
      } in
      do
        video ← fill_all color create.size vaddr w.video
        some (buf, record w { calls = cs; video = video })

-- The pixels that a frame buffer has in memory.
abbrev pub picture : Framebuffer → World → ℕ → ℕ
picture buf w = elim buf.vaddr [ none ↦ (λ i. 0) | some a ↦ w.video a ]

-- `drmModeSetCrtc(fd, crtc_id, buf.fb_id, 0, 0, &conn_id, 1, &connector->modes[0])`
unfoldable pub put_up : ℕ → ℕ → DrmModeModeInfo → Framebuffer → World → World
put_up crtc conn mode buf w = record w {
  calls = set_crtc crtc buf.fb_id conn mode ∷ w.calls;
  shown = (buf.fb_id, picture buf w) ∷ w.shown;
}

unfoldable pub release_fb : Framebuffer → World → World
release_fb buf w =
    log (destroy_dumb (record { handle = buf.handle }))
      (log (munmap buf.vaddr buf.size) (log (rm_fb buf.fb_id) w))

-- `main` from the first `drmModeSetCrtc` to the end. The sleeps of five seconds are left out.
unfoldable pub show_and_release :
    ℕ
    → ℕ
    → DrmModeConnector
    → DrmModeModeInfo
    → Option ℕ
    → Framebuffer
    → Framebuffer
    → Framebuffer
    → World
    → World
unfolding put_up release_fb
show_and_release crtc conn c mode fd buf0 buf1 buf2 w =
    let w3 =
      put_up crtc conn mode buf2 (put_up crtc conn mode buf1 (put_up crtc conn mode buf0 w)) in
    let w4 = release_fb buf2 (release_fb buf1 (release_fb buf0 w3)) in
    log (close_card fd) (log free_resources (log (free_connector c.connector_id) w4))

module _ (drm : Drm) where
  -- `main` once the connector and its first mode are there.
  unfoldable pub present :
      ℕ → ℕ → DrmModeConnector → DrmModeModeInfo → Option ℕ → World → Option (ℤ × World)
  unfolding create_fb show_and_release
  present crtc conn c mode fd w = do
    (buf0, w0) ← create_fb drm mode.hdisplay mode.vdisplay 0xff0000 w
    (buf1, w1) ← create_fb drm mode.hdisplay mode.vdisplay 0x00ff00 w0
    (buf2, w2) ← create_fb drm mode.hdisplay mode.vdisplay 0x0000ff w1
    some (pos 0, show_and_release crtc conn c mode fd buf0 buf1 buf2 w2)

  after_setup : Option ℕ → Setup → World → Option (ℤ × World)
  unfolding present
  after_setup fd undefined w = none
  after_setup fd (returned code) w = some (code, w)
  after_setup fd (ready crtc conn c) w = do
    mode ← get_elem? c.modes 0
    present crtc conn c mode fd w

  -- `main`: what it returns. `connector` is not initialised, so with no connector its value is read
  -- before it is set.
  unfoldable pub slides_main : World → Option (ℤ × World)
  unfolding after_setup find_connector
  slides_main w =
      let fd = drm.card w.calls in
      let w1 = log (open_card fd) w in
      do
        res ← drm.resources w1.calls
        after_setup fd (find_connector 1 undefined drm.connector res 0 res.count_connectors none) w1
