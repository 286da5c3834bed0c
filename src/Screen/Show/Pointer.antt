-- ===== src/Screen/Show/Pointer.antt =====
-- The pointer in the pictures that input_show.c shows.
use native.Mathlib.Nat.{mul-le-mul}
use dsui.Prelude.{
  sym, ℕ, ◌+◌, ◌*◌, ◌^◌, ◌<◌, ◌≤◌, ◌≡◌, refl, true, ◌&&◌, leb, some, List, ◌∷◌, if◌then◌else◌,
  arith, update,
}
use dsui.Frame.{create_fb_seen}
use dsui.Mouse.Midway.{IsPlace}
use dsui.Frame.Paint.{near, create_fb_seen_pixel}
use dsui.Screen.Drm.{DrmModeModeInfo, set_crtc}
use dsui.Screen.Show.{Ui, Seen, show_mouse, g_color}

-- Each pixel of the picture shown last is black if the pointer was within MIW of it in both directions
-- when it was drawn, and white otherwise.
pub record ShowsPointer (mode : DrmModeModeInfo) (seen : Seen) (ui : Ui) : Type 0 where
  pub fb : ℕ
  pub pixels : ℕ → ℕ
  pub earlier : List (ℕ × (ℕ → ℕ))
  pub last : ui.world.shown ≡ (fb, pixels) ∷ earlier
  pub drawn :
      (y x : ℕ)
      → y < mode.vdisplay
      → x < mode.hdisplay
      → pixels (y * mode.hdisplay + x)
        ≡ (if near y (seen y x).y && near x (seen y x).x then 0 else g_color)

-- Wherever the pointer is, its distances to the pixels are an `int`.
abbrev pub AllPlaces : Seen → Type 0
AllPlaces seen = (y x : ℕ) → IsPlace (seen y x).y × IsPlace (seen y x).x

-- The program draws into a mapping of the screen's size, with room for four bytes a pixel.
pub record IsDrawing (mode : DrmModeModeInfo) (ui : Ui) : Type 0 where
  pub width : ui.globals.width ≡ mode.hdisplay
  pub height : ui.globals.height ≡ mode.vdisplay
  pub small : (mode.hdisplay < 2 ^ 16) × (mode.vdisplay < 2 ^ 16)
  pub address : (a : ℕ) × (ui.globals.mapped_at ≡ some a)
  pub room : 4 * (mode.vdisplay * mode.hdisplay) ≤ ui.globals.create_size

few_pixels : (h w : ℕ) → h < 2 ^ 16 → w < 2 ^ 16 → h * w ≤ 2 ^ 32
few_pixels h w lt_h lt_w =
    let bound : h * w ≤ 2 ^ 16 * 2 ^ 16 =
      mul-le-mul {n₁ = h} {m₁ = w} {n₂ = 2 ^ 16} {m₂ = 2 ^ 16} (omega (arith, lt_h))
        (omega (arith, lt_w)) in
    omega (arith, bound)

module _ (mode : DrmModeModeInfo) (ui : Ui) (inv : IsDrawing mode ui) (seen : Seen)
    (places : AllPlaces seen) where
  pointer_drawn :
      (vaddr : ℕ → ℕ) (y x : ℕ)
      → y < mode.vdisplay
      → x < mode.hdisplay
      → (create_fb_seen ui.globals g_color seen vaddr).0 (y * mode.hdisplay + x)
        ≡ (if near y (seen y x).y && near x (seen y x).x then 0 else g_color)
  pointer_drawn vaddr y x lt_y lt_x =
      let small_width : ui.globals.width < 2 ^ 16 = rw inv.width inv.small.0 in
      let small_height : ui.globals.height < 2 ^ 16 = rw inv.height inv.small.1 in
      let pixel =
        create_fb_seen_pixel ui.globals g_color seen vaddr y x
          (few_pixels ui.globals.height ui.globals.width small_height small_width)
          (omega (arith, lt_y, inv.small), omega (arith, lt_x, inv.small)) (places y x)
          (rw inv.height lt_y) (rw inv.width lt_x) in
      rw (sym inv.width) pixel

  pub show_mouse-ShowsPointer :
      (ui' : Ui) × (show_mouse ui seen ≡ some ui') × ShowsPointer mode seen ui' × IsDrawing mode ui'
  unfolding show_mouse
  show_mouse-ShowsPointer =
      let (a, at) = inv.address in
      let (pixels, buf) = create_fb_seen ui.globals g_color seen (ui.world.video a) in
      let ui' : Ui = record ui {
        buf = buf;
        world = record {
          calls = set_crtc ui.crtc_id buf.fb_id ui.conn_id ui.mode ∷ ui.world.calls;
          video = update ui.world.video a pixels;
          shown = (buf.fb_id, pixels) ∷ ui.world.shown;
        };
      } in
      let fits : leb (4 * (ui.globals.height * ui.globals.width)) ui.globals.create_size ≡ true =
        rw (inv.width, inv.height) (ground (arith, inv.room)) in
      (
        ui',
        rw (at, fits) refl,
        record {
          fb = buf.fb_id;
          pixels = pixels;
          earlier = ui.world.shown;
          last = refl;
          drawn = pointer_drawn (ui.world.video a);
        },
        record {
          width = inv.width;
          height = inv.height;
          small = inv.small;
          address = inv.address;
          room = inv.room;
        },
      )
