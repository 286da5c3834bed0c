-- ===== src/Screen/Slides/Shown.antt =====
-- What `main` of input_show_.c shows and what it leaves behind, when the calls work.
use dsui.Prelude.{ℕ, ◌*◌, ◌<◌, ◌≡◌, ◌∷◌}
use dsui.Screen.Drm.{World, Drm, DrmModeModeInfo, buffers, frame_buffers, mapped, put_on_screen}
use dsui.Screen.Slides.Made.{Made}

-- Every pixel of the mode has this colour.
abbrev pub IsPlain : DrmModeModeInfo → ℕ → (ℕ → ℕ) → Type 0
IsPlain mode color pixels = (i : ℕ) → i < mode.vdisplay * mode.hdisplay → pixels i ≡ color

-- `w'` has shown three plain pictures more than `w`, and holds what `w` holds.
pub record Slideshow (mode : DrmModeModeInfo) (w w' : World) : Type 0 where
  pub red : ℕ × (ℕ → ℕ)
  pub green : ℕ × (ℕ → ℕ)
  pub blue : ℕ × (ℕ → ℕ)
  pub in_order : w'.shown ≡ blue ∷ green ∷ red ∷ w.shown
  pub on_screen : put_on_screen w'.calls ≡ blue.0 ∷ green.0 ∷ red.0 ∷ put_on_screen w.calls
  pub is_red : IsPlain mode 0xff0000 red.1
  pub is_green : IsPlain mode 0x00ff00 green.1
  pub is_blue : IsPlain mode 0x0000ff blue.1
  pub same_maps : (b : ℕ) → mapped b w'.calls ≡ mapped b w.calls
  pub same_buffers : (h : ℕ) → buffers h w'.calls ≡ buffers h w.calls
  pub same_frame_buffers : (n : ℕ) → frame_buffers n w'.calls ≡ frame_buffers n w.calls
