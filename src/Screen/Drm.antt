-- ===== src/Screen/Drm.antt =====
-- What the programs of src/examples/input_show give to libdrm and to the kernel and get back: the
-- structs of third/libs/include/xf86drmMode.h and third/libs/include/libdrm/drm_mode.h that they fill
-- or read, and the calls. What a call answers is a parameter.
use dsui.Prelude.{ℕ, ◌+◌, ◌-◌, Option, some, List, [], ◌∷◌, ◌==◌, if◌then◌else◌}

-- `drmModeModeInfo`
pub record DrmModeModeInfo : Type 0 where
  pub clock : ℕ
  pub hdisplay : ℕ
  pub hsync_start : ℕ
  pub hsync_end : ℕ
  pub htotal : ℕ
  pub hskew : ℕ
  pub vdisplay : ℕ
  pub vsync_start : ℕ
  pub vsync_end : ℕ
  pub vtotal : ℕ
  pub vscan : ℕ
  pub vrefresh : ℕ
  pub flags : ℕ
  pub type : ℕ
  pub name : List ℕ

-- `drmModeRes`. A count and the array that it counts are two fields.
pub record DrmModeRes : Type 0 where
  pub count_fbs : ℕ
  pub fbs : List ℕ
  pub count_crtcs : ℕ
  pub crtcs : List ℕ
  pub count_connectors : ℕ
  pub connectors : List ℕ
  pub count_encoders : ℕ
  pub encoders : List ℕ
  pub min_width : ℕ
  pub max_width : ℕ
  pub min_height : ℕ
  pub max_height : ℕ

-- `drmModeConnection` and `drmModeSubPixel`
pub data DrmModeConnection : Type 0 where
  connected disconnected unknown_connection : DrmModeConnection

pub data DrmModeSubPixel : Type 0 where
  subpixel_unknown horizontal_rgb horizontal_bgr : DrmModeSubPixel
  vertical_rgb vertical_bgr subpixel_none : DrmModeSubPixel

-- `drmModeConnector`
pub record DrmModeConnector : Type 0 where
  pub connector_id : ℕ
  pub encoder_id : ℕ
  pub connector_type : ℕ
  pub connector_type_id : ℕ
  pub connection : DrmModeConnection
  pub mm_width : ℕ
  pub mm_height : ℕ
  pub subpixel : DrmModeSubPixel
  pub count_modes : ℕ
  pub modes : List DrmModeModeInfo
  pub count_props : ℕ
  pub props : List ℕ
  pub prop_values : List ℕ
  pub count_encoders : ℕ
  pub encoders : List ℕ

-- `struct drm_mode_create_dumb`: the call fills the last three fields.
pub record DrmModeCreateDumb : Type 0 where
  pub height : ℕ
  pub width : ℕ
  pub bpp : ℕ
  pub flags : ℕ
  pub handle : ℕ
  pub pitch : ℕ
  pub size : ℕ

-- `struct drm_mode_map_dumb`: the call fills `offset`.
pub record DrmModeMapDumb : Type 0 where
  pub handle : ℕ
  pub pad : ℕ
  pub offset : ℕ

-- `struct drm_mode_destroy_dumb`
pub record DrmModeDestroyDumb : Type 0 where
  pub handle : ℕ

-- A call that makes, shows or gives back something, with its arguments and what it answers. A struct
-- is as the call leaves it; `none` is the -1 of `open` and the MAP_FAILED of `mmap`.
pub data Call : Type 0 where
  open_card : Option ℕ → Call
  create_dumb : DrmModeCreateDumb → Call
  add_fb : ℕ → ℕ → ℕ → ℕ → ℕ → Call
  map_dumb : DrmModeMapDumb → Call
  mmap : ℕ → ℕ → Option ℕ → Call
  set_crtc : ℕ → ℕ → ℕ → DrmModeModeInfo → Call
  rm_fb : ℕ → Call
  munmap : Option ℕ → ℕ → Call
  destroy_dumb : DrmModeDestroyDumb → Call
  free_connector : ℕ → Call
  free_resources : Call
  close_card : Option ℕ → Call

-- The calls made so far, the latest first.
abbrev pub Calls : Type 0
Calls = List Call

-- What the calls answer after given calls. `connector i id` is the answer of the `i`-th call of
-- drmModeGetConnector; `dumb` gives handle, pitch and size for a width and a height.
pub record Drm : Type 0 where
  pub card : Calls → Option ℕ
  pub resources : Calls → Option DrmModeRes
  pub connector : ℕ → ℕ → Option DrmModeConnector
  pub dumb : Calls → ℕ → ℕ → ℕ × ℕ × ℕ
  pub fb_id : Calls → ℕ → ℕ
  pub offset : Calls → ℕ → ℕ
  pub address : Calls → ℕ → ℕ → Option ℕ

-- How often a buffer or a frame buffer is held: made and not given back.
abbrev pub buffers : ℕ → Calls → ℕ
buffers h [] = 0
buffers h (create_dumb c ∷ cs) = buffers h cs + (if h == c.handle then 1 else 0)
buffers h (destroy_dumb d ∷ cs) = buffers h cs - (if h == d.handle then 1 else 0)
buffers h (c ∷ cs) = buffers h cs

abbrev pub frame_buffers : ℕ → Calls → ℕ
frame_buffers n [] = 0
frame_buffers n (add_fb w h pitch handle k ∷ cs) = frame_buffers n cs + (if n == k then 1 else 0)
frame_buffers n (rm_fb k ∷ cs) = frame_buffers n cs - (if n == k then 1 else 0)
frame_buffers n (c ∷ cs) = frame_buffers n cs

-- The bytes mapped at an address.
abbrev pub mapped : ℕ → Calls → ℕ
mapped a [] = 0
mapped a (mmap size offset (some k) ∷ cs) = mapped a cs + (if a == k then size else 0)
mapped a (munmap (some k) size ∷ cs) = mapped a cs - (if a == k then size else 0)
mapped a (c ∷ cs) = mapped a cs

-- How many mappings start at an address.
abbrev pub mappings : ℕ → Calls → ℕ
mappings a [] = 0
mappings a (mmap size offset (some k) ∷ cs) = mappings a cs + (if a == k then 1 else 0)
mappings a (munmap (some k) size ∷ cs) = mappings a cs - (if a == k then 1 else 0)
mappings a (c ∷ cs) = mappings a cs

-- The frame buffers put on the screen, the latest first.
abbrev pub put_on_screen : Calls → List ℕ
put_on_screen [] = []
put_on_screen (set_crtc crtc fb conn mode ∷ cs) = fb ∷ put_on_screen cs
put_on_screen (c ∷ cs) = put_on_screen cs

-- The calls made, the memory of each mapping by the index of a pixel, and what the screen has shown: a
-- frame buffer and the pixels in it when it was put there, the latest first.
pub record World : Type 0 where
  pub calls : Calls
  pub video : ℕ → ℕ → ℕ
  pub shown : List (ℕ × (ℕ → ℕ))

abbrev pub log : Call → World → World
log c w = record w { calls = c ∷ w.calls }
