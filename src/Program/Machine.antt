-- ===== src/Program/Machine.antt =====
-- A machine for the tests of m_buffer_input_show_test.cpp: a card with one connector, whose mode has three
-- rows of four pixels, and on which every call works.
use dsui.Program.{Build}
use dsui.Prelude.{true, suc, ◌+◌, ◌≤◌, none, ℕ, ◌*◌, ◌≡◌, refl, some, [], ◌∷◌, length, arith}
use dsui.Screen.Drm.{
  Calls, mappings, open_card, create_dumb, add_fb, map_dumb, mmap, set_crtc, rm_fb, munmap,
  destroy_dumb, free_connector, free_resources, close_card, Drm, World, DrmModeModeInfo, DrmModeRes,
  DrmModeConnector, connected, subpixel_unknown,
}

-- m_buffer.cpp compiled for one producer, and functions that return at their ends.
abbrev pub tame : Build
tame = record { compiled_thread_num = 1; returns_at_end = true }

abbrev pub mode : DrmModeModeInfo
mode = record {
  clock = 0;
  hdisplay = 4;
  hsync_start = 0;
  hsync_end = 0;
  htotal = 0;
  hskew = 0;
  vdisplay = 3;
  vsync_start = 0;
  vsync_end = 0;
  vtotal = 0;
  vscan = 0;
  vrefresh = 60;
  flags = 0;
  type = 0;
  name = [];
}

abbrev pub panel : DrmModeConnector
panel = record {
  connector_id = 21;
  encoder_id = 0;
  connector_type = 0;
  connector_type_id = 0;
  connection = connected;
  mm_width = 0;
  mm_height = 0;
  subpixel = subpixel_unknown;
  count_modes = 1;
  modes = mode ∷ [];
  count_props = 0;
  props = [];
  prop_values = [];
  count_encoders = 0;
  encoders = [];
}

abbrev pub res : DrmModeRes
res = record {
  count_fbs = 0;
  fbs = [];
  count_crtcs = 2;
  crtcs = 10 ∷ 11 ∷ [];
  count_connectors = 2;
  connectors = 20 ∷ 21 ∷ [];
  count_encoders = 0;
  encoders = [];
  min_width = 0;
  max_width = 4096;
  min_height = 0;
  max_height = 4096;
}

-- Behind every address that has been given.
abbrev pub above : Calls → ℕ
above [] = 1
above (mmap size offset (some k) ∷ cs) = suc (k + above cs)
above (c ∷ cs) = above cs

pub above-free : (cs : Calls) (a : ℕ) → above cs ≤ a → mappings a cs ≡ 0
above-free [] a le = refl
above-free (mmap size offset none ∷ cs) a le = above-free cs a le
above-free (mmap size offset (some k) ∷ cs) a le =
    ground (arith, above-free cs a (omega (arith, le)))
above-free (munmap none size ∷ cs) a le = above-free cs a le
above-free (munmap (some k) size ∷ cs) a le = ground (arith, above-free cs a le)
above-free (open_card x ∷ cs) a le = above-free cs a le
above-free (create_dumb x ∷ cs) a le = above-free cs a le
above-free (add_fb v w x y z ∷ cs) a le = above-free cs a le
above-free (map_dumb x ∷ cs) a le = above-free cs a le
above-free (set_crtc x y z w ∷ cs) a le = above-free cs a le
above-free (rm_fb x ∷ cs) a le = above-free cs a le
above-free (destroy_dumb x ∷ cs) a le = above-free cs a le
above-free (free_connector x ∷ cs) a le = above-free cs a le
above-free (free_resources ∷ cs) a le = above-free cs a le
above-free (close_card x ∷ cs) a le = above-free cs a le

abbrev pub drm : Drm
drm = record {
  card = λ cs. some 3;
  resources = λ cs. some res;
  connector = λ i id. some panel;
  dumb = λ cs w h. (length cs, 4 * w, 4 * (h * w));
  fb_id = λ cs h. length cs;
  offset = λ cs h. 8192 * h;
  address = λ cs s o. some (above cs);
}

abbrev pub idle : World
idle = record { calls = []; video = λ a i. 0; shown = [] }
