-- ===== src/Program/Buffers.antt =====
-- The sizes and the addresses of the frame buffers that `main` of m_buffer_input_show_test.cpp makes.
use dsui.Prelude.{
  ◌≤◌, ◌*◌, length, ◌≤◌, ◌≢◌, ap, ℕ, zero, suc, ◌^◌, ◌<◌, ◌≡◌, refl, some, arith, get_elem?,
}
use dsui.Mouse.Unsigned
use dsui.Screen.Drm.{mappings, Drm, Calls, DrmModeModeInfo}
use dsui.Screen.Buffers.{Framebuffer, create_fb, filled, registered}
use dsui.Program.{make_buffers}
use dsui.Program.Shown.{IsSized}

pub length-make_buffers :
    (drm : Drm) (mode : DrmModeModeInfo) (count : ℕ) (cs : Calls)
    → length (make_buffers drm mode count cs).0 ≡ count
unfolding make_buffers
length-make_buffers drm mode zero cs = refl
length-make_buffers drm mode (suc count) cs = ap suc (length-make_buffers drm mode count _)

module _ (drm : Drm) (addr : Calls → ℕ → ℕ → ℕ) (mode : DrmModeModeInfo)
    (maps : (cs : Calls) (size offset : ℕ)
      → drm.address cs size offset ≡ some (addr cs size offset))
    (free : (cs : Calls) (size offset : ℕ) → mappings (addr cs size offset) cs ≡ 0)
    (small : (mode.hdisplay < 2 ^ 16) × (mode.vdisplay < 2 ^ 16))
    (room : (cs : Calls)
      → 4 * (mode.vdisplay * mode.hdisplay) ≤ (drm.dumb cs mode.hdisplay mode.vdisplay).2) where
  make_buffers-sized :
      (count : ℕ) (cs : Calls) (k : ℕ) {b : Framebuffer}
      → get_elem? (make_buffers drm mode count cs).0 k ≡ some b
      → ((b.width ≡ mode.hdisplay) × (b.height ≡ mode.vdisplay)) × ((a : ℕ) × (b.vaddr ≡ some a))
  unfolding make_buffers create_fb
  make_buffers-sized zero cs k {b} e = absurd cc
  make_buffers-sized (suc count) cs zero {b} e =
      let create = filled drm mode.hdisplay mode.vdisplay cs in
      let (fb_id, offset, cs3) = registered drm create cs in
      let at = maps cs3 create.size offset in
      ((ground arith, ground arith), (addr cs3 create.size offset, ground (arith, at)))
  make_buffers-sized (suc count) cs (suc k) {b} e = make_buffers-sized count _ k e

  make_buffers-room :
      (count : ℕ) (cs : Calls) (k : ℕ) {b : Framebuffer}
      → get_elem? (make_buffers drm mode count cs).0 k ≡ some b
      → 4 * (mode.vdisplay * mode.hdisplay) ≤ b.size
  unfolding make_buffers create_fb
  make_buffers-room zero cs k {b} e = absurd cc
  make_buffers-room (suc count) cs zero {b} e = ground (arith, room cs)
  make_buffers-room (suc count) cs (suc k) {b} e = make_buffers-room count _ k e

  -- A frame buffer is mapped where nothing was mapped before, and stays mapped.
  create_fb-mappings :
      (cs : Calls) (a : ℕ)
      → (mappings a cs ≤ mappings a (create_fb drm mode.hdisplay mode.vdisplay cs).1)
        × ((create_fb drm mode.hdisplay mode.vdisplay cs).0.vaddr ≡ some a
            → (mappings a cs ≡ 0)
              × (0 < mappings a (create_fb drm mode.hdisplay mode.vdisplay cs).1))
  unfolding create_fb
  create_fb-mappings cs a =
      let create = filled drm mode.hdisplay mode.vdisplay cs in
      let (fb_id, offset, cs3) = registered drm create cs in
      let here = maps cs3 create.size offset in
      let none_here = free cs3 create.size offset in
      (ground (arith, here), (λ at. (ground (arith, here, none_here), ground (arith, here))))

  make_buffers-new :
      (count : ℕ) (cs : Calls) (k a : ℕ) {b : Framebuffer}
      → 0 < mappings a cs
      → get_elem? (make_buffers drm mode count cs).0 k ≡ some b
      → b.vaddr ≢ some a
  unfolding make_buffers
  make_buffers-new zero cs k a {b} taken e at = absurd cc
  make_buffers-new (suc count) cs zero a {b} taken e at = ground (arith, create_fb-mappings cs a)
  make_buffers-new (suc count) cs (suc k) a {b} taken e at =
      make_buffers-new count _ k a (omega (arith, taken, (create_fb-mappings cs a).0)) e at

  make_buffers-own :
      (count : ℕ) (cs : Calls) (j k a : ℕ) {b c : Framebuffer}
      → get_elem? (make_buffers drm mode count cs).0 j ≡ some b
      → get_elem? (make_buffers drm mode count cs).0 k ≡ some c
      → b.vaddr ≡ some a
      → c.vaddr ≡ some a
      → j ≡ k
  unfolding make_buffers
  make_buffers-own zero cs j k a {b} {c} e f at at' = absurd cc
  make_buffers-own (suc count) cs zero zero a {b} {c} e f at at' = refl
  make_buffers-own (suc count) cs zero (suc k) a {b} {c} e f at at' =
      absurd (make_buffers-new count _ k a (((create_fb-mappings cs a).1 (ground arith)).1) f at')
  make_buffers-own (suc count) cs (suc j) zero a {b} {c} e f at at' =
      absurd (make_buffers-new count _ j a (((create_fb-mappings cs a).1 (ground arith)).1) e at)
  make_buffers-own (suc count) cs (suc j) (suc k) a {b} {c} e f at at' =
      ap suc (make_buffers-own count _ j k a e f at at')

  pub make_buffers-IsSized :
      (At : Unsigned.MousePos → Type 0) (count : ℕ) (cs : Calls)
      → IsSized At mode.hdisplay mode.vdisplay (make_buffers drm mode count cs).0
  make_buffers-IsSized At count cs = record {
    sizes = λ k {b} e. (make_buffers-sized count cs k e).0;
    room = λ k {b} e. make_buffers-room count cs k e;
    address = λ k {b} e. (make_buffers-sized count cs k e).1;
    own = λ j k a {b} {c} e f at at'. make_buffers-own count cs j k a e f at at';
  }
