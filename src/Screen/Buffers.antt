-- ===== src/Screen/Buffers.antt =====
-- `create_fb` and `release_fb` of src/examples/input_show/m_buffer_input_show_test.cpp.
use dsui.Screen.Drm.{
  Drm, Calls, DrmModeCreateDumb, create_dumb, add_fb, map_dumb, mmap, rm_fb, munmap, destroy_dumb,
  buffers, frame_buffers, mapped,
}
use dsui.Prelude.{refl, Option, ℕ, ◌≡◌, ◌∷◌, arith}

-- `struct framebuffer`
pub record Framebuffer : Type 0 where
  pub width : ℕ
  pub height : ℕ
  pub size : ℕ
  pub handle : ℕ
  pub fb_id : ℕ
  pub vaddr : Option ℕ

module _ (drm : Drm) where
  -- The calls with which each of the programs makes a buffer of 32 bits a pixel: `create`, the number
  -- of the frame buffer and the address, and the calls made.
  abbrev pub filled : ℕ → ℕ → Calls → DrmModeCreateDumb
  filled width height cs =
      let (handle, pitch, size) = drm.dumb cs width height in
      record {
        height = height;
        width = width;
        bpp = 32;
        flags = 0;
        handle = handle;
        pitch = pitch;
        size = size;
      }

  abbrev pub registered : DrmModeCreateDumb → Calls → ℕ × ℕ × Calls
  registered create cs =
      let cs1 = create_dumb create ∷ cs in
      let fb_id = drm.fb_id cs1 create.handle in
      let cs2 = add_fb create.width create.height create.pitch create.handle fb_id ∷ cs1 in
      let offset = drm.offset cs2 create.handle in
      (fb_id, offset, map_dumb (record { handle = create.handle; pad = 0; offset = offset }) ∷ cs2)

  abbrev pub make_buffer : DrmModeCreateDumb → Calls → ℕ × Option ℕ × Calls
  make_buffer create cs =
      let (fb_id, offset, cs3) = registered create cs in
      let vaddr = drm.address cs3 create.size offset in
      (fb_id, vaddr, mmap create.size offset vaddr ∷ cs3)

  unfoldable pub create_fb : ℕ → ℕ → Calls → Framebuffer × Calls
  create_fb width height cs =
      let create = filled width height cs in
      let (fb_id, vaddr, cs') = make_buffer create cs in
      (
        record {
          width = width;
          height = height;
          size = create.size;
          handle = create.handle;
          fb_id = fb_id;
          vaddr = vaddr;
        },
        cs',
      )

module _ (drm : Drm) where
  -- `create_fb_`, which nothing calls: the loop that would use `color` is a comment.
  unfoldable pub create_fb_ : ℕ → ℕ → ℕ → Calls → Framebuffer × Calls
  create_fb_ width height color cs =
      let create = filled drm width height cs in
      let (fb_id, vaddr, cs') = make_buffer drm create cs in
      (
        record {
          width = width;
          height = height;
          size = create.size;
          handle = create.handle;
          fb_id = fb_id;
          vaddr = vaddr;
        },
        cs',
      )

-- The two functions that make a frame buffer do the same, whatever the colour.
create_fb-create_fb_ :
    (drm : Drm) (width height color : ℕ) (cs : Calls)
    → create_fb drm width height cs ≡ create_fb_ drm width height color cs
unfolding create_fb create_fb_
create_fb-create_fb_ drm width height color cs = refl

unfoldable pub release_fb : Framebuffer → Calls → Calls
release_fb buf cs =
    destroy_dumb (record { handle = buf.handle }) ∷ munmap buf.vaddr buf.size ∷ rm_fb buf.fb_id ∷ cs

-- Whatever the calls answer, release_fb gives back what create_fb has made: every buffer, frame buffer
-- and mapping is held as often after the two as before.
pub release_fb-create_fb :
    (drm : Drm) (width height : ℕ) (cs : Calls) (h n a : ℕ)
    → (buffers h (release_fb (create_fb drm width height cs).0 (create_fb drm width height cs).1)
        ≡ buffers h cs)
      × (frame_buffers n
            (release_fb (create_fb drm width height cs).0 (create_fb drm width height cs).1)
          ≡ frame_buffers n cs)
      × (mapped a (release_fb (create_fb drm width height cs).0 (create_fb drm width height cs).1)
          ≡ mapped a cs)
unfolding create_fb release_fb
release_fb-create_fb drm width height cs h n a = (ground arith, ground arith, ground arith)
