-- ===== src/Screen/Slides/Made.antt =====
-- What `create_fb` and `release_fb` of input_show_.c do, when the calls work.
use dsui.Prelude.{
  ◌∷◌, update, ℕ, zero, suc, ◌+◌, ◌*◌, ◌/◌, ◌^◌, ◌<◌, ◌≤◌, ◌≡◌, ◌≢◌, refl, some, ◌==◌, ltb, leb,
  ◌&&◌, if◌then◌else◌, arith,
}
use dsui.Screen.Drm.{World, mmap, Drm, Calls, buffers, frame_buffers, mapped, put_on_screen}
use dsui.Screen.Buffers.{filled, registered}
use dsui.Screen.Slides.{Framebuffer, fill, create_fb}

pub fill_lem :
    (color i count : ℕ) (vaddr : ℕ → ℕ) (k : ℕ)
    → fill color i count vaddr k ≡ (if leb i k && ltb k (i + count) then color else vaddr k)
unfolding fill
fill_lem color i zero vaddr k = ground arith
fill_lem color i (suc count) vaddr k =
    ground (arith, fill_lem color (i + 1) count (update vaddr i color) k)

-- The calls work: `mmap` gives an address where nothing is mapped, and a buffer of this width and
-- height has room for four bytes a pixel and less than 2^34 bytes.
pub record Works (drm : Drm) (addr : Calls → ℕ → ℕ → ℕ) (width height : ℕ) : Type 0 where
  pub maps :
      (cs : Calls) (size offset : ℕ) → drm.address cs size offset ≡ some (addr cs size offset)
  pub fresh : (cs : Calls) (size offset : ℕ) → mapped (addr cs size offset) cs ≡ 0
  pub room : (cs : Calls) → 4 * (height * width) ≤ (drm.dumb cs width height).2
  pub small : (cs : Calls) → (drm.dumb cs width height).2 < 2 ^ 34

-- `create_fb` has made `buf`, at address `a`.
pub record Made (width height color a : ℕ) (w : World) (buf : Framebuffer) (w' : World)
    : Type 0 where
  pub at_address : buf.vaddr ≡ some a
  pub painted : (i : ℕ) → i < height * width → w'.video a i ≡ color
  pub others : (b : ℕ) → b ≢ a → w'.video b ≡ w.video b
  pub same_shown : w'.shown ≡ w.shown
  pub room : 4 * (height * width) ≤ buf.size
  pub unused : mapped a w.calls ≡ 0
  pub maps : (b : ℕ) → mapped b w'.calls ≡ mapped b w.calls + (if b == a then buf.size else 0)
  pub holds : (h : ℕ) → buffers h w'.calls ≡ buffers h w.calls + (if h == buf.handle then 1 else 0)
  pub adds :
      (n : ℕ)
      → frame_buffers n w'.calls ≡ frame_buffers n w.calls + (if n == buf.fb_id then 1 else 0)
  pub same_screen : put_on_screen w'.calls ≡ put_on_screen w.calls

module _ (drm : Drm) (addr : Calls → ℕ → ℕ → ℕ) (width height : ℕ)
    (works : Works drm addr width height) where
  pub create_fb-Made :
      (color : ℕ) (w : World)
      → (a : ℕ) × (buf : Framebuffer) × (w' : World) × (create_fb drm width height color w
          ≡ some (buf, w'))
        × Made width height color a w buf w'
  unfolding create_fb
  create_fb-Made color w =
      let create = filled drm width height w.calls in
      let (fb_id, offset, cs) = registered drm create w.calls in
      let a = addr cs create.size offset in
      let buf : Framebuffer = record {
        size = create.size;
        handle = create.handle;
        fb_id = fb_id;
        vaddr = some a;
      } in
      let w' : World = record w {
        calls = mmap create.size offset (some a) ∷ cs;
        video = update w.video a (fill color 0 (create.size / 4) (w.video a));
      } in
      (
        a,
        buf,
        w',
        ground (arith, works.maps cs create.size offset, works.small w.calls),
        record {
          at_address = refl;
          painted = λ i lt.
              ground (arith, fill_lem color 0 (create.size / 4) (w.video a) i, works.room w.calls);
          others = λ b ne. ground arith;
          same_shown = refl;
          room = works.room w.calls;
          unused = works.fresh cs create.size offset;
          maps = λ b. refl;
          holds = λ h. refl;
          adds = λ n. refl;
          same_screen = refl;
        },
      )
