-- ===== src/Program/Shown.antt =====
-- What a step of a thread of the program does to the pictures in the frame buffers and to what is shown.
use dsui.Prelude.{◌≤◌, ◌*◌, ℕ, ◌<◌, ◌≡◌, ◌≢◌, refl, Option, some, none, List, All, get_elem?}
use dsui.Mouse.Unsigned
use dsui.MBuffer.{BufferTask, Pc, p_run}
use dsui.Frame.Color.{InTrend}
use dsui.Screen.Buffers.{Framebuffer}
use dsui.Program.{Display}
use dsui.Program.Picture.{IsPicture, IsPart}
use dsui.Program.Ready.{drawn_now, Of}

-- A thread at this statement draws into no frame buffer that the task is about.
abbrev pub Elsewhere : Pc → BufferTask → Type 0
Elsewhere p t' = (t : BufferTask) → p ≡ p_run (some t) → t'.args ≢ t.args

module _ (At : Unsigned.MousePos → Type 0) (width height : ℕ) where
  -- Every frame buffer is of this size, has room for four bytes a pixel, and is mapped at an address of its own.
  pub record IsSized (bufs : List Framebuffer) : Type 0 where
    pub sizes :
        (k : ℕ) {b : Framebuffer}
        → get_elem? bufs k ≡ some b
        → (b.width ≡ width) × (b.height ≡ height)
    pub room : (k : ℕ) {b : Framebuffer} → get_elem? bufs k ≡ some b → 4 * (height * width) ≤ b.size
    pub address :
        (k : ℕ) {b : Framebuffer} → get_elem? bufs k ≡ some b → (a : ℕ) × (b.vaddr ≡ some a)
    pub own :
        (j k a : ℕ) {b c : Framebuffer}
        → get_elem? bufs j ≡ some b
        → get_elem? bufs k ≡ some c
        → b.vaddr ≡ some a
        → c.vaddr ≡ some a
        → j ≡ k

  -- What holds of the pixels of the frame buffer that a task is about.
  abbrev pub InBuffer : ((ℕ → ℕ) → Type 0) → Display → BufferTask → Type 0
  InBuffer P d t =
      (b : Framebuffer) (a : ℕ)
      → get_elem? d.buf t.args ≡ some b
      → b.vaddr ≡ some a
      → P (d.world.video a)

  -- There is a whole picture in it.
  abbrev pub Drawn : Display → BufferTask → Type 0
  Drawn d t = InBuffer (IsPicture At width height) d t

  -- There is a picture in it up to the pixel that is written next.
  abbrev pub Half : Display → BufferTask → ℕ → ℕ → Type 0
  Half d t h w =
      InBuffer (λ pixels. IsPart At width height d.trend.g_color pixels h w) d t
      × (h < height)
      × (w < width)

  abbrev pub AllPictures : List (ℕ × (ℕ → ℕ)) → Type 0
  AllPictures shown = All (λ s. IsPicture At width height s.1) shown

  -- What a step does to the globals, if it ends at `at'`.
  pub record Effect (p : Pc) (d d' : Display) (at' : Option (ℕ × ℕ)) : Type 0 where
    pub same_bufs : d'.buf ≡ d.buf
    pub trend : InTrend d'.trend
    pub keeps : (t : BufferTask) → Elsewhere p t → Drawn d t → Drawn d' t
    pub draws : at' ≡ none → Of (Drawn d') (drawn_now p)
    pub goes_on :
        (t : BufferTask) (h w : ℕ) → p ≡ p_run (some t) → at' ≡ some (h, w) → Half d' t h w
    pub keeps_half :
        ((t : BufferTask) → p ≢ p_run (some t))
        → (t : BufferTask) (h w : ℕ) → Half d t h w
        → Half d' t h w
    pub shows : AllPictures d.world.shown → AllPictures d'.world.shown

  pub nothing :
      (p : Pc) (d : Display) → InTrend d.trend → Of (Drawn d) (drawn_now p) → Effect p d d none
  nothing p d trend now = record {
    same_bufs = refl;
    trend = trend;
    keeps = λ t away h. h;
    draws = λ e. now;
    goes_on = λ t h w at e. absurd cc;
    keeps_half = λ away t h w half. half;
    shows = λ h. h;
  }
