-- ===== src/Program/Draws.antt =====
-- What `produce_frame_buffer` and `consume_frame_buffer` do to the pictures and to what is shown.
use dsui.Prelude.{
  leb, ℕ, ◌+◌, ◌*◌, ◌%◌, ◌^◌, ◌<◌, ◌≡◌, ◌≢◌, refl, Bool, true, false, Option, some, none, arith,
  Option-cases, inl, inr, if◌then◌else◌, ◌==◌, update, get_elem?,
}
use dsui.Mouse.Unsigned
use dsui.Frame.Color.{InTrend, next_color-InTrend, InTrend-color}
use dsui.Frame.{next_color, line_pixel}
use dsui.MBuffer.{BufferTask, p_run, c_run}
use dsui.Screen.Buffers.{Framebuffer}
use dsui.Program.{
  Display, produce_frame_buffer, consume_frame_buffer, start_draw, draw_pixel, at_pixel,
}
use dsui.Program.Picture.{
  IsRow, IsPicture, IsPart, start-IsPart, end-IsPicture, next-IsPart, write-IsPart, pixel_fits,
}
use dsui.Program.Shown.{IsSized, Drawn, Half, Effect, nothing}

if_then :
    {A : Type 0} (P : A → Type 0) (c : Bool) (p q : A)
    → (c ≡ true → P p)
    → (c ≡ false → P q)
    → P (if c then p else q)
if_then P true p q at_p at_q = at_p refl
if_then P false p q at_p at_q = at_q refl

module _ (At : Unsigned.MousePos → Type 0) (width height : ℕ) where
  module _ (small : (width < 2 ^ 16) × (height < 2 ^ 16)) where
    -- The drawing of task `t` into its frame buffer.
    module _ (t : BufferTask) (d : Display) (sized : IsSized At width height d.buf)
        (trend : InTrend d.trend) (calls : t.produce_task ≡ true) {b : Framebuffer} {a : ℕ}
        (e : get_elem? d.buf t.args ≡ some b) (at_a : b.vaddr ≡ some a) where
      its_own :
          (d' : Display)
          → d'.buf ≡ d.buf
          → (b' : Framebuffer) (a' : ℕ) → get_elem? d'.buf t.args ≡ some b'
          → b'.vaddr ≡ some a'
          → a' ≡ a
      its_own d' same b' a' e' at' = ground (arith, e, at_a, e', at', same)

      -- Where the loops are at a row and a column, with all before it drawn.
      loops-Effect :
          (d' : Display) (h w : ℕ)
          → d'.buf ≡ d.buf
          → InTrend d'.trend
          → d'.world.shown ≡ d.world.shown
          → ((t' : BufferTask)
              → t'.args ≢ t.args
              → Drawn At width height d t'
              → Drawn At width height d' t')
          → IsPart At width height d'.trend.g_color (d'.world.video a) h w
          → Effect At width height (p_run (some t)) d d' (at_pixel b.width b.height h w)
      loops-Effect d' h w same trend' unshown others part =
          let (wide, high) = sized.sizes t.args e in
          record {
            same_bufs = same;
            trend = trend';
            keeps = λ t' away. others t' (away t refl);
            draws = λ ended. rw calls (λ b' a' e' at'. rw (its_own d' same b' a' e' at') (
                end-IsPicture At width height d'.trend.g_color (d'.world.video a) h w
                  (InTrend-color d'.trend trend') (rw (wide, high) at ended) part));
            goes_on = λ t' h' w' at go.
                let this : t' ≡ t = cc in
                let (later, lt_h, lt_w) =
                  next-IsPart At width height d'.trend.g_color (d'.world.video a) h w
                    (rw (wide, high) at go) part in
                rw this ((λ b' a' e' at'. rw (its_own d' same b' a' e' at') later), lt_h, lt_w);
            keeps_half = λ not. absurd (not t refl);
            shows = λ h'. rw unshown h';
          }

      start-Effect :
          (d' : Display) × (at' : Option (ℕ × ℕ)) × (start_draw b d ≡ some (d', at'))
          × Effect At width height (p_run (some t)) d d' at'
      start-Effect = (
        _,
        _,
        refl,
        loops-Effect (record d { trend = next_color d.trend }) 0 0 refl
            (next_color-InTrend d.trend trend) refl (λ t' away h. h)
            (start-IsPart At width height _ _),
      )

      pixel-Effect :
          (h w : ℕ)
          → At d.g_mp
          → IsRow d.g_mp.y
          → Half At width height d t h w
          → (d' : Display) × (at' : Option (ℕ × ℕ)) × (draw_pixel b (h, w) d ≡ some (d', at'))
            × Effect At width height (p_run (some t)) d d' at'
      pixel-Effect h w at low (half, lt_h, lt_w) =
          let (wide, high) = sized.sizes t.args e in
          let fits : leb (4 * ((h * b.width + w) % 2 ^ 32 + 1)) b.size ≡ true =
            rw wide (pixel_fits At width height small h w b.size (sized.room t.args e) lt_h lt_w) in
          let pixels =
            update (d.world.video a) ((h * b.width + w) % 2 ^ 32)
              (line_pixel d.g_mp d.trend.g_color h w) in
          let d' : Display = record d {
            world = record d.world { video = update d.world.video a pixels };
          } in
          (
            d',
            at_pixel b.width b.height h (w + 1),
            rw (at_a, fits) refl,
            loops-Effect d' h (w + 1) refl trend refl
                (λ t' away drawn b' a' e' at'.
                  if_then (IsPicture At width height) (a' == a) pixels (d.world.video a')
                    (λ here. absurd (away (sized.own t'.args t.args a e' e (ground arith) at_a)))
                    (λ other. drawn b' a' e' at'))
                (if_then (λ v. IsPart At width height d.trend.g_color v h (w + 1)) (a == a) pixels
                  (d.world.video a)
                  (λ here. rw wide (
                    write-IsPart At width height small d.g_mp d.trend.g_color (d.world.video a) h w
                      lt_h lt_w at low (half b a e at_a)))
                  (λ other. absurd (ground arith))),
          )

    pub produce-Effect :
        (t : BufferTask) (at : Option (ℕ × ℕ)) (d : Display)
        → IsSized At width height d.buf
        → InTrend d.trend
        → At d.g_mp
        → IsRow d.g_mp.y
        → t.produce_task ≡ true
        → ((h w : ℕ) → at ≡ some (h, w) → Half At width height d t h w)
        → (d' : Display) × (at' : Option (ℕ × ℕ)) × (produce_frame_buffer t.args at d
            ≡ some (d', at'))
          × Effect At width height (p_run (some t)) d d' at'
    unfolding produce_frame_buffer
    produce-Effect t at d sized trend here low calls half =
        elim (Option-cases (get_elem? d.buf t.args)) [
          | inl n ↦ (
            d,
            none,
            rw (n, produce_frame_buffer) refl,
            nothing At width height _ d trend
                (rw calls (λ b a e at'. absurd (ground (arith, n, e)))),
          )
          | inr (b, e) ↦
              let (a, at_a) = sized.address t.args e in
              elim (Option-cases at) [
                | inl first ↦
                    rw (e, first, produce_frame_buffer) (start-Effect t d sized trend calls e at_a)
                | inr ((h, w), later) ↦
                    rw (e, later, produce_frame_buffer)
                      (pixel-Effect t d sized trend calls e at_a h w here low (half h w later))
              ]
        ]

  pub consume-Effect :
      (t : BufferTask) (d : Display)
      → IsSized At width height d.buf
      → InTrend d.trend
      → Drawn At width height d t
      → Effect At width height (c_run (some t)) d (consume_frame_buffer t.args d) none
  unfolding consume_frame_buffer
  consume-Effect t d sized trend drawn = elim (Option-cases (get_elem? d.buf t.args)) [
    | inl n ↦ rw (n, consume_frame_buffer) (nothing At width height _ d trend tt)
    | inr (b, e) ↦
        let (a, at_a) = sized.address t.args e in
        rw (e, consume_frame_buffer)
          (record {
            same_bufs = refl;
            trend = trend;
            keeps = λ t' away h. h;
            draws = λ ended. tt;
            goes_on = λ t' h w at go. absurd cc;
            keeps_half = λ away t' h w half. half;
            shows = λ h. (rw at_a (drawn b a e at_a), h);
          })
  ]
