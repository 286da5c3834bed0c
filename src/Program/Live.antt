-- ===== src/Program/Live.antt =====
-- How far a thread of m_buffer_input_show_test.cpp is in the loops of `draw_fb`.
pub mod Finish
pub mod Shows
pub mod Always
use dsui.Prelude.{
  ap, All-append, ◌∙◌, ℕ, zero, suc, ◌+◌, ◌*◌, ◌-◌, ◌^◌, ◌<◌, ◌≤◌, ◌≡◌, ◌⊎◌, refl, Option, none,
  some, List, [], ◌∷◌, ◌++◌, All, arith, Option-cases, inl, inr, get_elem?, Bool-cases,
}
use native.Mathlib.Nat.{suc-mul, mul-le-mul}
use dsui.Mouse.Unsigned
use dsui.Threads
use dsui.MBuffer
use dsui.MBuffer.{BufferTask, Pc, p_run, c_run, step}
use dsui.Screen.Buffers.{Framebuffer}
use dsui.Program.{
  Display, Running, ◌>>=◌, max_produce_thread_num, produce_frame_buffer, consume_frame_buffer,
  start_draw, draw_pixel, at_pixel, effect, turn, run,
}
use dsui.Program.Picture.{IsRow}
use dsui.Program.Shown.{IsSized}
use dsui.Program.Turns.{Good, turn-Good}

-- The number of pixels that the loops of `draw_fb` have behind them, and one for the start.
abbrev pub behind : ℕ → Option (ℕ × ℕ) → ℕ
behind width none = 0
behind width (some (h, w)) = h * width + w + 1

module _ (width height : ℕ) where
  -- One of the pixels.
  abbrev pub Inside : Option (ℕ × ℕ) → Type 0
  Inside none = Unit
  Inside (some (h, w)) = (h < height) × (w < width)

  pub behind-le : (at : Option (ℕ × ℕ)) → Inside at → behind width at ≤ height * width
  behind-le none inside = omega arith
  behind-le (some (h, w)) (lt_h, lt_w) =
      let rows : (h + 1) * width ≤ height * width =
        mul-le-mul {n₁ = h + 1} {m₁ = width} {n₂ = height} {m₂ = width} (omega (arith, lt_h))
          (omega arith) in
      omega (arith, rows, lt_w)

  next_pixel :
      (h w : ℕ) {h' w' : ℕ}
      → w < width
      → at_pixel width height h (w + 1) ≡ some (h', w')
      → ((h' ≡ h) × (w' ≡ w + 1) × (h < height) × (w + 1 < width))
        ⊎ ((h' ≡ h + 1) × (w' ≡ 0) × (w + 1 ≡ width) × (h + 1 < height))
  next_pixel h w lt e = ground arith

  next-behind :
      (h w : ℕ) {h' w' : ℕ}
      → w < width
      → at_pixel width height h (w + 1) ≡ some (h', w')
      → (behind width (some (h', w')) ≡ h * width + w + 1 + 1) × Inside (some (h', w'))
  next-behind h w {h'} {w'} lt e = elim (next_pixel h w lt e) [
    | inl (same, right, inside, lt') ↦ (rw (same, right) (omega arith), (omega arith, omega arith))
    | inr (down, left, full, inside) ↦
        (rw (down, left) (omega (arith, full, suc-mul h width)), (omega arith, omega arith))
  ]

  first-behind :
      {hw : ℕ × ℕ}
      → at_pixel width height 0 0 ≡ some hw
      → (behind width (some hw) ≡ 1) × Inside (some hw)
  first-behind {hw} e = ground (arith, e)

-- While a thread draws, it gets on by one pixel in a turn.
module _ (width height : ℕ) where
  start-behind :
      (d : Display) (b : Framebuffer) {d' : Display} {hw : ℕ × ℕ}
      → (b.width ≡ width) × (b.height ≡ height)
      → start_draw b d ≡ some (d', some hw)
      → (behind width (some hw) ≡ 1) × Inside width height (some hw)
  start-behind d b {d'} {hw} (wide, high) e =
      let first : at_pixel b.width b.height 0 0 ≡ some hw = ground (arith, e) in
      first-behind width height (rw (wide, high) at first)

  pixel-behind :
      (d : Display) (b : Framebuffer) (h w : ℕ) {d' : Display} {hw : ℕ × ℕ}
      → (b.width ≡ width) × (b.height ≡ height)
      → w < width
      → draw_pixel b (h, w) d ≡ some (d', some hw)
      → (behind width (some hw) ≡ h * width + w + 1 + 1) × Inside width height (some hw)
  pixel-behind d b h w {d'} {hw} (wide, high) lt e =
      let next : at_pixel b.width b.height h (w + 1) ≡ some hw = ground (arith, e) in
      next-behind width height h w lt (rw (wide, high) at next)

  effect-behind :
      (At : Unsigned.MousePos → Type 0) (p : Pc) (at : Option (ℕ × ℕ)) (d : Display) {d' : Display}
      {hw : ℕ × ℕ}
      → IsSized At width height d.buf
      → ((t : BufferTask) (h w : ℕ) → p ≡ p_run (some t) → at ≡ some (h, w) → w < width)
      → effect p at d ≡ some (d', some hw)
      → (behind width (some hw) ≡ behind width at + 1) × Inside width height (some hw)
  unfolding effect produce_frame_buffer consume_frame_buffer
  effect-behind At (p_run (some t)) at d {d'} {hw} sized within e =
      elim (Bool-cases t.produce_task) [
        | inr not ↦ absurd (ground (arith, not))
        | inl calls ↦ elim (Option-cases (get_elem? d.buf t.args)) [
          | inl n ↦ absurd (ground (arith, calls, n))
          | inr (b, found) ↦ elim (Option-cases at) [
            | inl begin ↦
                let first : start_draw b d ≡ some (d', some hw) =
                  ground (arith, calls, found, begin, e) in
                rw begin (start-behind d b (sized.sizes t.args found) first)
            | inr ((h, w), go) ↦
                let next : draw_pixel b (h, w) d ≡ some (d', some hw) =
                  ground (arith, calls, found, go, e) in
                rw go (pixel-behind d b h w (sized.sizes t.args found) (within t h w refl go) next)
          ]
        ]
      ]
  effect-behind At (c_run (some t)) at d sized within e = absurd (ground (arith, e))
  effect-behind At p at d sized within e = absurd (ground (arith, e))

  pub turn-behind :
      (At : Unsigned.MousePos → Type 0) (r : Running) (i : ℕ) (mouse : Unsigned.MousePos)
      {r' : Running}
      → IsSized At width height r.display.buf
      → ((t : BufferTask) (h w : ℕ)
          → r.threads.pc i ≡ p_run (some t)
          → r.drawing i ≡ some (h, w)
          → w < width)
      → turn r (i, mouse) ≡ some r'
      → (r'.threads ≡ MBuffer.turn max_produce_thread_num r.threads i)
        ⊎ ((r'.threads ≡ r.threads)
            × (behind width (r'.drawing i) ≡ behind width (r.drawing i) + 1)
            × Inside width height (r'.drawing i))
  unfolding turn Threads.turn
  turn-behind At r i mouse {r'} sized within e =
      elim (Option-cases (step max_produce_thread_num i r.threads.mem (r.threads.pc i))) [
        | inl n ↦ inl (ground arith)
        | inr ((m, p), s) ↦
            let d = record r.display { g_mp = mouse } in
            elim (Option-cases (effect (r.threads.pc i) (r.drawing i) d)) [
              | inl stuck ↦ absurd (ground arith)
              | inr ((d', at), done) ↦ elim (Option-cases at) [
                | inl ended ↦ inl (ground arith)
                | inr (hw, goes_on) ↦
                    let on : effect (r.threads.pc i) (r.drawing i) d ≡ some (d', some hw) =
                      rw goes_on at done in
                    let further =
                      effect-behind At (r.threads.pc i) (r.drawing i) d sized within on in
                    let drawn : r'.drawing i ≡ some hw = ground arith in
                    inr (ground arith, rw drawn further.0, rw drawn further.1)
              ]
            ]
      ]
