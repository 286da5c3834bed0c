-- ===== src/Program/Effects.antt =====
-- What each statement of the multi-buffer model does to the globals of the program.
use dsui.Prelude.{ℕ, ◌^◌, ◌<◌, ◌≡◌, refl, Option, none, some, Bool-cases, inl, inr}
use dsui.Mouse.Unsigned
use dsui.MBuffer.{
  BufferTask, Pc, p_wait, p_trylock, p_take, p_unlock, p_run, p_lock, p_push, p_release, c_wait,
  c_lock, c_take, c_unlock, c_run, c_lock_back, c_push, c_release, t_post, t_post_consumer,
}
use dsui.Frame.Color.{InTrend}
use dsui.Program.{Display, consume_frame_buffer, effect}
use dsui.Program.Ready.{drawn_in_hand, Of}
use dsui.Program.Shown.{IsSized, Drawn, Half, Effect, nothing}
use dsui.Program.Picture.{IsRow}
use dsui.Program.Draws.{produce-Effect, consume-Effect}

module _ (At : Unsigned.MousePos → Type 0) (width height : ℕ)
    (small : (width < 2 ^ 16) × (height < 2 ^ 16)) where
  pub effect_lem :
      (p : Pc) (at : Option (ℕ × ℕ)) (d : Display)
      → IsSized At width height d.buf
      → InTrend d.trend
      → At d.g_mp
      → IsRow d.g_mp.y
      → Of (Drawn At width height d) (drawn_in_hand p)
      → ((t : BufferTask) (h w : ℕ)
          → p ≡ p_run (some t)
          → at ≡ some (h, w)
          → Half At width height d t h w)
      → (d' : Display) × (at' : Option (ℕ × ℕ)) × (effect p at d ≡ some (d', at'))
        × Effect At width height p d d' at'
  unfolding effect
  effect_lem (p_run (some t)) at d sized trend here low hand half =
      elim (Bool-cases t.produce_task) [
        | inl calls ↦
            let (d', at', e, eff) =
              produce-Effect At width height small t at d sized trend here low calls
                (λ h w. half t h w refl) in
            (d', at', rw (calls, effect) e, eff)
        | inr not ↦ (d, none, rw (not, effect) refl, nothing At width height _ d trend (rw not tt))
      ]
  effect_lem (c_run (some t)) at d sized trend here low hand half =
      elim (Bool-cases t.consume_task) [
        | inl calls ↦ (
          consume_frame_buffer t.args d,
          none,
          rw (calls, effect) refl,
          consume-Effect At width height t d sized trend hand,
        )
        | inr not ↦ (d, none, rw (not, effect) refl, nothing At width height _ d trend tt)
      ]
  effect_lem p_wait at d sized trend here low hand half =
      (d, none, refl, nothing At width height _ d trend tt)
  effect_lem p_trylock at d sized trend here low hand half =
      (d, none, refl, nothing At width height _ d trend tt)
  effect_lem p_take at d sized trend here low hand half =
      (d, none, refl, nothing At width height _ d trend tt)
  effect_lem (p_unlock t) at d sized trend here low hand half =
      (d, none, refl, nothing At width height _ d trend tt)
  effect_lem (p_run none) at d sized trend here low hand half =
      (d, none, refl, nothing At width height _ d trend tt)
  effect_lem (p_lock t) at d sized trend here low hand half =
      (d, none, refl, nothing At width height _ d trend tt)
  effect_lem (p_push t) at d sized trend here low hand half =
      (d, none, refl, nothing At width height _ d trend tt)
  effect_lem p_release at d sized trend here low hand half =
      (d, none, refl, nothing At width height _ d trend tt)
  effect_lem c_wait at d sized trend here low hand half =
      (d, none, refl, nothing At width height _ d trend tt)
  effect_lem c_lock at d sized trend here low hand half =
      (d, none, refl, nothing At width height _ d trend tt)
  effect_lem c_take at d sized trend here low hand half =
      (d, none, refl, nothing At width height _ d trend tt)
  effect_lem (c_unlock t) at d sized trend here low hand half =
      (d, none, refl, nothing At width height _ d trend tt)
  effect_lem (c_run none) at d sized trend here low hand half =
      (d, none, refl, nothing At width height _ d trend tt)
  effect_lem (c_lock_back t) at d sized trend here low hand half =
      (d, none, refl, nothing At width height _ d trend tt)
  effect_lem (c_push t) at d sized trend here low hand half =
      (d, none, refl, nothing At width height _ d trend tt)
  effect_lem c_release at d sized trend here low hand half =
      (d, none, refl, nothing At width height _ d trend tt)
  effect_lem (t_post k) at d sized trend here low hand half =
      (d, none, refl, nothing At width height _ d trend tt)
  effect_lem t_post_consumer at d sized trend here low hand half =
      (d, none, refl, nothing At width height _ d trend tt)
