-- ===== src/Mouse/Driven.antt =====
-- The mouse of input_show.c behind the thread `event_input_listener` of src/inputs/input_reader.c,
-- which calls test_input_callback with the events it reads.
use dsui.Prelude.{
  ◌++◌, ◌∙◌, inr, inl, Option-cases, arith, ℕ, ◌≡◌, refl, true, Option, none, some, List, [], ◌∷◌,
  All,
}
use dsui.Prelude.Int.{ℤ}
use dsui.InputReader.Kernel.{Sys, InputEvent}
use dsui.InputReader.Listener.{CallbackFunc}
use dsui.InputReader.Input.{has_input_callback, event_input_listener}
use dsui.InputReader.Input.Delivery.{delivered, events_read, event_input_listener_delivers}
use dsui.Mouse.Signed.{
  callback_keeps_limits, MousePos, InBounds, IsModest, test_input_callback, callback_keeps_bounds,
}

-- The pointer after the callbacks for these events, the latest first.
unfoldable pub mouse_after : MousePos → List (InputEvent × ℤ) → Option MousePos
mouse_after mp [] = some mp
mouse_after mp ((event, id) ∷ events) = elim (mouse_after mp events) [
  | none ↦ none
  | some mp' ↦ test_input_callback event mp'
]

pub mouse_after-InBounds :
    (mp : MousePos) (events : List (InputEvent × ℤ))
    → InBounds mp
    → All (λ e. IsModest e.0.value) events
    → (mp' : MousePos) × (mouse_after mp events ≡ some mp') × InBounds mp'
unfolding mouse_after
mouse_after-InBounds mp [] inv modest = (mp, refl, inv)
mouse_after-InBounds mp ((event, id) ∷ events) inv modest =
    let (mp1, e1, inv1) = mouse_after-InBounds mp events inv modest.1 in
    let (mp2, e2, inv2) = callback_keeps_bounds event mp1 inv1 modest.0 in
    (mp2, rw (e1, mouse_after) e2, inv2)

pub mouse_after_limits :
    (mp : MousePos) (events : List (InputEvent × ℤ)) {mp' : MousePos}
    → mouse_after mp events ≡ some mp'
    → (mp'.min_x ≡ mp.min_x)
      × (mp'.min_y ≡ mp.min_y)
      × (mp'.max_x ≡ mp.max_x)
      × (mp'.max_y ≡ mp.max_y)
unfolding mouse_after
mouse_after_limits mp [] e = ground arith
mouse_after_limits mp ((event, id) ∷ events) {mp'} e = elim (Option-cases (mouse_after mp events)) [
  | inl n ↦ ground arith
  | inr (mp1, n) ↦
      let later : test_input_callback event mp1 ≡ some mp' = rw n at e in
      let before = mouse_after_limits mp events n in
      let last = callback_keeps_limits event mp1 later in
      (last.0 ∙ before.0, last.1 ∙ before.1, last.2 ∙ before.2, last.3 ∙ before.3)
]

pub mouse_after-append :
    (mp : MousePos) (later earlier : List (InputEvent × ℤ)) {mp' : MousePos}
    → mouse_after mp earlier ≡ some mp'
    → mouse_after mp (later ++ earlier) ≡ mouse_after mp' later
unfolding mouse_after
mouse_after-append mp [] earlier e = e
mouse_after-append mp ((event, id) ∷ later) earlier e =
    rw (mouse_after-append mp later earlier e) refl

-- After any number of rounds of event_input_listener with an input callback, if the values of the
-- events read are less than 2^30 in size, the pointer that started within bounds of at most 2^30 has
-- followed all the events read, without undefined behaviour, and is within bounds.
pub mouse_follows_events :
    (sys : Sys) (cf : Option CallbackFunc) (n : ℕ) (mp : MousePos)
    → has_input_callback sys cf ≡ true
    → InBounds mp
    → All (λ e. IsModest e.0.value) (events_read (event_input_listener sys cf n []))
    → (mp' : MousePos) × (mouse_after mp (delivered (event_input_listener sys cf n [])) ≡ some mp')
      × (mouse_after mp (events_read (event_input_listener sys cf n [])) ≡ some mp')
      × InBounds mp'
mouse_follows_events sys cf n mp told inv modest =
    let (mp', e, inv') =
      mouse_after-InBounds mp (events_read (event_input_listener sys cf n [])) inv modest in
    (mp', rw (event_input_listener_delivers sys cf told n [] refl) e, e, inv')
