-- ===== src/Program/Input/Reach.antt =====
-- Where `test_input_callback` of m_buffer_input_show_test.cpp can have put the pointer between two of its
-- statements.
use dsui.Prelude.{
  suc, ◌==◌, Bool-cases, inl, inr, ◌%◌, ℕ, ◌+◌, ◌^◌, ◌<◌, ◌≤◌, refl, List, [], ◌∷◌, arith, All,
}
use dsui.Prelude.Int.{ℤ, pos, negsuc}
use dsui.InputReader.Kernel.{InputEvent}
use dsui.Mouse.Signed.{IsModest}
use dsui.Mouse.Unsigned
use dsui.Mouse.Unsigned.{ev_rel, rel_x, rel_y, InBounds, test_input_callback}
use dsui.Program.Picture.{IsRow}
use dsui.Program.Input.{
  Statement, next_event, test_min_x, test_max_x, test_min_y, test_max_y, callback_step, Turn,
  of_thread, of_input, positions, others, Among, Allowed,
}

-- Within its bounds, but in the direction in which it is being moved.
abbrev InReach : Statement → Unsigned.MousePos → Type 0
InReach next_event mp = InBounds mp
InReach test_min_x mp = (mp.min_y ≤ mp.y) × (mp.y ≤ mp.max_y)
InReach test_max_x mp = (mp.min_x ≤ mp.x) × (mp.min_y ≤ mp.y) × (mp.y ≤ mp.max_y)
InReach test_min_y mp = (mp.min_x ≤ mp.x) × (mp.x ≤ mp.max_x) × IsRow mp.y
InReach test_max_y mp = (mp.min_x ≤ mp.x) × (mp.x ≤ mp.max_x) × (mp.min_y ≤ mp.y) × IsRow mp.y

pub record Bounded (mp : Unsigned.MousePos) : Type 0 where
  pub across : mp.min_x ≤ mp.max_x
  pub down : mp.min_y ≤ mp.max_y
  pub low : mp.max_y < 2 ^ 30

callback_step-Bounded :
    (event : InputEvent) (s : Statement) (mp : Unsigned.MousePos)
    → Bounded mp
    → Bounded (callback_step event s mp).1
unfolding callback_step
callback_step-Bounded event next_event mp b = record {
  across = ground (arith, b.across);
  down = ground (arith, b.down);
  low = ground (arith, b.low);
}
callback_step-Bounded event s mp b = record {
  across = ground (arith, b.across);
  down = ground (arith, b.down);
  low = ground (arith, b.low);
}

moved-IsRow : (y : ℕ) (d : ℤ) → y < 2 ^ 30 → IsModest d → IsRow ((y + Unsigned.uint32 d) % 2 ^ 32)
moved-IsRow y (pos n) low modest = inl (omega (arith, modest))
moved-IsRow y (negsuc n) low modest = ground (arith, modest)

callback_step-InReach :
    (event : InputEvent) (s : Statement) (mp : Unsigned.MousePos)
    → IsModest event.value
    → Bounded mp
    → InReach s mp
    → InReach (callback_step event s mp).0 (callback_step event s mp).1
unfolding callback_step
callback_step-InReach event next_event mp modest b reach =
    elim (Bool-cases (event.type == ev_rel)) [
      | inr other ↦ rw (other, callback_step) reach
      | inl rel ↦ elim (Bool-cases (event.code == rel_x)) [
        | inl across ↦ rw (rel, across, callback_step) (reach.top, reach.bottom)
        | inr not_x ↦ elim (Bool-cases (event.code == rel_y)) [
          | inl down ↦
              rw (rel, not_x, down, callback_step)
                (
                  reach.left,
                  reach.right,
                  moved-IsRow mp.y event.value (omega (arith, reach.bottom, b.low)) modest,
                )
          | inr not_y ↦ rw (rel, not_x, not_y, callback_step) reach
        ]
      ]
    ]
callback_step-InReach event test_min_x mp modest b reach = ground (arith, b.across, reach)
callback_step-InReach event test_max_x mp modest b reach = record {
  left = ground (arith, b.across, reach);
  right = ground (arith, reach);
  top = ground (arith, reach);
  bottom = ground (arith, reach);
}
callback_step-InReach event test_min_y mp modest b reach = ground (arith, b.down, b.low, reach)
callback_step-InReach event test_max_y mp modest b reach = record {
  left = ground (arith, reach);
  right = ground (arith, reach);
  top = ground (arith, b.down, reach);
  bottom = ground (arith, reach);
}

now-Among : (s : Statement) (mp : Unsigned.MousePos) (ts : List Turn) → Among (positions s mp ts) mp
now-Among s mp [] = (0, refl)
now-Among s mp (of_thread i ∷ ts) = now-Among s mp ts
now-Among s mp (of_input event ∷ ts) = (0, refl)

InReach-IsRow : (s : Statement) (mp : Unsigned.MousePos) → Bounded mp → InReach s mp → IsRow mp.y
InReach-IsRow next_event mp b reach = inl (omega (arith, reach.bottom, b.low))
InReach-IsRow test_min_x mp b reach = inl (omega (arith, reach, b.low))
InReach-IsRow test_max_x mp b reach = inl (omega (arith, reach, b.low))
InReach-IsRow test_min_y mp b reach = reach.2
InReach-IsRow test_max_y mp b reach = reach.3

-- Each thread sees the pointer at a place where it is in the course of the schedule, in a row whose
-- distances are integers.
pub others-Among :
    (At : Unsigned.MousePos → Type 0) (n : ℕ) (ts : List Turn) (s : Statement)
    (mp : Unsigned.MousePos)
    → ((mp' : Unsigned.MousePos) → Among (positions s mp ts) mp' → At mp')
    → All (Allowed n) ts
    → Bounded mp
    → InReach s mp
    → All (λ j. (j.0 < n) × At j.1 × IsRow j.1.y) (others s mp ts)
others-Among At n [] s mp at ok b reach = tt
others-Among At n (of_thread i ∷ ts) s mp at (lt, ok) b reach = (
  (lt, at mp (now-Among s mp ts), InReach-IsRow s mp b reach),
  others-Among At n ts s mp at ok b reach,
)
others-Among At n (of_input event ∷ ts) s mp at (modest, ok) b reach =
    others-Among At n ts (callback_step event s mp).0 (callback_step event s mp).1
      (λ mp' (k, e). at mp' (suc k, e)) ok (callback_step-Bounded event s mp b)
      (callback_step-InReach event s mp modest b reach)
