-- ===== src/Mouse/Midway.antt =====
-- Where the pointer of src/examples/input_show/input_show.c is at any time, also in the middle of
-- `test_input_callback`: a coordinate is moved before it is put back into its bounds.
use dsui.Prelude.{◌+◌, ◌-◌, ◌^◌, ◌<◌, ◌≡◌, ◌⊎◌, some, List, All, arith, if◌then◌else◌}
use dsui.Prelude.Int.{ℤ, pos, negsuc, ◌+ℤ◌, ◌≤ℤ◌, +ℤ_parts}
use dsui.InputReader.Kernel.{InputEvent}
use dsui.Mouse.Signed.{MousePos, InBounds, IsModest, leb_ℤ}
use dsui.Mouse.Driven.{mouse_after, mouse_after-InBounds, mouse_after_limits}

-- A coordinate as it was, after the sum, or after the first of the two tests.
abbrev pub Moving : ℤ → ℤ → ℤ → ℤ → Type 0
Moving v d lo v' = (v' ≡ v) ⊎ ((v' ≡ v +ℤ d) ⊎ (v' ≡ (if leb_ℤ (v +ℤ d) lo then lo else v +ℤ d)))

-- The pointer that was at `start` before the events, at some time while the next event is handled.
pub record Reached (start mp' : MousePos) : Type 0 where
  pub events : List (InputEvent × ℤ)
  pub event : InputEvent
  pub mp : MousePos
  pub modest : All (λ e. IsModest e.0.value) events
  pub next_modest : IsModest event.value
  pub follows : mouse_after start events ≡ some mp
  pub across : Moving mp.x event.value mp.min_x mp'.x
  pub down : Moving mp.y event.value mp.min_y mp'.y

-- A coordinate whose distance to each of a picture is an `int`, as is its absolute value.
abbrev pub IsPlace : ℤ → Type 0
IsPlace (pos p) = p < 2 ^ 31
IsPlace (negsuc n) = n + 2 ^ 16 < 2 ^ 31

IsPlace-within : (v : ℤ) → negsuc (2 ^ 30) ≤ℤ v → v ≤ℤ pos (2 ^ 31 - 1) → IsPlace v
IsPlace-within (pos p) low high = omega (arith, high)
IsPlace-within (negsuc n) low high = omega (arith, low)

Moving-IsPlace :
    (v d lo v' : ℤ)
    → IsModest d
    → pos 0 ≤ℤ lo
    → lo ≤ℤ v
    → v ≤ℤ pos (2 ^ 16)
    → Moving v d lo v'
    → IsPlace v'
Moving-IsPlace v d lo v' modest corner low high moving =
    IsPlace-within v' (ground (arith, +ℤ_parts v d)) (ground (arith, +ℤ_parts v d))

pub Reached-IsPlace :
    (start mp' : MousePos)
    → InBounds start
    → (start.min_x ≡ pos 0) × (start.min_y ≡ pos 0)
    → (start.max_x ≤ℤ pos (2 ^ 16)) × (start.max_y ≤ℤ pos (2 ^ 16))
    → Reached start mp'
    → IsPlace mp'.y × IsPlace mp'.x
Reached-IsPlace start mp' inside corner limits reached =
    let mp = reached.mp in
    let (mp1, e, inside1) = mouse_after-InBounds start reached.events inside reached.modest in
    let same : mp1 ≡ mp = ground (arith, e, reached.follows) in
    let inside' : InBounds mp = rw same at inside1 in
    let (min_x, min_y, max_x, max_y) = mouse_after_limits start reached.events reached.follows in
    (
      Moving-IsPlace mp.y reached.event.value mp.min_y mp'.y reached.next_modest
          (ground (arith, min_y, corner)) inside'.down.0
          (ground (arith, inside'.down, max_y, limits)) reached.down,
      Moving-IsPlace mp.x reached.event.value mp.min_x mp'.x reached.next_modest
          (ground (arith, min_x, corner)) inside'.across.0
          (ground (arith, inside'.across, max_x, limits)) reached.across,
    )
