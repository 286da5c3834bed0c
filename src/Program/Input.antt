-- ===== src/Program/Input.antt =====
-- m_buffer_input_show_test.cpp with the thread that moves the mouse: `test_input_callback` statement by
-- statement, so that the threads of the multi-buffer model can run between two of them and see the
-- pointer before it is put back into its bounds.
pub mod Reach
pub mod Together
pub mod Pictures
mod Tests
use dsui.Prelude.{
  ℕ, ◌+◌, ◌%◌, ◌^◌, Option, some, get_elem?, ◌≡◌, ◌<◌, List, [], ◌∷◌, ◌==◌, leb, if◌then◌else◌,
}
use dsui.InputReader.Kernel.{InputEvent}
use dsui.Mouse.Signed.{IsModest}
use dsui.Mouse.Unsigned
use dsui.Mouse.Unsigned.{ev_rel, rel_x, rel_y, uint32}
use dsui.Program.{Running, ◌>>=◌, turn}

-- What the input thread does next: take the next event, or one of the tests after a move.
pub data Statement : Type 0 where
  next_event test_min_x test_max_x test_min_y test_max_y : Statement

-- A statement of `test_input_callback`; at `next_event` it is called with the event.
pub callback_step : InputEvent → Statement → Unsigned.MousePos → Statement × Unsigned.MousePos
callback_step event next_event mp =
    if event.type == ev_rel
    then (if event.code == rel_x
        then (test_min_x, record mp { x = (mp.x + uint32 event.value) % 2 ^ 32 })
        else (if event.code == rel_y
            then (test_min_y, record mp { y = (mp.y + uint32 event.value) % 2 ^ 32 })
            else (next_event, mp)))
    else (next_event, mp)
callback_step event test_min_x mp =
    (test_max_x, if leb mp.x mp.min_x then record mp { x = mp.min_x } else mp)
callback_step event test_max_x mp =
    (next_event, if leb mp.max_x mp.x then record mp { x = mp.max_x } else mp)
callback_step event test_min_y mp =
    (test_max_y, if leb mp.y mp.min_y then record mp { y = mp.min_y } else mp)
callback_step event test_max_y mp =
    (next_event, if leb mp.max_y mp.y then record mp { y = mp.max_y } else mp)

pub record Whole : Type 0 where
  pub rest : Running
  pub input : Statement

-- A turn of a thread of the multi-buffer model, or one of the input thread, with the event that is
-- the next for it.
pub data Turn : Type 0 where
  of_thread : ℕ → Turn
  of_input : InputEvent → Turn

-- The program with the pointer at a place.
abbrev pub with_mouse : Unsigned.MousePos → Running → Running
with_mouse mp r = record r { display = record r.display { g_mp = mp } }

unfoldable pub whole_turn : Whole → Turn → Option Whole
whole_turn w (of_thread i) = do
  r ← turn w.rest (i, w.rest.display.g_mp)
  some (record w { rest = r })
whole_turn w (of_input event) =
    let (s, mp) = callback_step event w.input w.rest.display.g_mp in
    some (record { rest = with_mouse mp w.rest; input = s })

-- The turns of a schedule, first to last.
unfoldable pub whole_run : Whole → List Turn → Option Whole
unfolding whole_turn
whole_run w [] = some w
whole_run w (t ∷ ts) = do w' ← whole_turn w t; whole_run w' ts

-- Where the pointer is in the course of a schedule.
abbrev pub positions : Statement → Unsigned.MousePos → List Turn → List Unsigned.MousePos
positions s mp [] = mp ∷ []
positions s mp (of_thread i ∷ ts) = positions s mp ts
positions s mp (of_input event ∷ ts) =
    let (s', mp') = callback_step event s mp in mp ∷ positions s' mp' ts

-- The turns of the other threads, with the place of the pointer that they see.
abbrev pub others : Statement → Unsigned.MousePos → List Turn → List (ℕ × Unsigned.MousePos)
others s mp [] = []
others s mp (of_thread i ∷ ts) = (i, mp) ∷ others s mp ts
others s mp (of_input event ∷ ts) = let (s', mp') = callback_step event s mp in others s' mp' ts

abbrev pub Among : List Unsigned.MousePos → Unsigned.MousePos → Type 0
Among mps mp = (k : ℕ) × (get_elem? mps k ≡ some mp)

-- One of the threads below `n`, or an event whose value is less than 2^30 in size.
abbrev pub Allowed : ℕ → Turn → Type 0
Allowed n (of_thread i) = i < n
Allowed n (of_input event) = IsModest event.value
