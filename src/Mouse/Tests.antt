-- ===== src/Mouse/Tests.antt =====
-- The two mice on concrete events.
use dsui.Prelude.{
  ◌+◌, ◌-◌, ◌≡◌, refl, true, false, Option, none, some, [], ◌∷◌, arith, if◌then◌else◌, leb,
}
use dsui.Prelude.Int.{pos, negsuc, ◌+ℤ◌}
use dsui.InputReader.Kernel.{Sys, InputEvent}
use dsui.InputReader.Listener.{CallbackFunc}
use dsui.InputReader.Input.{event_input_listener}
use dsui.InputReader.Input.Delivery.{delivered, events_read}
use dsui.Mouse.Signed
use dsui.Mouse.Unsigned
use dsui.Mouse.Driven.{mouse_after, mouse_follows_events}

-- A relative move by -5 along x.
abbrev left_5 : InputEvent
left_5 = record { type = 2; code = 0; value = negsuc 4 }

-- Every round finds a move on descriptor 3.
abbrev moving : Sys
moving = record {
  malloc_ok = λ _. true;
  open_fd = λ _ _. some 3;
  add_ok = λ _ _ _. true;
  del_ok = λ _ _ _. true;
  epoll_fd = λ _. some 4;
  stat_dir = λ _ _. some false;
  list_dir = λ _. some [];
  inotify_fd = λ _. some 5;
  watch_ok = λ _ _. true;
  read_events = λ _. none;
  wait_fds = λ _. some (3 ∷ []);
  read_event = λ _ _. some left_5;
  thread_ok = λ _. true;
  junk_is_zero = λ _. false;
}

abbrev client : Option CallbackFunc
client = some (record { input_callback = true; event_callback = true })

abbrev signed_at_3 : Signed.MousePos
signed_at_3 = record {
  x = pos 3;
  y = pos 640;
  max_x = pos 800;
  max_y = pos 1280;
  min_x = pos 0;
  min_y = pos 0;
}

abbrev unsigned_at_3 : Unsigned.MousePos
unsigned_at_3 = record { x = 3; y = 640; max_x = 800; max_y = 1280; min_x = 0; min_y = 0 }

abbrev screen : Unsigned.Mouse
screen = record { g_mp = unsigned_at_3; g_last_mp = record unsigned_at_3 { x = 4 } }

signed_inside : Signed.InBounds signed_at_3
signed_inside = record {
  across = omega arith;
  down = omega arith;
  wide = omega arith;
  high = omega arith;
}

-- The signed pointer stops at the left edge, the unsigned one goes to the right edge.
signed_left_5 :
    Signed.test_input_callback left_5 signed_at_3 ≡ some (record signed_at_3 { x = pos 0 })
unfolding Signed.test_input_callback ◌+ℤ◌
signed_left_5 = refl

unsigned_left_5 :
    Unsigned.test_input_callback left_5 unsigned_at_3 ≡ record unsigned_at_3 { x = 800 }
unfolding Unsigned.test_input_callback
unsigned_left_5 = refl

move_left_example :
    Unsigned.move 3 (negsuc 4) 0 800
    ≡ (if leb 3 4 then 800 else (if leb (3 - (4 + 1)) 0 then 0 else 3 - (4 + 1)))
move_left_example =
    Unsigned.move_left 3 4 0 800 (omega arith) (omega arith) (omega arith) (omega arith)

mouse_follows_events_example :
    (mp : Signed.MousePos) × (mouse_after signed_at_3
        (delivered (event_input_listener moving client 2 []))
      ≡ some mp)
    × (mouse_after signed_at_3 (events_read (event_input_listener moving client 2 [])) ≡ some mp)
    × Signed.InBounds mp
unfolding event_input_listener
mouse_follows_events_example =
    mouse_follows_events moving client 2 signed_at_3 refl signed_inside (omega arith)
