-- ===== src/InputCopy/Tests.antt =====
-- The copy against a system that answers every request, with one free slot and one in use.
use dsui.Prelude.{Option, ℕ, ◌≡◌, refl, true, none, some, List, [], ◌∷◌, ◌++◌, map}
use dsui.Prelude.Int.{pos}
use dsui.InputReader.Kernel.{Sys}
use dsui.InputReader.Table.{HardwareInput, unused_input, dev_input, success}
use dsui.InputReader.Listener.{CallbackFunc}
use dsui.InputReader.Listener
use dsui.InputReader.Input
use dsui.Log.{bytes, dslog, default_level}
use dsui.InputCopy.{dslog_tag, State, add_his}
use dsui.InputCopy.Listener.{event_change_listener}
use dsui.InputCopy.Input.{init_input, event_input_listener}
use dsui.InputCopy.Same.{forget}
use dsui.InputCopy.Same.Threads.{forget_outcome}
use dsui.InputCopy.Same.Program.{forget_start, copy_runs_alike}

abbrev sys : Sys
sys = record {
  malloc_ok = λ _. true;
  open_fd = λ _ _. some 9;
  add_ok = λ _ _ _. true;
  del_ok = λ _ _ _. true;
  epoll_fd = λ _. some 3;
  stat_dir = λ _ _. none;
  list_dir = λ _. some (bytes "event3" ∷ []);
  inotify_fd = λ _. some 5;
  watch_ok = λ _ _. true;
  read_events = λ _. none;
  wait_fds = λ _. some (9 ∷ []);
  read_event = λ _ _. some (record { type = 2; code = 0; value = pos 4 });
  thread_ok = λ _. true;
  junk_is_zero = λ _. true;
}

abbrev client : Option CallbackFunc
client = some (record { input_callback = true; event_callback = true })

abbrev in_use : HardwareInput
in_use = record {
  is_avaiable = true;
  device_name = some (dev_input ++ bytes "event3");
  ev_fd = some 8;
  ev_events = 1;
}

abbrev half_full : State
half_full = record { his = in_use ∷ unused_input ∷ []; calls = []; said = [] }

-- The first message is printed as the file would print it.
added_line :
    (s : State) × (add_his sys (some 3) (bytes "event4") half_full ≡ some (success, s))
    × (map (dslog default_level dslog_tag) s.said
        ≡ (bytes "I/DS_INPUT(add_his 72):add device /dev/input/event4 successful\n" ∷ []) ∷ [])
unfolding add_his dslog
added_line = (_, refl, refl)

copy_runs_alike_example :
    (forget_start (init_input sys half_full) ≡ Input.init_input sys (forget half_full))
    × (forget_outcome (event_change_listener sys (some 3) client 2 3 half_full)
        ≡ Listener.event_change_listener sys (some 3) client 2 3 (forget half_full))
    × (event_input_listener sys client 4 half_full
        ≡ record half_full { calls = Input.event_input_listener sys client 4 half_full.calls })
copy_runs_alike_example = copy_runs_alike sys (some 3) client 2 3 4 half_full

abbrev path : List ℕ
path = dev_input ++ bytes "event3"
