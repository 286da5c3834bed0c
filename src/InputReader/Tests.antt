-- ===== src/InputReader/Tests.antt =====
-- input_reader.c against a system that answers every request, and one whose table is full.
use dsui.Prelude.{
  ℕ, suc, ◌+◌, ◌<◌, ◌≡◌, ◌↔◌, refl, true, false, Option, none, some, List, [], ◌∷◌, ◌++◌, arith,
  ◌==◌, if◌then◌else◌, length, replicate,
}
use dsui.Prelude.Int.{pos}
use dsui.InputReader.Kernel.{Calls, Sys, InputEvent, read_inotify}
use dsui.InputReader.Table.{
  unused_input, max_events, dev_input, success, no_return, State, add_his, remove_his,
}
use dsui.InputReader.Table.Accounting.{Accounted}
use dsui.InputReader.Table.Names.{devices, remove, finds_none, table_is_a_bag}
use dsui.Prelude.{str_eq, put}
use dsui.InputReader.Table.Copies.{copies, fell_off}
use dsui.InputReader.Table.Paths.{Grants, max_name, add_his_overflow, remove_his-add_his}
use dsui.InputReader.Listener.{CallbackFunc, event_change_listener, event_loop, out_of_fuel}
use dsui.InputReader.Listener.Keeps.{EndsIn}
use dsui.InputReader.Listener.Sync.{InSync}
use dsui.InputReader.Listener.Records.{InotifyRecord, IsRecord, encode, encode_all}
use dsui.InputReader.Listener.Records.Loop.{apply_records, outcome, event_loop_reads}
use dsui.InputReader.Listener.Total.{endless, event_loop_never_ends}
use dsui.InputReader.Listener.Total.Benign.{IsBenign, ended, event_change_listener-ended}
use dsui.InputReader.Input.{init_input, event_input_listener}
use dsui.InputReader.Input.Delivery.{delivered, events_read, event_input_listener_delivers}
use dsui.InputReader.Input.Startup.{program_in_step, at_start, started}

-- "event3"
abbrev event3 : List ℕ
event3 = b'e' ∷ b'v' ∷ b'e' ∷ b'n' ∷ b't' ∷ b'3' ∷ []

abbrev created : InotifyRecord
created = record { wd = 1; mask = 0x100; cookie = 0; name = event3; padding = 10 }

abbrev deleted : InotifyRecord
deleted = record { wd = 1; mask = 0x200; cookie = 0; name = event3; padding = 10 }

abbrev reads_done : Calls → ℕ
reads_done [] = 0
reads_done (read_inotify _ ∷ cs) = suc (reads_done cs)
reads_done (_ ∷ cs) = reads_done cs

-- A name of 250 bytes.
abbrev long_name : List ℕ
long_name = replicate 250 b'e'

abbrev move : InputEvent
move = record { type = 2; code = 0; value = pos 4 }

abbrev entries : List (List ℕ)
entries = (b'm' ∷ b'i' ∷ b'c' ∷ b'e' ∷ []) ∷ event3 ∷ []

-- /dev/input holds "mice" and "event3"; inotify reports the removal of "event3" and then nothing.
abbrev sys : Sys
sys = record {
  malloc_ok = λ _. true;
  open_fd = λ cs _. some (3 + length cs);
  add_ok = λ _ _ _. true;
  del_ok = λ _ _ _. true;
  epoll_fd = λ _. some 3;
  stat_dir = λ _ _. some false;
  list_dir = λ _. some entries;
  inotify_fd = λ _. some 5;
  watch_ok = λ _ _. true;
  read_events = λ cs. if reads_done cs == 0 then some (encode_all (deleted ∷ [])) else none;
  wait_fds = λ _. some (200 ∷ []);
  read_event = λ _ _. some move;
  thread_ok = λ _. true;
  junk_is_zero = λ _. false;
}

-- The same, but what a call leaves behind without `return` is read as 0.
abbrev sloppy : Sys
sloppy = record sys { junk_is_zero = λ _. true }

abbrev client : Option CallbackFunc
client = some (record { input_callback = true; event_callback = true })

-- Two free slots.
abbrev small_table : State
small_table = record { his = unused_input ∷ unused_input ∷ []; calls = [] }

abbrev one_device : State
one_device = record {
  his =
      record {
        is_avaiable = true;
        device_name = some (dev_input ++ event3);
        ev_fd = some 7;
        ev_events = 1;
      }
      ∷ unused_input
      ∷ [];
  calls = [];
}

abbrev full_table : State
full_table = record {
  his = replicate max_events (record unused_input { is_avaiable = true });
  calls = [];
}

full_table_refuses : add_his sys none event3 full_table ≡ some (no_return, full_table)
unfolding add_his
full_table_refuses = refl

after_removal :
    (s : State) × (remove_his sys none event3 one_device ≡ some (success, s))
    × (copies event3 s.his ≡ 0)
unfolding remove_his
after_removal = (_, refl, refl)

add_his_overflow_example :
    (add_his sys none long_name small_table ≡ none) ↔ (max_name < length long_name)
add_his_overflow_example = add_his_overflow sys none long_name small_table refl (omega arith)

sys-Grants : Grants sys
sys-Grants = record {
  memory = λ _. refl;
  opens = λ _ _ e. cc;
  adds = λ _ _ _. refl;
  deletes = λ _ _ _. refl;
}

remove_his-add_his_example :
    (s' : State) × (s'' : State) × (add_his sys none event3 small_table ≡ some (success, s'))
    × (remove_his sys none event3 s' ≡ some (success, s''))
    × ((nm : List ℕ) → copies nm s''.his ≡ copies nm small_table.his)
remove_his-add_his_example =
    remove_his-add_his sys none event3 small_table sys-Grants (omega arith) (omega arith)

created-IsRecord : IsRecord created
created-IsRecord = omega arith

deleted-IsRecord : IsRecord deleted
deleted-IsRecord = omega arith

event_loop_reads_example :
    event_loop sys none client
      (suc (length (encode_all (created ∷ deleted ∷ []))))
      (encode_all (created ∷ deleted ∷ []))
      0
      small_table
    ≡ outcome sys none client (apply_records sys none client (created ∷ deleted ∷ []) small_table)
unfolding encode
event_loop_reads_example =
    event_loop_reads sys none client (created ∷ deleted ∷ []) small_table
      (created-IsRecord, (deleted-IsRecord, tt)) (omega arith)

event_loop_never_ends_example :
    event_loop sys none client 1000 (endless ++ (1 ∷ 2 ∷ [])) 0 small_table ≡ out_of_fuel
event_loop_never_ends_example = event_loop_never_ends sys none client 1000 (1 ∷ 2 ∷ []) small_table

sys-IsBenign : IsBenign sys
unfolding encode
sys-IsBenign = record {
  memory = λ _. refl;
  short_names = λ cs names e. let e' : names ≡ entries = cc in rw e' (omega arith);
  whole_records = λ cs bs e.
      let e' : bs ≡ encode_all (deleted ∷ []) = ground arith in
      (deleted ∷ [], e', (deleted-IsRecord, tt), omega arith, rw e' (omega arith));
}

event_change_listener-ended_example :
    ended (event_change_listener sys none client 2 3 small_table) ≡ true
event_change_listener-ended_example =
    event_change_listener-ended sys none client sys-IsBenign 2 3 small_table

program_in_step_example :
    EndsIn Accounted (
      event_change_listener sys
        (init_input sys (at_start sys small_table.his)).1
        client
        2
        3
        (started sys small_table.his))
    × EndsIn InSync (
        event_change_listener sys
          (init_input sys (at_start sys small_table.his)).1
          client
          2
          3
          (started sys small_table.his))
program_in_step_example = program_in_step sys small_table.his client 2 3 refl (λ _. refl)

event_input_listener_delivers_example :
    delivered (event_input_listener sys client 2 [])
    ≡ events_read (event_input_listener sys client 2 [])
event_input_listener_delivers_example = event_input_listener_delivers sys client refl 2 [] refl

table_is_a_bag_example :
    (devices one_device ≡ put str_eq event3 (devices after_removal.0))
    × (fell_off success ≡ finds_none (remove event3) one_device)
table_is_a_bag_example = table_is_a_bag sys none (remove event3) one_device after_removal.1
