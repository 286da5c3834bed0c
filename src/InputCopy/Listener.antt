-- ===== src/InputCopy/Listener.antt =====
-- `event_change_listener` of src/inputs/input_reader copy.c, with its messages.
use dsui.Prelude.{
  ◌%◌, ◌*◌, ◌&&◌, ℕ, zero, suc, ◌+◌, ◌^◌, Bool, true, false, Option, none, some, List, [], ◌∷◌, ltb,
  ◌==◌, if◌then◌else◌, length, drop,
}
use dsui.InputReader.Kernel.{
  Call, Sys, ChangeType, added, removed, malloc, stat, opendir, inotify_init, inotify_add_watch,
  read_inotify, event_callback,
}
use dsui.InputReader.Table.{max_events, Ret}
use dsui.InputReader.Listener.{
  CallbackFunc, ◌>>=◌, event_prefix, starts_with, in_create, in_delete, in_isdir, u32_at, c_str,
  has_event_callback, is_zero,
}
use dsui.Log.{bytes, Level, debug, error}
use dsui.InputCopy.{message, about, sprint_path, State, add_his, remove_his}

-- `sizeof(struct inotify_event)`
abbrev event_size : ℕ
event_size = 16

abbrev pub buf_size : ℕ
buf_size = max_events * (event_size + 16)

abbrev pub log : Call → State → State
log c s = record s { calls = c ∷ s.calls }

-- A message of event_change_listener, by its line.
abbrev pub tell : Level → ℕ → List ℕ → State → State
tell level line text s = record s {
  said = message level "event_change_listener" line text ∷ s.said;
}

-- How a loop ended: by its test, in undefined behaviour, or not within the rounds given.
pub data Outcome : Type 0 where
  finished : State → Outcome
  undefined : Outcome
  out_of_fuel : Outcome

module _ (sys : Sys) (epoll_fd : Option ℕ) (cf : Option CallbackFunc) where
  unfoldable pub announce : List ℕ → ChangeType → Ret × State → State
  announce name change (r, s) =
      if is_zero sys epoll_fd cf r s.calls && has_event_callback sys epoll_fd cf
      then log (event_callback name change) s
      else s

  unfoldable pub add_and_announce : List ℕ → State → Option State
  unfolding announce
  add_and_announce name s = do rs ← add_his sys epoll_fd name s; some (announce name added rs)

  unfoldable pub remove_and_announce : List ℕ → State → Option State
  unfolding announce
  remove_and_announce name s = do
    rs ← remove_his sys epoll_fd name s
    some (announce name removed rs)

  -- The entry once `stat` has answered: a directory, and what `stat` fails on, is passed over.
  unfoldable pub handle_file : List ℕ → Option Bool → State → Option State
  unfolding add_and_announce
  handle_file name none s = some s
  handle_file name (some true) s = some s
  handle_file name (some false) s =
      if starts_with event_prefix name
      then add_and_announce name (tell debug 123 (about "find input dev = " name "\n") s)
      else some s

  unfoldable pub handle_path : List ℕ → State → Option State
  unfolding handle_file sprint_path
  handle_path name s = do
    (path, t) ← sprint_path name (record { calls = s.calls; said = s.said })
    handle_file name (sys.stat_dir t.calls path) (log (stat path (sys.stat_dir t.calls path)) s)

  -- One round of the loop over the entries of /dev/input. Its `malloc` is not checked before the
  -- `memset`.
  unfoldable pub handle_entry : List ℕ → State → Option State
  unfolding handle_path
  handle_entry name s =
      if sys.malloc_ok s.calls then handle_path name (log (malloc true) s) else none

  unfoldable pub scan_entries : List (List ℕ) → State → Option State
  unfolding handle_entry
  scan_entries [] s = some s
  scan_entries (name ∷ names) s = do s' ← handle_entry name s; scan_entries names s'

  -- What is done for one inotify record whose `len` is not 0.
  unfoldable pub handle_event : ℕ → Option (List ℕ) → State → Option State
  unfolding add_and_announce remove_and_announce
  handle_event mask name s =
      let create = name >>= λ n.
      if starts_with event_prefix n
      then add_and_announce n (tell debug 168 (about "" n " file added\n") s)
      else some s in
      let delete = name >>= λ n.
      if starts_with event_prefix n
      then remove_and_announce n (tell debug 177 (about "" n " file removed\n") s)
      else some s in
      if in_create mask
      then (if in_isdir mask then some s else create)
      else (if in_delete mask then (if in_isdir mask then some s else delete) else some s)

  -- The record at index `i` of the buffer, and the index of the next, which is converted to an `int`
  -- from a `size_t`: of a negative index the record would be read before the buffer.
  unfoldable pub handle_record : List ℕ → ℕ → State → Option (State × ℕ)
  unfolding handle_event
  handle_record bs i s = do
    mask ← u32_at bs (i + 4)
    len ← u32_at bs (i + 12)
    s' ← if len == 0 then some s else handle_event mask (c_str (drop (i + event_size) bs)) s
    let next = (i + event_size + len) % 2 ^ 32
    if ltb next (2 ^ 31) then some (s', next) else none

  -- `while (i < length)` over the bytes that `read` gave.
  unfoldable pub event_loop : ℕ → List ℕ → ℕ → State → Outcome
  unfolding handle_record
  event_loop zero bs i s = out_of_fuel
  event_loop (suc fuel) bs i s = elim (ltb i (length bs)) [
    | false ↦ finished s
    | true ↦ elim (handle_record bs i s) [
      | none ↦ undefined
      | some (s', i') ↦ event_loop fuel bs i' s'
    ]
  ]

  -- The first `n` rounds of the loop that reads from inotify, with one round more of the inner loop
  -- than there are bytes: each record has 16 at least.
  unfoldable pub read_loop : ℕ → State → Outcome
  unfolding event_loop
  read_loop zero s = finished s
  read_loop (suc n) s = elim (sys.read_events s.calls) [
    | none ↦ read_loop n (log (read_inotify none) s)
    | some bs ↦ elim (event_loop (suc (length bs)) bs 0 (log (read_inotify (some (length bs))) s)) [
      | finished s' ↦ read_loop n s'
      | undefined ↦ undefined
      | out_of_fuel ↦ out_of_fuel
    ]
  ]

  -- The round of the outer loop after `closedir`: whether it gets to the reading, or starts again.
  unfoldable pub start_watch : State → Bool × State
  start_watch s =
      let s1 = log (inotify_init (sys.inotify_fd s.calls)) s in
      elim (sys.inotify_fd s.calls) [
        | none ↦ (false, tell error 144 (bytes "inotify init failed\n") s1)
        | some d ↦
            let s2 = log (inotify_add_watch d (sys.watch_ok s1.calls d)) s1 in
            if sys.watch_ok s1.calls d
            then (true, s2)
            else (false, tell error 151 (bytes "inotify add watch failed\n") s2)
      ]

  unfoldable pub set_up : State → Option (Bool × State)
  unfolding scan_entries start_watch
  set_up s = elim (sys.list_dir s.calls) [
    | none ↦
        some (false, tell error 132 (bytes "open dir /dev/input failed\n") (log (opendir false) s))
    | some names ↦ do s1 ← scan_entries names (log (opendir true) s); some (start_watch s1)
  ]

  -- At most `rounds` rounds of the outer loop, and `reads` reads once one gets to the reading.
  unfoldable pub event_change_listener : ℕ → ℕ → State → Outcome
  unfolding set_up read_loop
  event_change_listener zero reads s = finished s
  event_change_listener (suc rounds) reads s = elim (set_up s) [
    | none ↦ undefined
    | some (true, s') ↦ read_loop reads s'
    | some (false, s') ↦ event_change_listener rounds reads s'
  ]
