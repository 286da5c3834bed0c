-- ===== src/InputReader/Listener.antt =====
-- The thread that keeps the table in step with /dev/input: `event_change_listener`
-- (src/inputs/input_reader.c). It scans the directory, then follows the records that inotify writes.
pub mod Keeps
pub mod Sync
pub mod Records
pub mod Total
use dsui.Prelude.{
  ℕ, zero, suc, ◌+◌, ◌*◌, ◌/◌, ◌%◌, ◌^◌, Bool, true, false, not, ◌&&◌, Option, none, some, List, [],
  ◌∷◌, ltb, ◌==◌, if◌then◌else◌, length, get_elem?, drop,
}
use dsui.InputReader.Kernel.{
  Call, Calls, Sys, ChangeType, added, removed, malloc, stat, opendir, inotify_init,
  inotify_add_watch, read_inotify, event_callback,
}
use dsui.InputReader.Table.{
  max_events, Ret, success, failure, no_return, sprint_path, State, add_his, remove_his,
}

infixl 5 ◌>>=◌
abbrev pub ◌>>=◌ : {A B : Type 0} → Option A → (A → Option B) → Option B
none >>= f = none
some a >>= f = f a

-- `struct callback_func`: which of the two pointers are set.
pub record CallbackFunc : Type 0 where
  pub input_callback : Bool
  pub event_callback : Bool

-- "event"
abbrev pub event_prefix : List ℕ
event_prefix = b'e' ∷ b'v' ∷ b'e' ∷ b'n' ∷ b't' ∷ []

-- `strncmp(name, prefix, strlen(prefix)) == 0`
abbrev pub starts_with : List ℕ → List ℕ → Bool
starts_with [] name = true
starts_with (p ∷ ps) [] = false
starts_with (p ∷ ps) (c ∷ cs) = (p == c) && starts_with ps cs

-- `mask & IN_CREATE`, `mask & IN_DELETE`, `mask & IN_ISDIR`
abbrev pub in_create : ℕ → Bool
in_create mask = mask / 0x100 % 2 == 1

abbrev pub in_delete : ℕ → Bool
in_delete mask = mask / 0x200 % 2 == 1

abbrev pub in_isdir : ℕ → Bool
in_isdir mask = mask / 0x4000_0000 % 2 == 1

-- `sizeof(struct inotify_event)`
abbrev pub event_size : ℕ
event_size = 16

abbrev pub buf_size : ℕ
buf_size = max_events * (event_size + 16)

-- A `uint32_t` in memory, its low byte first; `none` is a read past the bytes that are there.
abbrev pub u32_at : List ℕ → ℕ → Option ℕ
u32_at bs i = do
  b0 ← get_elem? bs i
  b1 ← get_elem? bs (i + 1)
  b2 ← get_elem? bs (i + 2)
  b3 ← get_elem? bs (i + 3)
  some (b0 + 256 * b1 + 65536 * b2 + 16777216 * b3)

-- The string that begins there; `none` if no terminator follows.
abbrev pub c_str : List ℕ → Option (List ℕ)
c_str [] = none
c_str (b ∷ bs) =
    let rest : Option (List ℕ) = do s ← c_str bs; some (b ∷ s)
    in if b == 0 then some [] else rest

abbrev pub log : Call → State → State
log c s = record s { calls = c ∷ s.calls }

-- How a loop ended: by its test, in undefined behaviour, or not within the rounds given.
pub data Outcome : Type 0 where
  finished : State → Outcome
  undefined : Outcome
  out_of_fuel : Outcome

module _ (sys : Sys) (epoll_fd : Option ℕ) (cf : Option CallbackFunc) where
  -- `cf != NULL && cf->event_callback != NULL`
  abbrev pub has_event_callback : Bool
  has_event_callback = elim cf [ none ↦ false | some c ↦ c.event_callback ]

  -- `!ret`, where `ret` is what a call gave back.
  abbrev pub is_zero : Ret → Calls → Bool
  is_zero success cs = true
  is_zero failure cs = false
  is_zero no_return cs = sys.junk_is_zero cs

  unfoldable pub announce : List ℕ → ChangeType → Ret × State → State
  announce name change (r, s) =
      if is_zero r s.calls && has_event_callback then log (event_callback name change) s else s

  unfoldable pub add_and_announce : List ℕ → State → Option State
  unfolding announce
  add_and_announce name s = do rs ← add_his sys epoll_fd name s; some (announce name added rs)

  unfoldable pub remove_and_announce : List ℕ → State → Option State
  unfolding announce
  remove_and_announce name s = do
    rs ← remove_his sys epoll_fd name s
    some (announce name removed rs)

  -- The entry once `stat` has answered: a directory, and what `stat` fails on, is passed over.
  unfoldable pub handle_file : List ℕ → Option Bool → State → Option State
  unfolding add_and_announce
  handle_file name none s = some s
  handle_file name (some true) s = some s
  handle_file name (some false) s =
      if starts_with event_prefix name then add_and_announce name s else some s

  unfoldable pub handle_path : List ℕ → State → Option State
  unfolding handle_file sprint_path
  handle_path name s = do
    (path, cs) ← sprint_path name s.calls
    handle_file name (sys.stat_dir cs path) (log (stat path (sys.stat_dir cs path)) s)

  -- One round of the loop over the entries of /dev/input. Its `malloc` is not checked before the
  -- `memset`.
  unfoldable pub handle_entry : List ℕ → State → Option State
  unfolding handle_path
  handle_entry name s =
      if sys.malloc_ok s.calls then handle_path name (log (malloc true) s) else none

  unfoldable pub scan_entries : List (List ℕ) → State → Option State
  scan_entries [] s = some s
  scan_entries (name ∷ names) s = do s' ← handle_entry name s; scan_entries names s'

  -- What is done for one inotify record whose `len` is not 0.
  unfoldable pub handle_event : ℕ → Option (List ℕ) → State → Option State
  unfolding add_and_announce remove_and_announce
  handle_event mask name s =
      let create =
        name >>= λ n. if starts_with event_prefix n then add_and_announce n s else some s in
      let delete =
        name >>= λ n. if starts_with event_prefix n then remove_and_announce n s else some s in
      if in_create mask
      then (if in_isdir mask then some s else create)
      else (if in_delete mask then (if in_isdir mask then some s else delete) else some s)

  -- The record at index `i` of the buffer, and the index of the next, which is converted to an `int`
  -- from a `size_t`: of a negative index the record would be read before the buffer.
  unfoldable pub handle_record : List ℕ → ℕ → State → Option (State × ℕ)
  unfolding handle_event
  handle_record bs i s = do
    mask ← u32_at bs (i + 4)
    len ← u32_at bs (i + 12)
    s' ← if len == 0 then some s else handle_event mask (c_str (drop (i + event_size) bs)) s
    let next = (i + event_size + len) % 2 ^ 32
    if ltb next (2 ^ 31) then some (s', next) else none

  -- `while (i < length)` over the bytes that `read` gave.
  unfoldable pub event_loop : ℕ → List ℕ → ℕ → State → Outcome
  event_loop zero bs i s = out_of_fuel
  event_loop (suc fuel) bs i s = elim (ltb i (length bs)) [
    | false ↦ finished s
    | true ↦ elim (handle_record bs i s) [
      | none ↦ undefined
      | some (s', i') ↦ event_loop fuel bs i' s'
    ]
  ]

  -- The first `n` rounds of the loop that reads from inotify. Each record has 16 bytes at least, so
  -- the bytes themselves bound the rounds of the inner loop.
  unfoldable pub read_loop : ℕ → State → Outcome
  unfolding event_loop
  read_loop zero s = finished s
  read_loop (suc n) s = elim (sys.read_events s.calls) [
    | none ↦ read_loop n (log (read_inotify none) s)
    | some bs ↦ elim (event_loop (suc (length bs)) bs 0 (log (read_inotify (some (length bs))) s)) [
      | finished s' ↦ read_loop n s'
      | undefined ↦ undefined
      | out_of_fuel ↦ out_of_fuel
    ]
  ]

  -- The round of the outer loop after `closedir`: whether it gets to the reading, or starts again.
  -- The descriptor of inotify is not closed when `inotify_add_watch` fails.
  unfoldable pub start_watch : State → Bool × State
  start_watch s =
      let s1 = log (inotify_init (sys.inotify_fd s.calls)) s in
      elim (sys.inotify_fd s.calls) [
        | none ↦ (false, s1)
        | some d ↦ (sys.watch_ok s1.calls d, log (inotify_add_watch d (sys.watch_ok s1.calls d)) s1)
      ]

  unfoldable pub set_up : State → Option (Bool × State)
  unfolding scan_entries handle_entry start_watch
  set_up s = elim (sys.list_dir s.calls) [
    | none ↦ some (false, log (opendir false) s)
    | some names ↦ do s1 ← scan_entries names (log (opendir true) s); some (start_watch s1)
  ]

  -- At most `rounds` rounds of the outer loop, and `reads` reads once one gets to the reading.
  unfoldable pub event_change_listener : ℕ → ℕ → State → Outcome
  unfolding set_up read_loop
  event_change_listener zero reads s = finished s
  event_change_listener (suc rounds) reads s = elim (set_up s) [
    | none ↦ undefined
    | some (true, s') ↦ read_loop reads s'
    | some (false, s') ↦ event_change_listener rounds reads s'
  ]
