-- ===== src/InputReader/Input.antt =====
-- `event_input_listener`, the thread that reads events and hands them to the client, and
-- `init_input`, which starts both threads (src/inputs/input_reader.c).
pub mod Delivery
pub mod Startup
use dsui.Prelude.{
  ℕ, zero, suc, ◌+◌, ◌-◌, ◌%◌, Bool, true, false, Option, none, some, List, [], ◌∷◌, ltb,
  if◌then◌else◌, length,
}
use dsui.Prelude.Int.{ℤ, pos, negsuc}
use dsui.InputReader.Kernel.{
  Call, Calls, Sys, InputEvent, epoll_create, epoll_wait, read_input, input_callback, thread_create,
}
use dsui.InputReader.Table.{Ret, success, failure, State, HardwareInput, init_his}
use dsui.InputReader.Listener.{CallbackFunc}

-- The conversion of a descriptor to `int8_t`, the type of a callback's `device_id`.
unfoldable pub int8 : ℕ → ℤ
int8 n = if ltb (n % 256) 128 then pos (n % 256) else negsuc (255 - n % 256)

module _ (sys : Sys) (cf : Option CallbackFunc) where
  -- `cf != NULL && cf->input_callback != NULL`
  abbrev pub has_input_callback : Bool
  has_input_callback = elim cf [ none ↦ false | some c ↦ c.input_callback ]

  -- `none` is a read that gave less than a whole event.
  unfoldable pub deliver : ℕ → Option InputEvent → Calls → Calls
  deliver fd none cs = cs
  deliver fd (some event) cs =
      if has_input_callback then input_callback event (int8 fd) ∷ cs else cs

  -- The loop over the descriptors that `epoll_wait` gave.
  unfoldable pub read_ready : List ℕ → Calls → Calls
  unfolding deliver
  read_ready [] cs = cs
  read_ready (fd ∷ fds) cs =
      let event = sys.read_event cs fd in
      read_ready fds (deliver fd event (read_input fd event ∷ cs))

  -- The first `n` rounds of `event_input_listener`.
  unfoldable pub event_input_listener : ℕ → Calls → Calls
  unfolding read_ready
  event_input_listener zero cs = cs
  event_input_listener (suc n) cs = elim (sys.wait_fds cs) [
    | none ↦ event_input_listener n (epoll_wait none ∷ cs)
    | some fds ↦ event_input_listener n (read_ready fds (epoll_wait (some (length fds)) ∷ cs))
  ]

module _ (sys : Sys) where
  -- What it returns, and the new `g_epoll_fd`.
  unfoldable pub init_epoll_fd : Calls → Ret × Option ℕ × Calls
  init_epoll_fd cs =
      let fd = sys.epoll_fd cs in
      let ret : Ret = elim fd [ none ↦ failure | some _ ↦ success ] in
      (ret, fd, epoll_create fd ∷ cs)

  unfoldable pub start_threads : Calls → Ret × Calls
  start_threads cs =
      let cs1 = thread_create (sys.thread_ok cs) ∷ cs in
      let cs2 = thread_create (sys.thread_ok cs1) ∷ cs1 in
      if sys.thread_ok cs
      then (if sys.thread_ok cs1 then (success, cs2) else (failure, cs2))
      else (failure, cs1)

  -- What it returns, the new `g_epoll_fd` and the other globals. The result of init_epoll_fd is not
  -- used.
  unfoldable pub init_input : State → Ret × Option ℕ × State
  unfolding init_epoll_fd start_threads init_his
  init_input s =
      let (ret, fd, cs1) = init_epoll_fd s.calls in
      let (r, cs) = start_threads cs1 in (r, fd, record { his = init_his s.his; calls = cs })
