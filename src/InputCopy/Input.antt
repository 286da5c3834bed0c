-- ===== src/InputCopy/Input.antt =====
-- `event_input_listener`, `init_his`, `init_epoll_fd` and `init_input` of src/inputs/input_reader
-- copy.c.
use dsui.Prelude.{ℕ, zero, suc, false, Option, none, some, List, [], ◌∷◌, if◌then◌else◌, length}
use dsui.InputReader.Kernel.{
  Sys, InputEvent, epoll_create, epoll_wait, read_input, input_callback, thread_create,
}
use dsui.InputReader.Table.{Ret, success, failure, HardwareInput}
use dsui.InputReader.Listener.{CallbackFunc}
use dsui.InputReader.Input.{int8, has_input_callback}
use dsui.Log.{bytes, error}
use dsui.InputCopy.{State, message}
use dsui.InputCopy.Listener.{log}

module _ (sys : Sys) (cf : Option CallbackFunc) where
  -- `none` is a read that gave less than a whole event.
  unfoldable pub deliver : ℕ → Option InputEvent → State → State
  deliver fd none s = s
  deliver fd (some event) s =
      if has_input_callback sys cf then log (input_callback event (int8 fd)) s else s

  -- The loop over the descriptors that `epoll_wait` gave.
  unfoldable pub read_ready : List ℕ → State → State
  unfolding deliver
  read_ready [] s = s
  read_ready (fd ∷ fds) s =
      let event = sys.read_event s.calls fd in
      read_ready fds (deliver fd event (log (read_input fd event) s))

  -- The first `n` rounds.
  unfoldable pub event_input_listener : ℕ → State → State
  unfolding read_ready
  event_input_listener zero s = s
  event_input_listener (suc n) s = elim (sys.wait_fds s.calls) [
    | none ↦ event_input_listener n (log (epoll_wait none) s)
    | some fds ↦ event_input_listener n (read_ready fds (log (epoll_wait (some (length fds))) s))
  ]

unfoldable pub init_his : List HardwareInput → List HardwareInput
init_his [] = []
init_his (h ∷ hs) = record h { ev_fd = none; device_name = none; is_avaiable = false } ∷ init_his hs

module _ (sys : Sys) where
  -- What it returns, and the new `g_epoll_fd`.
  unfoldable pub init_epoll_fd : State → Ret × Option ℕ × State
  init_epoll_fd s =
      let s1 = log (epoll_create (sys.epoll_fd s.calls)) s in
      let failed = message error "init_epoll_fd" 41 (bytes "epoll create failed\n") in
      elim (sys.epoll_fd s.calls) [
        | none ↦ (failure, none, record s1 { said = failed ∷ s.said })
        | some fd ↦ (success, some fd, s1)
      ]

  unfoldable pub start_threads : State → Ret × State
  start_threads s =
      let s1 = log (thread_create (sys.thread_ok s.calls)) s in
      let s2 = log (thread_create (sys.thread_ok s1.calls)) s1 in
      if sys.thread_ok s.calls
      then (if sys.thread_ok s1.calls then (success, s2) else (failure, s2))
      else (failure, s1)

  -- What it returns, and the new `g_epoll_fd`. The result of init_epoll_fd is not used.
  unfoldable pub init_input : State → Ret × Option ℕ × State
  unfolding init_epoll_fd init_his start_threads
  init_input s =
      let (ret, fd, s1) = init_epoll_fd s in
      let (r, s2) = start_threads (record s1 { his = init_his s.his }) in (r, fd, s2)
