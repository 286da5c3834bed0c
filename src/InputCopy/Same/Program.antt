-- ===== src/InputCopy/Same/Program.antt =====
-- The copy as a whole against input_reader.c.
use dsui.Prelude.{
  ℕ, zero, suc, ◌≡◌, refl, Option, none, some, List, [], ◌∷◌, length, arith, Option-cases, inl, inr,
}
use dsui.InputReader.Kernel.{Calls, Sys, epoll_wait, read_input}
use dsui.InputReader.Table
use dsui.InputReader.Table.{HardwareInput}
use dsui.InputReader.Listener
use dsui.InputReader.Listener.{CallbackFunc}
use dsui.InputReader.Input
use dsui.InputCopy.{State}
use dsui.InputCopy.Same.{forget}
use dsui.InputCopy.Same.Threads.{forget_outcome, event_change_listener-Same}
use dsui.InputCopy.Listener.{log, event_change_listener}
use dsui.InputCopy.Input.{
  deliver, read_ready, event_input_listener, init_his, init_epoll_fd, start_threads, init_input,
}

-- Another list of calls, and everything else as before.
abbrev with_calls : State → Calls → State
with_calls s cs = record s { calls = cs }

module _ (sys : Sys) (cf : Option CallbackFunc) where
  read_ready-Same :
      (fds : List ℕ) (s : State)
      → read_ready sys cf fds s ≡ with_calls s (Input.read_ready sys cf fds s.calls)
  unfolding read_ready Input.read_ready deliver Input.deliver
  read_ready-Same [] s = refl
  read_ready-Same (fd ∷ fds) s =
      let event = sys.read_event s.calls fd in
      ground (arith, read_ready-Same fds (deliver sys cf fd event (log (read_input fd event) s)))

  event_input_listener-Same :
      (n : ℕ) (s : State)
      → event_input_listener sys cf n s ≡ with_calls s (Input.event_input_listener sys cf n s.calls)
  unfolding event_input_listener Input.event_input_listener
  event_input_listener-Same zero s = refl
  event_input_listener-Same (suc n) s = elim (Option-cases (sys.wait_fds s.calls)) [
    | inl failed ↦ ground (arith, event_input_listener-Same n (log (epoll_wait none) s))
    | inr (fds, e) ↦
        let s1 = log (epoll_wait (some (length fds))) s in
        ground (
          arith,
          read_ready-Same fds s1,
          event_input_listener-Same n (with_calls s1 (Input.read_ready sys cf fds s1.calls)),
        )
  ]

init_his-Same : (hs : List HardwareInput) → init_his hs ≡ Table.init_his hs
unfolding init_his Table.init_his
init_his-Same [] = refl
init_his-Same (h ∷ hs) = cc

-- A result of init_input without the messages.
abbrev pub forget_start : Table.Ret × Option ℕ × State → Table.Ret × Option ℕ × Table.State
forget_start (r, fd, s) = (r, fd, forget s)

init_input-Same :
    (sys : Sys) (s : State) → forget_start (init_input sys s) ≡ Input.init_input sys (forget s)
unfolding init_input Input.init_input init_epoll_fd Input.init_epoll_fd start_threads
    Input.start_threads
init_input-Same sys s = ground (arith, init_his-Same s.his)

-- Whatever the system answers and however long the threads run, the copy makes the calls that
-- input_reader.c makes, with the same results and the same table: init_input, event_change_listener
-- and event_input_listener, which prints none of the messages.
pub copy_runs_alike :
    (sys : Sys) (epoll_fd : Option ℕ) (cf : Option CallbackFunc) (rounds reads n : ℕ) (s : State)
    → (forget_start (init_input sys s) ≡ Input.init_input sys (forget s))
      × (forget_outcome (event_change_listener sys epoll_fd cf rounds reads s)
          ≡ Listener.event_change_listener sys epoll_fd cf rounds reads (forget s))
      × (event_input_listener sys cf n s
          ≡ record s { calls = Input.event_input_listener sys cf n s.calls })
copy_runs_alike sys epoll_fd cf rounds reads n s = (
  init_input-Same sys s,
  event_change_listener-Same sys epoll_fd cf rounds reads s,
  event_input_listener-Same sys cf n s,
)
