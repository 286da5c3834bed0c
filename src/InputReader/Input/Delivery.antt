-- ===== src/InputReader/Input/Delivery.antt =====
-- The events that `event_input_listener` of src/inputs/input_reader.c reads and hands to the client.
use dsui.Prelude.{
  ℕ, zero, suc, ◌+◌, ◌<◌, ◌≡◌, ◌↔◌, true, Option, none, some, List, [], ◌∷◌, arith, inl, inr,
  Option-cases, length,
}
use dsui.Prelude.Int.{ℤ, pos}
use dsui.InputReader.Kernel.{Calls, Sys, InputEvent, read_input, epoll_wait, input_callback}
use dsui.InputReader.Listener.{CallbackFunc}
use dsui.InputReader.Input.{int8, has_input_callback, read_ready, event_input_listener}

-- The events handed to the input callback, the latest first, with the device number given.
abbrev pub delivered : Calls → List (InputEvent × ℤ)
delivered [] = []
delivered (input_callback event id ∷ cs) = (event, id) ∷ delivered cs
delivered (_ ∷ cs) = delivered cs

-- The whole events read, the latest first, with the descriptor as an `int8_t`.
abbrev pub events_read : Calls → List (InputEvent × ℤ)
events_read [] = []
events_read (read_input fd (some event) ∷ cs) = (event, int8 fd) ∷ events_read cs
events_read (_ ∷ cs) = events_read cs

module _ (sys : Sys) (cf : Option CallbackFunc) (told : has_input_callback sys cf ≡ true) where
  read_ready_delivers :
      (fds : List ℕ) (cs : Calls)
      → delivered cs ≡ events_read cs
      → delivered (read_ready sys cf fds cs) ≡ events_read (read_ready sys cf fds cs)
  unfolding read_ready
  read_ready_delivers [] cs h = h
  read_ready_delivers (fd ∷ fds) cs h = elim (Option-cases (sys.read_event cs fd)) [
    | inl short ↦
        let ih = read_ready_delivers fds (read_input fd none ∷ cs) h in rw (short, read_ready) ih
    | inr (event, whole) ↦
        let ih =
          read_ready_delivers fds (input_callback event (int8 fd) ∷ read_input fd (some event) ∷ cs)
            (ground arith) in
        rw (whole, told, read_ready) ih
  ]

  -- With an input callback, after any number of rounds the callback has been given every whole event
  -- read from a device once, in the order of the reads, with the descriptor converted to int8_t.
  pub event_input_listener_delivers :
      (n : ℕ) (cs : Calls)
      → delivered cs ≡ events_read cs
      → delivered (event_input_listener sys cf n cs)
        ≡ events_read (event_input_listener sys cf n cs)
  unfolding event_input_listener
  event_input_listener_delivers zero cs h = h
  event_input_listener_delivers (suc n) cs h = elim (Option-cases (sys.wait_fds cs)) [
    | inl failed ↦
        let ih = event_input_listener_delivers n (epoll_wait none ∷ cs) h in
        rw (failed, event_input_listener) ih
    | inr (fds, ready) ↦
        let cs1 = epoll_wait (some (length fds)) ∷ cs in
        let ih =
          event_input_listener_delivers n (read_ready sys cf fds cs1)
            (read_ready_delivers fds cs1 h) in
        rw (ready, event_input_listener) ih
  ]

-- A callback's device_id is the descriptor exactly when that is below 128, and descriptors that
-- differ by 256 have the same device_id.
int8_faithful : (fd : ℕ) → ((int8 fd ≡ pos fd) ↔ (fd < 128)) × (int8 (fd + 256) ≡ int8 fd)
unfolding int8
int8_faithful fd = (((λ e. ground arith), (λ h. ground arith)), ground arith)
