-- ===== src/InputReader/Input/Startup.antt =====
-- The listener thread from the call of `init_input` on.
use dsui.Prelude.{ℕ, ◌≡◌, refl, true, false, Option, List, [], ◌∷◌, arith}
use dsui.InputReader.Kernel.{Calls, Sys}
use dsui.InputReader.Table.{State, HardwareInput, init_his}
use dsui.InputReader.Table.Accounting.{Accounted, live}
use dsui.InputReader.Table.Copies.{copies}
use dsui.InputReader.Listener.{CallbackFunc, has_event_callback, event_change_listener}
use dsui.InputReader.Listener.Keeps.{EndsIn}
use dsui.InputReader.Listener.Sync.{InSync, listener-Accounted, listener-InSync}
use dsui.InputReader.Input.{init_input}

live-init_his : (d : ℕ) (hs : List HardwareInput) → live d (init_his hs) ≡ 0
unfolding init_his
live-init_his d [] = refl
live-init_his d (h ∷ hs) = omega (arith, live-init_his d hs)

copies-init_his : (nm : List ℕ) (hs : List HardwareInput) → copies nm (init_his hs) ≡ 0
unfolding init_his
copies-init_his nm [] = refl
copies-init_his nm (h ∷ hs) = omega (arith, copies-init_his nm hs)

module _ (sys : Sys) (his : List HardwareInput) where
  -- The globals when `init_input` is called: it is the first to use them.
  abbrev pub at_start : State
  at_start = record { his = his; calls = [] }

  abbrev pub started : State
  started = (init_input sys at_start).2

  started-Accounted : Accounted started
  unfolding init_input
  started-Accounted d = ground (arith, live-init_his d his)

  started-InSync : InSync started
  unfolding init_input
  started-InSync nm = ground (arith, copies-init_his nm his)

  -- From the call of init_input on, whatever the system answers and however long the listener has run:
  -- if the client set an event callback and a call that returns nothing is never read as 0, every
  -- descriptor of a device is open and watched exactly as often as slots in use hold it, and the
  -- client has been told of each device's arrival once more than of its removal for each slot in use
  -- for it.
  pub program_in_step :
      (cf : Option CallbackFunc) (rounds reads : ℕ)
      → has_event_callback sys (init_input sys at_start).1 cf ≡ true
      → ((cs : Calls) → sys.junk_is_zero cs ≡ false)
      → EndsIn Accounted
          (event_change_listener sys (init_input sys at_start).1 cf rounds reads started)
        × EndsIn InSync
            (event_change_listener sys (init_input sys at_start).1 cf rounds reads started)
  program_in_step cf rounds reads told junk = (
    listener-Accounted sys _ cf rounds reads started started-Accounted,
    listener-InSync sys _ cf told junk rounds reads started started-InSync,
  )
