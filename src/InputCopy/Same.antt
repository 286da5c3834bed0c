-- ===== src/InputCopy/Same.antt =====
-- The copy against input_reader.c: what is left of it without the messages.
pub mod Handlers
pub mod Threads
pub mod Program
use dsui.Prelude.{
  ℕ, ◌≡◌, refl, Bool, true, false, ◌&&◌, Option, none, some, List, [], ◌∷◌, ◌++◌, ltb, length,
  arith, if◌then◌else◌, Bool-cases, Option-cases, inl, inr,
}
use dsui.InputReader.Kernel
use dsui.InputReader.Kernel.{Calls, Sys}
use dsui.InputReader.Table
use dsui.InputReader.Table.{HardwareInput, Ret, names_device}
use dsui.InputCopy.{
  Trace, L, pure, ◌>>=◌, ◌>>◌, emit, ask, say, sprint_path, watch_slot, open_slot, fill_slot,
  add_slots, clear_slot, remove_slots, State, with_table, add_his, remove_his,
}

-- A result without the messages.
abbrev pub forget_trace : {A : Type 0} → Option (A × Trace) → Option (A × Calls)
forget_trace none = none
forget_trace (some (a, t)) = some (a, t.calls)

module _ (sys : Sys) (epoll_fd : Option ℕ) where
  open_slot-Same :
      (name : List ℕ) (h : HardwareInput) (t : Trace)
      → forget_trace (open_slot sys epoll_fd name h t) ≡ Table.open_slot sys epoll_fd name h t.calls
  unfolding open_slot Table.open_slot
  open_slot-Same name h t = ground arith

  fill_slot-Same :
      (name : List ℕ) (h : HardwareInput) (t : Trace)
      → forget_trace (fill_slot sys epoll_fd name h t) ≡ Table.fill_slot sys epoll_fd name h t.calls
  unfolding fill_slot Table.fill_slot
  fill_slot-Same name h t = ground (arith, open_slot-Same name h)

  add_slots-Same :
      (name : List ℕ) (hs : List HardwareInput) (t : Trace)
      → forget_trace (add_slots sys epoll_fd name hs t)
        ≡ Table.add_slots sys epoll_fd name hs t.calls
  unfolding add_slots Table.add_slots
  add_slots-Same name [] t = refl
  add_slots-Same name (h ∷ hs) t = ground (arith, fill_slot-Same name h t, add_slots-Same name hs t)

  clear_slot-Same :
      (h : HardwareInput) (t : Trace)
      → forget_trace (clear_slot sys epoll_fd h t) ≡ Table.clear_slot sys epoll_fd h t.calls
  unfolding clear_slot Table.clear_slot
  clear_slot-Same h t = ground arith

  remove_slots-Same :
      (name : List ℕ) (hs : List HardwareInput) (t : Trace)
      → forget_trace (remove_slots sys epoll_fd name hs t)
        ≡ Table.remove_slots sys epoll_fd name hs t.calls
  unfolding remove_slots Table.remove_slots
  remove_slots-Same name [] t = refl
  remove_slots-Same name (h ∷ hs) t =
      ground (arith, clear_slot-Same h t, remove_slots-Same name hs t)

-- The state without the messages.
abbrev pub forget : State → Table.State
forget s = record { his = s.his; calls = s.calls }

abbrev pub forget_result : Option (Ret × State) → Option (Ret × Table.State)
forget_result none = none
forget_result (some (r, s)) = some (r, forget s)

module _ (sys : Sys) (epoll_fd : Option ℕ) where
  pub add_his-Same :
      (name : List ℕ) (s : State)
      → forget_result (add_his sys epoll_fd name s) ≡ Table.add_his sys epoll_fd name (forget s)
  unfolding add_his Table.add_his
  add_his-Same name s =
      ground
        (arith, add_slots-Same sys epoll_fd name s.his (record { calls = s.calls; said = s.said }))

  pub remove_his-Same :
      (name : List ℕ) (s : State)
      → forget_result (remove_his sys epoll_fd name s)
        ≡ Table.remove_his sys epoll_fd name (forget s)
  unfolding remove_his Table.remove_his
  remove_his-Same name s =
      ground (
        arith,
        remove_slots-Same sys epoll_fd name s.his (record { calls = s.calls; said = s.said }),
      )
