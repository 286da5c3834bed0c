-- ===== src/InputReader/Listener/Total/Benign.antt =====
-- How `event_change_listener` ends where the system does what it relies on.
use dsui.Prelude.{
  ℕ, zero, suc, ◌^◌, ◌≤◌, ◌<◌, ◌≡◌, refl, Bool, true, false, Option, none, some, List, [], ◌∷◌,
  arith, inl, inr, Option-cases, length, All,
}
use dsui.InputReader.Kernel.{Calls, Sys, read_inotify, opendir, malloc}
use dsui.InputReader.Table.{State, sprint_path}
use dsui.InputReader.Table.Paths.{max_name, sprint_path_defined}
use dsui.InputReader.Listener.{
  CallbackFunc, Outcome, finished, undefined, out_of_fuel, log, handle_path, handle_entry,
  scan_entries, event_loop, read_loop, set_up, event_change_listener,
}
use dsui.InputReader.Listener.Records.{InotifyRecord, IsRecord, encode_all}
use dsui.InputReader.Listener.Records.Loop.{apply_record, apply_records, outcome, event_loop_reads}
use dsui.InputReader.Listener.Total.{
  >>=-defined, defined, handle_file-defined, handle_event-defined, ne-none-defined,
}

-- What the listener relies on: memory is there, names have at most 244 bytes, and a read from
-- inotify that succeeds gives whole records.
pub record IsBenign (sys : Sys) : Type 0 where
  pub memory : (cs : Calls) → sys.malloc_ok cs ≡ true
  pub short_names :
      (cs : Calls) (names : List (List ℕ))
      → sys.list_dir cs ≡ some names
      → All (λ name. length name ≤ max_name) names
  pub whole_records :
      (cs : Calls) (bs : List ℕ)
      → sys.read_events cs ≡ some bs
      → (rs : List InotifyRecord) × (bs ≡ encode_all rs)
        × All IsRecord rs
        × All (λ r. length r.name ≤ max_name) rs
        × (length bs < 2 ^ 31)

abbrev pub ended : Outcome → Bool
ended (finished s) = true
ended undefined = false
ended out_of_fuel = false

module _ (sys : Sys) (epoll_fd : Option ℕ) (cf : Option CallbackFunc) (benign : IsBenign sys) where
  open benign use {memory, short_names, whole_records}

  handle_entry-defined :
      (name : List ℕ) (s : State)
      → length name ≤ max_name
      → defined (handle_entry sys epoll_fd cf name s) ≡ true
  unfolding handle_entry handle_path
  handle_entry-defined name s short =
      rw (memory s.calls, handle_entry)
        (>>=-defined (sprint_path name (malloc true ∷ s.calls)) _
          (ne-none-defined _ (sprint_path_defined sys epoll_fd name _ short))
          (λ pc. handle_file-defined sys epoll_fd cf name _ _ short))

  scan_entries-defined :
      (names : List (List ℕ)) (s : State)
      → All (λ name. length name ≤ max_name) names
      → defined (scan_entries sys epoll_fd cf names s) ≡ true
  unfolding scan_entries
  scan_entries-defined [] s short = refl
  scan_entries-defined (name ∷ names) s short =
      >>=-defined (handle_entry sys epoll_fd cf name s) _ (handle_entry-defined name s short.0)
        (λ s'. scan_entries-defined names s' short.1)

  apply_records-defined :
      (rs : List InotifyRecord) (s : State)
      → All (λ r. length r.name ≤ max_name) rs
      → defined (apply_records sys epoll_fd cf rs s) ≡ true
  apply_records-defined [] s short = refl
  apply_records-defined (r ∷ rs) s short =
      >>=-defined (apply_record sys epoll_fd cf r s) _
        (ground (arith, handle_event-defined sys epoll_fd cf r.mask r.name s short.0))
        (λ s'. apply_records-defined rs s' short.1)

  read_loop-ended : (n : ℕ) (s : State) → ended (read_loop sys epoll_fd cf n s) ≡ true
  unfolding read_loop
  read_loop-ended zero s = refl
  read_loop-ended (suc n) s = elim (Option-cases (sys.read_events s.calls)) [
    | inl failed ↦
        let ih = read_loop-ended n (log (read_inotify none) s) in rw (failed, read_loop) ih
    | inr (bs, got) ↦
        let (rs, same, whole, short, fits) = whole_records s.calls bs got in
        let s1 = log (read_inotify (some (length bs))) s in
        let loop : event_loop sys epoll_fd cf (suc (length bs)) bs 0 s1
            ≡ outcome sys epoll_fd cf (apply_records sys epoll_fd cf rs s1) =
          rw same (event_loop_reads sys epoll_fd cf rs _ whole (rw same at fits)) in
        rw (got, loop, read_loop)
          (elim (Option-cases (apply_records sys epoll_fd cf rs s1)) [
            | inl bad ↦ absurd (ground (arith, apply_records-defined rs s1 short))
            | inr (s', good) ↦ let ih = read_loop-ended n s' in rw (good, read_loop) ih
          ])
  ]

  set_up-defined : (s : State) → defined (set_up sys epoll_fd cf s) ≡ true
  unfolding set_up
  set_up-defined s = elim (Option-cases (sys.list_dir s.calls)) [
    | inl failed ↦ rw (failed, set_up)
    | inr (names, got) ↦
        rw (got, set_up)
          (>>=-defined (scan_entries sys epoll_fd cf names (log (opendir true) s)) _
            (scan_entries-defined names _ (short_names s.calls names got)) (λ s'. refl))
  ]

  -- If malloc succeeds, names have at most 244 bytes and inotify gives whole records, any number of
  -- rounds and reads of event_change_listener ends in a state: no buffer is read or written outside
  -- its bounds, and the loop over its records ends. The value of a call of add_his or remove_his that
  -- returns nothing is what the system says that it is read as.
  pub event_change_listener-ended :
      (rounds reads : ℕ) (s : State)
      → ended (event_change_listener sys epoll_fd cf rounds reads s) ≡ true
  unfolding event_change_listener
  event_change_listener-ended zero reads s = refl
  event_change_listener-ended (suc rounds) reads s =
      elim (Option-cases (set_up sys epoll_fd cf s)) [
        | inl bad ↦ absurd (ground (arith, set_up-defined s))
        | inr ((true, s'), ready) ↦ rw (ready, event_change_listener) (read_loop-ended reads s')
        | inr ((false, s'), again) ↦
            let ih = event_change_listener-ended rounds reads s' in
            rw (again, event_change_listener) ih
      ]
