-- ===== src/InputCopy/Same/Threads.antt =====
-- `event_change_listener` of the copy against that of input_reader.c.
use dsui.Prelude.{
  sym, ℕ, zero, suc, ◌≡◌, refl, true, false, Option, none, some, List, length, arith, Option-cases,
  inl, inr,
}
use dsui.InputReader.Kernel.{Sys, read_inotify, opendir}
use dsui.InputReader.Listener
use dsui.InputReader.Listener.{CallbackFunc, event_prefix, starts_with, event_size, u32_at, c_str}
use dsui.InputCopy.{State}
use dsui.InputCopy.Same.{forget}
use dsui.InputCopy.Listener.{
  log, Outcome, finished, undefined, out_of_fuel, scan_entries, handle_record, event_loop,
  read_loop, start_watch, set_up, event_change_listener,
}
use dsui.InputCopy.Same.Handlers.{forget_round, scan_entries-Same, handle_record-Same}

abbrev pub forget_outcome : Outcome → Listener.Outcome
forget_outcome (finished s) = Listener.finished (forget s)
forget_outcome undefined = Listener.undefined
forget_outcome out_of_fuel = Listener.out_of_fuel

module _ (sys : Sys) (epoll_fd : Option ℕ) (cf : Option CallbackFunc) where
  event_loop-Same :
      (fuel : ℕ) (bs : List ℕ) (i : ℕ) (s : State)
      → forget_outcome (event_loop sys epoll_fd cf fuel bs i s)
        ≡ Listener.event_loop sys epoll_fd cf fuel bs i (forget s)
  unfolding event_loop Listener.event_loop
  event_loop-Same zero bs i s = refl
  event_loop-Same (suc fuel) bs i s = elim (Option-cases (handle_record sys epoll_fd cf bs i s)) [
    | inl n ↦ ground (arith, handle_record-Same sys epoll_fd cf bs i s)
    | inr ((s', i'), e) ↦
        ground (arith, handle_record-Same sys epoll_fd cf bs i s, event_loop-Same fuel bs i' s')
  ]

  after_buffer-Same :
      (n : ℕ) (o : Outcome)
      → ((s : State)
          → forget_outcome (read_loop sys epoll_fd cf n s)
            ≡ Listener.read_loop sys epoll_fd cf n (forget s))
      → forget_outcome (elim o [
        | finished s ↦ read_loop sys epoll_fd cf n s
        | undefined ↦ undefined
        | out_of_fuel ↦ out_of_fuel
      ])
        ≡ elim (forget_outcome o) [
          | Listener.finished s ↦ Listener.read_loop sys epoll_fd cf n s
          | Listener.undefined ↦ Listener.undefined
          | Listener.out_of_fuel ↦ Listener.out_of_fuel
        ]
  after_buffer-Same n (finished s) same = same s
  after_buffer-Same n undefined same = refl
  after_buffer-Same n out_of_fuel same = refl

  read_loop-Same :
      (n : ℕ) (s : State)
      → forget_outcome (read_loop sys epoll_fd cf n s)
        ≡ Listener.read_loop sys epoll_fd cf n (forget s)
  unfolding read_loop Listener.read_loop
  read_loop-Same zero s = refl
  read_loop-Same (suc n) s = elim (Option-cases (sys.read_events s.calls)) [
    | inl failed ↦
        rw (failed, read_loop, Listener.read_loop, forget_outcome)
          (read_loop-Same n (log (read_inotify none) s))
    | inr (bs, e) ↦
        let s1 = log (read_inotify (some (length bs))) s in
        let o = event_loop sys epoll_fd cf (suc (length bs)) bs 0 s1 in
        let same = event_loop-Same (suc (length bs)) bs 0 s1 in
        rw (e, sym same, read_loop, Listener.read_loop, forget_outcome)
          (after_buffer-Same n o (read_loop-Same n))
  ]

  start_watch-Same :
      (s : State)
      → forget_round (some (start_watch sys epoll_fd cf s))
        ≡ some (Listener.start_watch sys epoll_fd cf (forget s))
  unfolding start_watch Listener.start_watch
  start_watch-Same s = ground arith

  set_up-Same :
      (s : State)
      → forget_round (set_up sys epoll_fd cf s) ≡ Listener.set_up sys epoll_fd cf (forget s)
  unfolding set_up Listener.set_up
  set_up-Same s = elim (Option-cases (sys.list_dir s.calls)) [
    | inl failed ↦ rw (failed, set_up, Listener.set_up, forget_round) refl
    | inr (names, e) ↦
        let start = log (opendir true) s in
        let scanned = scan_entries-Same sys epoll_fd cf names start in
        elim (Option-cases (scan_entries sys epoll_fd cf names start)) [
          | inl n ↦ rw (e, sym scanned, n, set_up, Listener.set_up, forget_round) refl
          | inr (s', found) ↦
              rw (e, sym scanned, found, set_up, Listener.set_up, forget_round)
                (start_watch-Same s')
        ]
  ]

  pub event_change_listener-Same :
      (rounds reads : ℕ) (s : State)
      → forget_outcome (event_change_listener sys epoll_fd cf rounds reads s)
        ≡ Listener.event_change_listener sys epoll_fd cf rounds reads (forget s)
  unfolding event_change_listener Listener.event_change_listener
  event_change_listener-Same zero reads s = refl
  event_change_listener-Same (suc rounds) reads s = elim (Option-cases (set_up sys epoll_fd cf s)) [
    | inl n ↦
        rw (sym (set_up-Same s), n, event_change_listener, Listener.event_change_listener) refl
    | inr ((true, s'), e) ↦
        rw (sym (set_up-Same s), e, event_change_listener, Listener.event_change_listener)
          (read_loop-Same reads s')
    | inr ((false, s'), e) ↦
        rw (sym (set_up-Same s), e, event_change_listener, Listener.event_change_listener)
          (event_change_listener-Same rounds reads s')
  ]
