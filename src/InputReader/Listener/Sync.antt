-- ===== src/InputReader/Listener/Sync.antt =====
-- The descriptors that are open, the table, and what the client has been told, over the whole run of
-- `event_change_listener`.
use dsui.Prelude.{ℕ, ◌+◌, ◌≡◌, true, false, Option, List, arith, inl, inr, Option-cases}
use dsui.InputReader.Kernel.{
  Call, Calls, Sys, ChangeType, added, removed, malloc, stat, opendir, inotify_init,
  inotify_add_watch, read_inotify,
}
use dsui.InputReader.Table.{Ret, State, add_his, remove_his}
use dsui.InputReader.Table.Accounting.{Accounted, add_his-Accounted, remove_his-Accounted}
use dsui.InputReader.Table.Copies.{copies, add_his-copies, remove_his-copies}
use dsui.InputReader.Table.Reports.{reports, add_his-reports, remove_his-reports}
use dsui.InputReader.Listener.{
  CallbackFunc, log, announce, add_and_announce, remove_and_announce, event_change_listener,
  has_event_callback,
}
use dsui.InputReader.Listener.Keeps.{
  neutral, Holds, nothing, just, EndsIn, event_change_listener_keeps,
}

announce-Accounted :
    (sys : Sys) (epoll_fd : Option ℕ) (cf : Option CallbackFunc) (name : List ℕ) (c : ChangeType)
    (r : Ret) (s : State)
    → Accounted s
    → Accounted (announce sys epoll_fd cf name c (r, s))
unfolding announce
announce-Accounted sys e cf name c r s a d = ground (arith, a d)

log-Accounted : (c : Call) (s : State) → neutral c ≡ true → Accounted s → Accounted (log c s)
log-Accounted (malloc x) s n a d = a d
log-Accounted (stat x y) s n a d = a d
log-Accounted (opendir x) s n a d = a d
log-Accounted (inotify_init x) s n a d = a d
log-Accounted (inotify_add_watch x y) s n a d = a d
log-Accounted (read_inotify x) s n a d = a d
log-Accounted c s n a d = cc

module _ (sys : Sys) (epoll_fd : Option ℕ) (cf : Option CallbackFunc) where
  keep_add :
      (name : List ℕ) (s : State)
      → Accounted s
      → Holds Accounted (add_and_announce sys epoll_fd cf name s)
  unfolding add_and_announce
  keep_add name s a = elim (Option-cases (add_his sys epoll_fd name s)) [
    | inl bad ↦ rw (bad, add_and_announce) nothing
    | inr ((r, s'), done) ↦
        rw (done, add_and_announce)
          (just (
            announce-Accounted sys epoll_fd cf name added r s'
              (add_his-Accounted sys epoll_fd name s done a)))
  ]

  keep_remove :
      (name : List ℕ) (s : State)
      → Accounted s
      → Holds Accounted (remove_and_announce sys epoll_fd cf name s)
  unfolding remove_and_announce
  keep_remove name s a = elim (Option-cases (remove_his sys epoll_fd name s)) [
    | inl bad ↦ rw (bad, remove_and_announce) nothing
    | inr ((r, s'), done) ↦
        rw (done, remove_and_announce)
          (just (
            announce-Accounted sys epoll_fd cf name removed r s'
              (remove_his-Accounted sys epoll_fd name s done a)))
  ]

  -- However many rounds the listener has run, and whatever the system answered, a descriptor is open
  -- and in the epoll set exactly as often as slots in use hold it, if that was so at the start.
  pub listener-Accounted :
      (rounds reads : ℕ) (s : State)
      → Accounted s
      → EndsIn Accounted (event_change_listener sys epoll_fd cf rounds reads s)
  listener-Accounted =
      event_change_listener_keeps sys epoll_fd cf Accounted log-Accounted keep_add keep_remove

-- The client was told of each device's arrival once more often than of its removal for each slot in
-- use for it.
abbrev pub InSync : State → Type 0
InSync s = (nm : List ℕ) → reports added nm s.calls ≡ reports removed nm s.calls + copies nm s.his

log-InSync : (c : Call) (s : State) → neutral c ≡ true → InSync s → InSync (log c s)
log-InSync (malloc x) s n a d = a d
log-InSync (stat x y) s n a d = a d
log-InSync (opendir x) s n a d = a d
log-InSync (inotify_init x) s n a d = a d
log-InSync (inotify_add_watch x y) s n a d = a d
log-InSync (read_inotify x) s n a d = a d
log-InSync c s n a d = cc

module _ (sys : Sys) (epoll_fd : Option ℕ) (cf : Option CallbackFunc)
    (told : has_event_callback sys epoll_fd cf ≡ true)
    (junk : (cs : Calls) → sys.junk_is_zero cs ≡ false) where
  add_and_announce-InSync :
      (name : List ℕ) (s : State)
      → InSync s
      → Holds InSync (add_and_announce sys epoll_fd cf name s)
  unfolding add_and_announce
  add_and_announce-InSync name s a = elim (Option-cases (add_his sys epoll_fd name s)) [
    | inl bad ↦ rw (bad, add_and_announce) nothing
    | inr ((r, s'), done) ↦
        rw (done, add_and_announce)
          (just λ nm. ground (
            arith,
            a nm,
            junk s'.calls,
            (add_his-copies sys epoll_fd name s done).0 nm,
            add_his-reports sys epoll_fd added nm name s done,
            add_his-reports sys epoll_fd removed nm name s done,
          ))
  ]

  remove_and_announce-InSync :
      (name : List ℕ) (s : State)
      → InSync s
      → Holds InSync (remove_and_announce sys epoll_fd cf name s)
  unfolding remove_and_announce
  remove_and_announce-InSync name s a = elim (Option-cases (remove_his sys epoll_fd name s)) [
    | inl bad ↦ rw (bad, remove_and_announce) nothing
    | inr ((r, s'), done) ↦
        rw (done, remove_and_announce)
          (just λ nm. ground (
            arith,
            a nm,
            junk s'.calls,
            (remove_his-copies sys epoll_fd name s done).0 nm,
            remove_his-reports sys epoll_fd added nm name s done,
            remove_his-reports sys epoll_fd removed nm name s done,
          ))
  ]

  -- However many rounds the listener has run and whatever the system answered, a client with an
  -- event callback has been told of the arrival of a device as often as of its removal and once more
  -- for each slot in use for it, if that was so at the start and if the value of a call of add_his or
  -- remove_his that returns nothing is never read as 0.
  pub listener-InSync :
      (rounds reads : ℕ) (s : State)
      → InSync s
      → EndsIn InSync (event_change_listener sys epoll_fd cf rounds reads s)
  listener-InSync =
      event_change_listener_keeps sys epoll_fd cf InSync log-InSync add_and_announce-InSync
        remove_and_announce-InSync
