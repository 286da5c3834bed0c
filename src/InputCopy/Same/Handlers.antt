-- ===== src/InputCopy/Same/Handlers.antt =====
-- What `event_change_listener` of the copy does with one entry of the directory and with one record, against
-- input_reader.c.
use dsui.Log.{debug}
use dsui.Prelude.{
  ◌++◌, ℕ, ◌+◌, ◌≡◌, refl, Bool, true, false, Option, none, some, List, [], ◌∷◌, ltb, length, drop,
  arith, Bool-cases, Option-cases, inl, inr,
}
use dsui.InputReader.Kernel.{Sys, malloc, stat}
use dsui.InputReader.Table
use dsui.InputReader.Table.{Ret, dev_input, device_path_size}
use dsui.InputReader.Listener
use dsui.InputReader.Listener.{CallbackFunc, event_prefix, starts_with, event_size, u32_at, c_str}
use dsui.InputCopy.{about, State, sprint_path}
use dsui.InputCopy.Same.{forget, add_his-Same, remove_his-Same}
use dsui.InputCopy.Listener.{
  log, tell, add_and_announce, remove_and_announce, handle_file, handle_path, handle_entry,
  scan_entries, handle_event, handle_record,
}

abbrev pub forget_state : Option State → Option Table.State
forget_state none = none
forget_state (some s) = some (forget s)

-- A result with a state, the messages forgotten.
abbrev pub forget_next : {A : Type 0} → Option (State × A) → Option (Table.State × A)
forget_next none = none
forget_next (some (s, a)) = some (forget s, a)

abbrev pub forget_round : Option (Bool × State) → Option (Bool × Table.State)
forget_round none = none
forget_round (some (b, s)) = some (b, forget s)

module _ (sys : Sys) (epoll_fd : Option ℕ) (cf : Option CallbackFunc) where
  add_and_announce-Same :
      (name : List ℕ) (s : State)
      → forget_state (add_and_announce sys epoll_fd cf name s)
        ≡ Listener.add_and_announce sys epoll_fd cf name (forget s)
  unfolding add_and_announce Listener.add_and_announce
  add_and_announce-Same name s = ground (arith, add_his-Same sys epoll_fd name s)

  remove_and_announce-Same :
      (name : List ℕ) (s : State)
      → forget_state (remove_and_announce sys epoll_fd cf name s)
        ≡ Listener.remove_and_announce sys epoll_fd cf name (forget s)
  unfolding remove_and_announce Listener.remove_and_announce
  remove_and_announce-Same name s = ground (arith, remove_his-Same sys epoll_fd name s)

  handle_file-Same :
      (name : List ℕ) (dir : Option Bool) (s : State)
      → forget_state (handle_file sys epoll_fd cf name dir s)
        ≡ Listener.handle_file sys epoll_fd cf name dir (forget s)
  unfolding handle_file Listener.handle_file
  handle_file-Same name none s = refl
  handle_file-Same name (some true) s = refl
  handle_file-Same name (some false) s =
      let told = tell debug 123 (about "find input dev = " name "\n") s in
      elim (Bool-cases (starts_with event_prefix name)) [
        | inl device ↦ rw device (add_and_announce-Same name told)
        | inr other ↦ rw other refl
      ]

  handle_path-Same :
      (name : List ℕ) (s : State)
      → forget_state (handle_path sys epoll_fd cf name s)
        ≡ Listener.handle_path sys epoll_fd cf name (forget s)
  unfolding handle_path Listener.handle_path sprint_path Table.sprint_path
  handle_path-Same name s =
      let path = dev_input ++ name in
      elim (Bool-cases (ltb (length path) device_path_size)) [
        | inl fits ↦
            let dir = sys.stat_dir s.calls path in
            rw fits (handle_file-Same name dir (log (stat path dir) s))
        | inr long ↦ rw long refl
      ]

  handle_entry-Same :
      (name : List ℕ) (s : State)
      → forget_state (handle_entry sys epoll_fd cf name s)
        ≡ Listener.handle_entry sys epoll_fd cf name (forget s)
  unfolding handle_entry Listener.handle_entry
  handle_entry-Same name s = elim (Bool-cases (sys.malloc_ok s.calls)) [
    | inl got ↦ rw got (handle_path-Same name (log (malloc true) s))
    | inr failed ↦ rw failed refl
  ]

  pub scan_entries-Same :
      (names : List (List ℕ)) (s : State)
      → forget_state (scan_entries sys epoll_fd cf names s)
        ≡ Listener.scan_entries sys epoll_fd cf names (forget s)
  unfolding scan_entries Listener.scan_entries
  scan_entries-Same [] s = refl
  scan_entries-Same (name ∷ names) s = elim (Option-cases (handle_entry sys epoll_fd cf name s)) [
    | inl n ↦ ground (arith, handle_entry-Same name s)
    | inr (s', e) ↦ ground (arith, handle_entry-Same name s, scan_entries-Same names s')
  ]

  handle_event-Same :
      (mask : ℕ) (name : Option (List ℕ)) (s : State)
      → forget_state (handle_event sys epoll_fd cf mask name s)
        ≡ Listener.handle_event sys epoll_fd cf mask name (forget s)
  unfolding handle_event Listener.handle_event
  handle_event-Same mask none s = ground arith
  handle_event-Same mask (some name) s =
      let create = add_and_announce-Same name (tell debug 168 (about "" name " file added\n") s) in
      let delete =
        remove_and_announce-Same name (tell debug 177 (about "" name " file removed\n") s) in
      elim (Bool-cases (starts_with event_prefix name)) [
        | inl device ↦ rw device (ground (arith, create, delete))
        | inr other ↦ rw other (ground arith)
      ]

  pub handle_record-Same :
      (bs : List ℕ) (i : ℕ) (s : State)
      → forget_next (handle_record sys epoll_fd cf bs i s)
        ≡ Listener.handle_record sys epoll_fd cf bs i (forget s)
  unfolding handle_record Listener.handle_record
  handle_record-Same bs i s = elim (Option-cases (u32_at bs (i + 4))) [
    | inl no_mask ↦ rw no_mask refl
    | inr (mask, e_mask) ↦ elim (Option-cases (u32_at bs (i + 12))) [
      | inl no_len ↦ rw (e_mask, no_len) refl
      | inr (len, e_len) ↦
          let event = handle_event-Same mask (c_str (drop (i + event_size) bs)) s in
          rw (e_mask, e_len) (ground (arith, event))
    ]
  ]
