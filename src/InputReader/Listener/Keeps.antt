-- ===== src/InputReader/Listener/Keeps.antt =====
-- A rule for `event_change_listener`: what adding a device, removing one, and the other calls each
-- keep, the whole thread keeps, however many rounds it has run.
use dsui.Prelude.{
  ◌%◌, ℕ, zero, suc, ◌+◌, ◌^◌, ◌≡◌, refl, Bool, true, false, Option, none, some, List, [], ◌∷◌, ltb,
  length, ◌⊎◌, inl, inr, Bool-cases, Option-cases, if◌then◌else◌, ◌==◌, drop,
}
use dsui.InputReader.Kernel.{
  Call, Sys, malloc, stat, opendir, inotify_init, inotify_add_watch, read_inotify,
}
use dsui.InputReader.Table.{State, sprint_path}
use dsui.InputReader.Listener.{
  CallbackFunc, starts_with, event_prefix, in_create, in_delete, in_isdir, u32_at, c_str,
  event_size, log, Outcome, finished, undefined, out_of_fuel, ◌>>=◌, add_and_announce,
  remove_and_announce, handle_file, handle_path, handle_entry, scan_entries, handle_event,
  handle_record, event_loop, read_loop, start_watch, set_up, event_change_listener,
}

-- The calls that touch neither the table nor the client.
abbrev pub neutral : Call → Bool
neutral (malloc _) = true
neutral (stat _ _) = true
neutral (opendir _) = true
neutral (inotify_init _) = true
neutral (inotify_add_watch _ _) = true
neutral (read_inotify _) = true
neutral _ = false

-- The result, if there is one, has the property.
pub data Holds {A : Type 0} (P : A → Type 0) : Option A → Type 0 where
  nothing : Holds P none
  just : {a : A} → P a → Holds P (some a)

pub Holds-some : {A : Type 0} {P : A → Type 0} {a : A} → Holds P (some a) → P a
Holds-some (just p) = p

Holds-if :
    {A : Type 0} {P : A → Type 0} (b : Bool) {x y : Option A}
    → Holds P x
    → Holds P y
    → Holds P (if b then x else y)
Holds-if true hx hy = hx
Holds-if false hx hy = hy

Holds->>= :
    {A B : Type 0} {Q : A → Type 0} {P : B → Type 0} {o : Option A} (f : A → Option B)
    → Holds Q o
    → ((a : A) → Q a → Holds P (f a))
    → Holds P (o >>= f)
Holds->>= f nothing hf = nothing
Holds->>= f (just {a = a} q) hf = hf a q

abbrev Anything : {A : Type 0} → A → Type 0
Anything _ = Unit

Holds-Anything : {A : Type 0} (o : Option A) → Holds Anything o
Holds-Anything none = nothing
Holds-Anything (some a) = just tt

-- The state at the end, if there is one, has the property.
abbrev pub EndsIn : (State → Type 0) → Outcome → Type 0
EndsIn P (finished s) = P s
EndsIn P undefined = Unit
EndsIn P out_of_fuel = Unit

Outcome-cases :
    (o : Outcome) → ((s : State) × (o ≡ finished s)) ⊎ (o ≡ undefined) ⊎ (o ≡ out_of_fuel)
Outcome-cases (finished s) = inl (s, refl)
Outcome-cases undefined = inr (inl refl)
Outcome-cases out_of_fuel = inr (inr refl)

module _ (sys : Sys) (epoll_fd : Option ℕ) (cf : Option CallbackFunc) (P : State → Type 0)
    (keep_log : (c : Call) (s : State) → neutral c ≡ true → P s → P (log c s))
    (keep_add : (name : List ℕ) (s : State)
      → P s
      → Holds P (add_and_announce sys epoll_fd cf name s))
    (keep_remove : (name : List ℕ) (s : State)
      → P s
      → Holds P (remove_and_announce sys epoll_fd cf name s)) where
  handle_file_keeps :
      (name : List ℕ) (dir : Option Bool) (s : State)
      → P s
      → Holds P (handle_file sys epoll_fd cf name dir s)
  unfolding handle_file
  handle_file_keeps name none s p = just p
  handle_file_keeps name (some true) s p = just p
  handle_file_keeps name (some false) s p =
      Holds-if (starts_with event_prefix name) (keep_add name s p) (just p)

  handle_path_keeps :
      (name : List ℕ) (s : State) → P s → Holds P (handle_path sys epoll_fd cf name s)
  unfolding handle_path
  handle_path_keeps name s p =
      Holds->>= _ (Holds-Anything (sprint_path name s.calls))
        λ pc _. handle_file_keeps name _ _ (keep_log _ s refl p)

  handle_entry_keeps :
      (name : List ℕ) (s : State) → P s → Holds P (handle_entry sys epoll_fd cf name s)
  unfolding handle_entry
  handle_entry_keeps name s p =
      Holds-if (sys.malloc_ok s.calls) (handle_path_keeps name _ (keep_log _ s refl p)) nothing

  scan_entries_keeps :
      (names : List (List ℕ)) (s : State) → P s → Holds P (scan_entries sys epoll_fd cf names s)
  unfolding scan_entries
  scan_entries_keeps [] s p = just p
  scan_entries_keeps (name ∷ names) s p =
      Holds->>= _ (handle_entry_keeps name s p) (scan_entries_keeps names)

  handle_event_keeps :
      (mask : ℕ) (name : Option (List ℕ)) (s : State)
      → P s
      → Holds P (handle_event sys epoll_fd cf mask name s)
  unfolding handle_event
  handle_event_keeps mask name s p =
      Holds-if (in_create mask)
        (Holds-if (in_isdir mask) (just p) (
          Holds->>= _ (Holds-Anything name)
            λ n _. Holds-if (starts_with event_prefix n) (keep_add n s p) (just p)))
        (Holds-if (in_delete mask)
          (Holds-if (in_isdir mask) (just p) (
            Holds->>= _ (Holds-Anything name)
              λ n _. Holds-if (starts_with event_prefix n) (keep_remove n s p) (just p)))
          (just p))

  handle_record_keeps :
      (bs : List ℕ) (i : ℕ) (s : State)
      → P s
      → Holds (λ r. P r.0) (handle_record sys epoll_fd cf bs i s)
  unfolding handle_record
  handle_record_keeps bs i s p = Holds->>= _ (Holds-Anything (u32_at bs (i + 4))) λ mask _.
      Holds->>= _ (Holds-Anything (u32_at bs (i + 12))) λ len _.
        Holds->>= _
          (Holds-if (len == 0) (just p)
            (handle_event_keeps mask (c_str (drop (i + event_size) bs)) s p))
          λ s' p'. Holds-if (ltb ((i + event_size + len) % 2 ^ 32) (2 ^ 31)) (just p') nothing

  event_loop_keeps :
      (fuel : ℕ) (bs : List ℕ) (i : ℕ) (s : State)
      → P s
      → EndsIn P (event_loop sys epoll_fd cf fuel bs i s)
  unfolding event_loop
  event_loop_keeps zero bs i s p = tt
  event_loop_keeps (suc fuel) bs i s p = elim (Bool-cases (ltb i (length bs))) [
    | inr done ↦ rw (done, event_loop) p
    | inl more ↦ elim (Option-cases (handle_record sys epoll_fd cf bs i s)) [
      | inl bad ↦ rw (more, bad, event_loop) tt
      | inr ((s', i'), good) ↦
          let p' : P s' = Holds-some (rw good at (handle_record_keeps bs i s p)) in
          let ih = event_loop_keeps fuel bs i' s' p' in rw (more, good, event_loop) ih
    ]
  ]

  read_loop_keeps : (n : ℕ) (s : State) → P s → EndsIn P (read_loop sys epoll_fd cf n s)
  unfolding read_loop
  read_loop_keeps zero s p = p
  read_loop_keeps (suc n) s p = elim (Option-cases (sys.read_events s.calls)) [
    | inl failed ↦
        let ih = read_loop_keeps n (log (read_inotify none) s) (keep_log _ s refl p) in
        rw (failed, read_loop) ih
    | inr (bs, got) ↦
        let s1 = log (read_inotify (some (length bs))) s in
        let loop = event_loop_keeps (suc (length bs)) bs 0 s1 (keep_log _ s refl p) in
        rw (got, read_loop)
          (elim (Outcome-cases (event_loop sys epoll_fd cf (suc (length bs)) bs 0 s1)) [
            | inl (s', done) ↦
                let ih = read_loop_keeps n s' (rw done at loop) in rw (done, read_loop) ih
            | inr (inl bad) ↦ rw (bad, read_loop) tt
            | inr (inr out) ↦ rw (out, read_loop) tt
          ])
  ]

  start_watch_keeps : (s : State) → P s → P (start_watch sys epoll_fd cf s).1
  unfolding start_watch
  start_watch_keeps s p = elim (Option-cases (sys.inotify_fd s.calls)) [
    | inl failed ↦ rw (failed, start_watch) (keep_log _ s refl p)
    | inr (d, got) ↦ rw (got, start_watch) (keep_log _ _ refl (keep_log _ s refl p))
  ]

  set_up_keeps : (s : State) → P s → Holds (λ r. P r.1) (set_up sys epoll_fd cf s)
  unfolding set_up
  set_up_keeps s p = elim (Option-cases (sys.list_dir s.calls)) [
    | inl failed ↦ rw (failed, set_up) (just (keep_log _ s refl p))
    | inr (names, got) ↦
        rw (got, set_up)
          (Holds->>= _ (scan_entries_keeps names _ (keep_log _ s refl p))
            λ s1 p1. just (start_watch_keeps s1 p1))
  ]

  pub event_change_listener_keeps :
      (rounds reads : ℕ) (s : State)
      → P s
      → EndsIn P (event_change_listener sys epoll_fd cf rounds reads s)
  unfolding event_change_listener
  event_change_listener_keeps zero reads s p = p
  event_change_listener_keeps (suc rounds) reads s p =
      elim (Option-cases (set_up sys epoll_fd cf s)) [
        | inl bad ↦ rw (bad, event_change_listener) tt
        | inr ((true, s'), ready) ↦
            let p' : P s' = Holds-some (rw ready at (set_up_keeps s p)) in
            rw (ready, event_change_listener) (read_loop_keeps reads s' p')
        | inr ((false, s'), again) ↦
            let p' : P s' = Holds-some (rw again at (set_up_keeps s p)) in
            let ih = event_change_listener_keeps rounds reads s' p' in
            rw (again, event_change_listener) ih
      ]
