-- ===== src/InputReader/Listener/Total.antt =====
-- How the rounds and the inner loop of `event_change_listener` end.
pub mod Benign
use dsui.Prelude.{
  ◌++◌, ℕ, zero, suc, ◌-◌, ◌^◌, ◌≤◌, ◌≡◌, ◌≢◌, refl, Bool, true, false, Option, none, some, List,
  [], ◌∷◌, arith, ltb, length, All,
}
use dsui.InputReader.Kernel.{Calls, Sys, read_inotify, opendir, malloc}
use dsui.InputReader.Table.{State, add_his, remove_his, sprint_path}
use dsui.InputReader.Table.Paths.{
  max_name, add_his_defined, remove_his_defined, sprint_path_defined,
}
use dsui.InputReader.Listener.{
  buf_size, CallbackFunc, u32_at, Outcome, finished, undefined, out_of_fuel, ◌>>=◌, log,
  add_and_announce, remove_and_announce, handle_file, handle_path, handle_entry, scan_entries,
  handle_event, handle_record, event_loop, read_loop, set_up, event_change_listener,
}
use dsui.InputReader.Listener.Records.{InotifyRecord, IsRecord, encode_all}
use dsui.InputReader.Listener.Records.Loop.{apply_record, apply_records, outcome, event_loop_reads}

abbrev pub defined : {A : Type 0} → Option A → Bool
defined none = false
defined (some a) = true

>>=-defined :
    {A B : Type 0} (o : Option A) (f : A → Option B)
    → defined o ≡ true
    → ((a : A) → defined (f a) ≡ true)
    → defined (o >>= f) ≡ true
>>=-defined none f d h = cc
>>=-defined (some a) f d h = h a

ne-none-defined : {A : Type 0} (o : Option A) → o ≢ none → defined o ≡ true
ne-none-defined none h = absurd (h refl)
ne-none-defined (some a) h = refl

-- At most BUF_SIZE bytes, with no length of a record among them that is above 2^32 - 2^16.
pub record IsShort (bs : List ℕ) : Type 0 where
  pub buffer : length bs ≤ buf_size
  pub numbers : (k v : ℕ) → u32_at bs k ≡ some v → v ≤ 2 ^ 32 - 2 ^ 16

-- The record of 16 bytes whose mask is 0 and whose len is 0xfffffff0.
abbrev pub endless : List ℕ
endless = 0 ∷ 0 ∷ 0 ∷ 0 ∷ 0 ∷ 0 ∷ 0 ∷ 0 ∷ 0 ∷ 0 ∷ 0 ∷ 0 ∷ 0xf0 ∷ 0xff ∷ 0xff ∷ 0xff ∷ []

module _ (sys : Sys) (epoll_fd : Option ℕ) (cf : Option CallbackFunc) where
  -- Whatever stands behind it, the name is not looked at: the mask asks for nothing.
  handle_record_again :
      (rest : List ℕ) (s : State)
      → handle_record sys epoll_fd cf (endless ++ rest) 0 s ≡ some (s, 0)
  unfolding handle_record handle_event
  handle_record_again rest s = refl

  -- Over the record of 16 bytes with mask 0 and len 0xfffffff0, with any bytes behind it, the loop
  -- over an inotify buffer has not ended after any number of rounds: the index of the next record is
  -- the record's own.
  pub event_loop_never_ends :
      (fuel : ℕ) (rest : List ℕ) (s : State)
      → event_loop sys epoll_fd cf fuel (endless ++ rest) 0 s ≡ out_of_fuel
  unfolding event_loop
  event_loop_never_ends zero rest s = refl
  event_loop_never_ends (suc fuel) rest s =
      let more : ltb 0 (length (endless ++ rest)) ≡ true = ground arith in
      let again = handle_record_again rest s in
      let ih = event_loop_never_ends fuel rest s in rw (more, again, event_loop) ih

  add_and_announce-defined :
      (name : List ℕ) (s : State)
      → length name ≤ max_name
      → defined (add_and_announce sys epoll_fd cf name s) ≡ true
  unfolding add_and_announce
  add_and_announce-defined name s short =
      >>=-defined (add_his sys epoll_fd name s) _
        (ne-none-defined _ (add_his_defined sys epoll_fd name s short)) (λ rs. refl)

  remove_and_announce-defined :
      (name : List ℕ) (s : State) → defined (remove_and_announce sys epoll_fd cf name s) ≡ true
  unfolding remove_and_announce
  remove_and_announce-defined name s =
      >>=-defined (remove_his sys epoll_fd name s) _
        (ne-none-defined _ (remove_his_defined sys epoll_fd name s)) (λ rs. refl)

  handle_file-defined :
      (name : List ℕ) (dir : Option Bool) (s : State)
      → length name ≤ max_name
      → defined (handle_file sys epoll_fd cf name dir s) ≡ true
  unfolding handle_file
  handle_file-defined name none s short = refl
  handle_file-defined name (some true) s short = refl
  handle_file-defined name (some false) s short =
      ground (arith, add_and_announce-defined name s short)

  handle_event-defined :
      (mask : ℕ) (name : List ℕ) (s : State)
      → length name ≤ max_name
      → defined (handle_event sys epoll_fd cf mask (some name) s) ≡ true
  unfolding handle_event
  handle_event-defined mask name s short =
      ground (arith, add_and_announce-defined name s short, remove_and_announce-defined name s)
