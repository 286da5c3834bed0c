-- ===== src/InputReader/Table/Paths.antt =====
-- When `add_his` and `remove_his` succeed, and when the path that `add_his` prints overflows.
use dsui.Prelude.{
  ℕ, ◌≤◌, ◌<◌, ◌≡◌, ◌≢◌, ◌↔◌, refl, true, Option, none, some, List, [], ◌∷◌, arith, length,
  Option-cases, inl, inr, str_eq_refl,
}
use native.Mathlib.Decide.{dec_lt}
use dsui.InputReader.Kernel.{Calls, Sys}
use dsui.InputReader.Table.{
  HardwareInput, Ret, success, no_return, fill_slot, add_slots, clear_slot, remove_slots,
  sprint_path, State, add_his, remove_his,
}
use dsui.InputReader.Table.Copies.{copies, free_slots, add_his-copies, remove_his-copies}

-- The longest name whose path fits into `DEVICE_PATH_SIZE` bytes with its terminator.
abbrev pub max_name : ℕ
max_name = 244

-- A system that grants every request.
pub record Grants (sys : Sys) : Type 0 where
  pub memory : (cs : Calls) → sys.malloc_ok cs ≡ true
  pub opens : (cs : Calls) (path : List ℕ) → sys.open_fd cs path ≢ none
  pub adds : (cs : Calls) (e : Option ℕ) (fd : ℕ) → sys.add_ok cs e fd ≡ true
  pub deletes : (cs : Calls) (e fd : Option ℕ) → sys.del_ok cs e fd ≡ true

-- What a call returned.
abbrev pub ret_of : {A : Type 0} → Option ((Ret × A) × Calls) → Option Ret
ret_of none = none
ret_of (some ((r, a), cs)) = some r

module _ (sys : Sys) (epoll_fd : Option ℕ) (name : List ℕ) where
  fill_slot_defined :
      (h : HardwareInput) (cs : Calls)
      → length name ≤ max_name
      → fill_slot sys epoll_fd name h cs ≢ none
  unfolding fill_slot
  fill_slot_defined h cs short = ground arith

  add_slots_defined :
      (hs : List HardwareInput) (cs : Calls)
      → length name ≤ max_name
      → add_slots sys epoll_fd name hs cs ≢ none
  unfolding add_slots
  add_slots_defined [] cs short = ground arith
  add_slots_defined (h ∷ hs) cs short =
      ground (arith, fill_slot_defined h cs, add_slots_defined hs cs)

  fill_slot_overflows :
      (h : HardwareInput) (cs : Calls)
      → sys.malloc_ok cs ≡ true
      → max_name < length name
      → fill_slot sys epoll_fd name h cs ≡ none
  unfolding fill_slot
  fill_slot_overflows h cs got long = ground arith

  add_slots_overflows :
      (hs : List HardwareInput) (cs : Calls)
      → sys.malloc_ok cs ≡ true
      → max_name < length name
      → 0 < free_slots hs
      → add_slots sys epoll_fd name hs cs ≡ none
  unfolding add_slots
  add_slots_overflows [] cs got long room = absurd (omega arith)
  add_slots_overflows (h ∷ hs) cs got long room =
      ground (arith, fill_slot_overflows h cs, add_slots_overflows hs cs)

  pub add_his_defined : (s : State) → length name ≤ max_name → add_his sys epoll_fd name s ≢ none
  unfolding add_his
  add_his_defined s short = ground (arith, add_slots_defined s.his s.calls)

  -- When a slot is free and malloc succeeds, add_his writes past the end of device_name exactly if
  -- the name has more than 244 bytes.
  pub add_his_overflow :
      (s : State)
      → sys.malloc_ok s.calls ≡ true
      → 0 < free_slots s.his
      → (add_his sys epoll_fd name s ≡ none) ↔ (max_name < length name)
  unfolding add_his
  add_his_overflow s got room = elim (dec_lt max_name (length name)) [
    | yes long ↦ ((λ e. long), (λ h. ground (arith, add_slots_overflows s.his s.calls)))
    | no short ↦
        ((λ e. absurd (ground (arith, add_slots_defined s.his s.calls))), (λ h. absurd (short h)))
  ]

  fill_slot_succeeds :
      (h : HardwareInput) (cs : Calls)
      → Grants sys
      → length name ≤ max_name
      → ret_of (fill_slot sys epoll_fd name h cs) ≡ some success
  unfolding fill_slot
  fill_slot_succeeds h cs g short = grind arith

  add_slots_succeeds :
      (hs : List HardwareInput) (cs : Calls)
      → Grants sys
      → length name ≤ max_name
      → 0 < free_slots hs
      → ret_of (add_slots sys epoll_fd name hs cs) ≡ some success
  unfolding add_slots
  add_slots_succeeds [] cs g short room = absurd (omega arith)
  add_slots_succeeds (h ∷ hs) cs g short room =
      ground (arith, fill_slot_succeeds h cs g, add_slots_succeeds hs cs g)

  clear_slot_succeeds :
      (h : HardwareInput) (cs : Calls)
      → Grants sys
      → ret_of (clear_slot sys epoll_fd h cs) ≡ some success
  unfolding clear_slot
  clear_slot_succeeds h cs g = ground (arith, g.deletes cs epoll_fd h.ev_fd)

  remove_slots_succeeds :
      (hs : List HardwareInput) (cs : Calls)
      → Grants sys
      → 0 < copies name hs
      → ret_of (remove_slots sys epoll_fd name hs cs) ≡ some success
  unfolding remove_slots
  remove_slots_succeeds [] cs g there = absurd (omega arith)
  remove_slots_succeeds (h ∷ hs) cs g there =
      ground (arith, clear_slot_succeeds h cs g, remove_slots_succeeds hs cs g)

  add_his_succeeds :
      (s : State)
      → Grants sys
      → length name ≤ max_name
      → 0 < free_slots s.his
      → (s' : State) × (add_his sys epoll_fd name s ≡ some (success, s'))
  unfolding add_his
  add_his_succeeds s g short room =
      elim (Option-cases (add_slots sys epoll_fd name s.his s.calls)) [
        | inl stop ↦ absurd (ground (arith, add_slots_succeeds s.his s.calls g))
        | inr (((r, hs), cs), added) ↦
            (record { his = hs; calls = cs }, ground (arith, add_slots_succeeds s.his s.calls g))
      ]

  remove_his_succeeds :
      (s : State)
      → Grants sys
      → 0 < copies name s.his
      → (s' : State) × (remove_his sys epoll_fd name s ≡ some (success, s'))
  unfolding remove_his
  remove_his_succeeds s g there =
      elim (Option-cases (remove_slots sys epoll_fd name s.his s.calls)) [
        | inl stop ↦ absurd (ground (arith, remove_slots_succeeds s.his s.calls g))
        | inr (((r, hs), cs), removed) ↦
            (record { his = hs; calls = cs }, ground (arith, remove_slots_succeeds s.his s.calls g))
      ]

  -- When the system grants every request, a slot is free and the name has at most 244 bytes, add_his
  -- returns 0, and a call of remove_his after it returns 0 and leaves every device registered as
  -- often as before both calls.
  pub remove_his-add_his :
      (s : State)
      → Grants sys
      → length name ≤ max_name
      → 0 < free_slots s.his
      → (s' : State) × (s'' : State) × (add_his sys epoll_fd name s ≡ some (success, s'))
        × (remove_his sys epoll_fd name s' ≡ some (success, s''))
        × ((nm : List ℕ) → copies nm s''.his ≡ copies nm s.his)
  remove_his-add_his s g short room =
      let (s', added) = add_his_succeeds s g short room in
      let grown = add_his-copies sys epoll_fd name s added in
      let (s'', removed) =
        remove_his_succeeds s' g (ground (arith, grown.0 name, str_eq_refl name)) in
      let shrunk = remove_his-copies sys epoll_fd name s' removed in
      (s', s'', added, removed, λ nm. ground (arith, grown.0 nm, shrunk.0 nm))

module _ (sys : Sys) (epoll_fd : Option ℕ) (name : List ℕ) where
  remove_slots_defined :
      (hs : List HardwareInput) (cs : Calls) → remove_slots sys epoll_fd name hs cs ≢ none
  unfolding remove_slots clear_slot
  remove_slots_defined [] cs = ground arith
  remove_slots_defined (h ∷ hs) cs = ground (arith, remove_slots_defined hs cs)

  pub remove_his_defined : (s : State) → remove_his sys epoll_fd name s ≢ none
  unfolding remove_his
  remove_his_defined s = ground (arith, remove_slots_defined s.his s.calls)

  pub sprint_path_defined : (cs : Calls) → length name ≤ max_name → sprint_path name cs ≢ none
  unfolding sprint_path
  sprint_path_defined cs short = ground arith

  add_slots_full :
      (hs : List HardwareInput) (cs : Calls)
      → free_slots hs ≡ 0
      → add_slots sys epoll_fd name hs cs ≡ some ((no_return, hs), cs)
  unfolding add_slots
  add_slots_full [] cs full = refl
  add_slots_full (h ∷ hs) cs full = ground (arith, add_slots_full hs cs)

  pub add_his_full :
      (s : State) → free_slots s.his ≡ 0 → add_his sys epoll_fd name s ≡ some (no_return, s)
  unfolding add_his
  add_his_full s full = ground (arith, add_slots_full s.his s.calls)
