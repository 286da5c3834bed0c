-- ===== src/InputReader/Table/Copies.antt =====
-- The table as a multiset of device names, and what `add_his` and `remove_his` do to it on every
-- path.
use dsui.Prelude.{
  ℕ, ◌+◌, ◌≡◌, Bool, true, false, ◌&&◌, ◌==◌, Option, some, List, [], ◌∷◌, arith, length,
  if◌then◌else◌, Bool-cases, Option-cases, inl, inr, str_eq, str_eq_sound, drop,
}
use dsui.InputReader.Kernel.{Calls, Sys}
use dsui.InputReader.Table.{
  HardwareInput, Ret, success, no_return, fill_slot, add_slots, clear_slot, remove_slots,
  names_device, State, add_his, remove_his,
}

-- 1 if the slot is in use for the device of that name.
abbrev pub copy : List ℕ → HardwareInput → ℕ
copy nm h = if h.is_avaiable && names_device nm h then 1 else 0

-- The number of slots in use for the device of that name.
abbrev pub copies : List ℕ → List HardwareInput → ℕ
copies nm [] = 0
copies nm (h ∷ hs) = copy nm h + copies nm hs

-- 1 if a call that returns `r` succeeded, and it was about `nm`.
abbrev pub change : List ℕ → List ℕ → Ret → ℕ
change nm name success = if str_eq nm name then 1 else 0
change nm name _ = 0

-- The number of free slots.
abbrev pub free_slots : List HardwareInput → ℕ
free_slots [] = 0
free_slots (h ∷ hs) = (if h.is_avaiable then 0 else 1) + free_slots hs

-- Whether control fell off the end of the function.
abbrev pub fell_off : Ret → Bool
fell_off no_return = true
fell_off _ = false

module _ (sys : Sys) (epoll_fd : Option ℕ) (nm name : List ℕ) where
  fill_slot_copies :
      (h : HardwareInput) (cs : Calls) {r : Ret} {h' : HardwareInput} {cs' : Calls}
      → h.is_avaiable ≡ false
      → fill_slot sys epoll_fd name h cs ≡ some ((r, h'), cs')
      → (copy nm h' ≡ change nm name r) × (fell_off r ≡ false)
  unfolding fill_slot
  fill_slot_copies h cs free e = ground arith

  add_slots-copies :
      (hs : List HardwareInput) (cs : Calls) {r : Ret} {hs' : List HardwareInput} {cs' : Calls}
      → add_slots sys epoll_fd name hs cs ≡ some ((r, hs'), cs')
      → (copies nm hs' ≡ copies nm hs + change nm name r)
        × (length hs' ≡ length hs)
        × (fell_off r ≡ (free_slots hs == 0))
  unfolding add_slots
  add_slots-copies [] cs e = ground arith
  add_slots-copies (h ∷ hs) cs e = elim (Bool-cases h.is_avaiable) [
    | inl busy ↦ elim (Option-cases (add_slots sys epoll_fd name hs cs)) [
      | inl stop ↦ ground arith
      | inr (((r', hs'), cs'), rest) ↦ ground (arith, add_slots-copies hs cs rest)
    ]
    | inr free ↦ elim (Option-cases (fill_slot sys epoll_fd name h cs)) [
      | inl stop ↦ ground arith
      | inr (((r', h'), cs'), filled) ↦ ground (arith, fill_slot_copies h cs free filled)
    ]
  ]

  clear_slot_copies :
      (h : HardwareInput) (cs : Calls) {r : Ret} {h' : HardwareInput} {cs' : Calls}
      → h.is_avaiable && names_device name h ≡ true
      → clear_slot sys epoll_fd h cs ≡ some ((r, h'), cs')
      → (copy nm h ≡ copy nm h' + change nm name r) × (fell_off r ≡ false)
  unfolding clear_slot
  clear_slot_copies h cs found e = elim (Option-cases h.device_name) [
    | inl null ↦ ground arith
    | inr (path, named) ↦
        let same : str_eq name (drop 11 path) ≡ true = ground arith in
        let eq : name ≡ drop 11 path = str_eq_sound name (drop 11 path) same in ground arith
  ]

  remove_slots-copies :
      (hs : List HardwareInput) (cs : Calls) {r : Ret} {hs' : List HardwareInput} {cs' : Calls}
      → remove_slots sys epoll_fd name hs cs ≡ some ((r, hs'), cs')
      → (copies nm hs ≡ copies nm hs' + change nm name r)
        × (length hs' ≡ length hs)
        × (fell_off r ≡ (copies name hs == 0))
  unfolding remove_slots
  remove_slots-copies [] cs e = ground arith
  remove_slots-copies (h ∷ hs) cs e = elim (Bool-cases (h.is_avaiable && names_device name h)) [
    | inl found ↦ elim (Option-cases (clear_slot sys epoll_fd h cs)) [
      | inl stop ↦ ground arith
      | inr (((r', h'), cs'), cleared) ↦ ground (arith, clear_slot_copies h cs found cleared)
    ]
    | inr other ↦ elim (Option-cases (remove_slots sys epoll_fd name hs cs)) [
      | inl stop ↦ ground arith
      | inr (((r', hs'), cs'), rest) ↦ ground (arith, remove_slots-copies hs cs rest)
    ]
  ]

module _ (sys : Sys) (epoll_fd : Option ℕ) (name : List ℕ) (s : State) where
  -- Whatever the system answers, add_his registers the named device once more if it returns 0 and
  -- leaves the registered devices as they were otherwise; it returns nothing exactly when no slot
  -- is free.
  pub add_his-copies :
      {r : Ret} {s' : State}
      → add_his sys epoll_fd name s ≡ some (r, s')
      → ((nm : List ℕ) → copies nm s'.his ≡ copies nm s.his + change nm name r)
        × (length s'.his ≡ length s.his)
        × (fell_off r ≡ (free_slots s.his == 0))
  unfolding add_his
  add_his-copies {r} {s'} e = elim (Option-cases (add_slots sys epoll_fd name s.his s.calls)) [
    | inl stop ↦ absurd (ground arith)
    | inr (((r', hs), cs), added) ↦ (
      λ nm. ground (arith, add_slots-copies sys epoll_fd nm name s.his s.calls added),
      ground (arith, add_slots-copies sys epoll_fd name name s.his s.calls added),
      ground (arith, add_slots-copies sys epoll_fd name name s.his s.calls added),
    )
  ]

  -- Whatever the system answers, remove_his takes away one registration of the named device if it
  -- returns 0 and leaves the registered devices as they were otherwise; it returns nothing exactly
  -- when the device is not registered.
  pub remove_his-copies :
      {r : Ret} {s' : State}
      → remove_his sys epoll_fd name s ≡ some (r, s')
      → ((nm : List ℕ) → copies nm s.his ≡ copies nm s'.his + change nm name r)
        × (length s'.his ≡ length s.his)
        × (fell_off r ≡ (copies name s.his == 0))
  unfolding remove_his
  remove_his-copies e = elim (Option-cases (remove_slots sys epoll_fd name s.his s.calls)) [
    | inl stop ↦ absurd (ground arith)
    | inr (((r', hs), cs), removed) ↦ (
      λ nm. ground (arith, remove_slots-copies sys epoll_fd nm name s.his s.calls removed),
      ground (arith, remove_slots-copies sys epoll_fd name name s.his s.calls removed),
      ground (arith, remove_slots-copies sys epoll_fd name name s.his s.calls removed),
    )
  ]
