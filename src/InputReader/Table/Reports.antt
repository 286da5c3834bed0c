-- ===== src/InputReader/Table/Reports.antt =====
-- What the client has been told, over `add_his` and `remove_his`.
use dsui.Prelude.{
  ℕ, ◌+◌, ◌≡◌, Bool, true, false, ◌&&◌, Option, some, List, [], ◌∷◌, arith, if◌then◌else◌,
  Bool-cases, Option-cases, inl, inr, str_eq,
}
use dsui.InputReader.Kernel.{Calls, Sys, ChangeType, added, removed, event_callback}
use dsui.InputReader.Table.{
  HardwareInput, Ret, fill_slot, add_slots, clear_slot, remove_slots, names_device, State, add_his,
  remove_his,
}

abbrev pub same_change : ChangeType → ChangeType → Bool
same_change added added = true
same_change removed removed = true
same_change _ _ = false

-- How often the event callback was called for a device with a kind of change.
abbrev pub reports : ChangeType → List ℕ → Calls → ℕ
reports c nm [] = 0
reports c nm (event_callback name c' ∷ cs) =
    (if same_change c c' && str_eq nm name then 1 else 0) + reports c nm cs
reports c nm (_ ∷ cs) = reports c nm cs

module _ (sys : Sys) (epoll_fd : Option ℕ) (c : ChangeType) (nm name : List ℕ) where
  fill_slot-reports :
      (h : HardwareInput) (cs : Calls) {r : Ret} {h' : HardwareInput} {cs' : Calls}
      → fill_slot sys epoll_fd name h cs ≡ some ((r, h'), cs')
      → reports c nm cs' ≡ reports c nm cs
  unfolding fill_slot
  fill_slot-reports h cs e = ground arith

  add_slots-reports :
      (hs : List HardwareInput) (cs : Calls) {r : Ret} {hs' : List HardwareInput} {cs' : Calls}
      → add_slots sys epoll_fd name hs cs ≡ some ((r, hs'), cs')
      → reports c nm cs' ≡ reports c nm cs
  unfolding add_slots
  add_slots-reports [] cs e = ground arith
  add_slots-reports (h ∷ hs) cs e = elim (Bool-cases h.is_avaiable) [
    | inl busy ↦ elim (Option-cases (add_slots sys epoll_fd name hs cs)) [
      | inl stop ↦ ground arith
      | inr (((r', hs'), cs'), rest) ↦ ground (arith, add_slots-reports hs cs rest)
    ]
    | inr free ↦ elim (Option-cases (fill_slot sys epoll_fd name h cs)) [
      | inl stop ↦ ground arith
      | inr (((r', h'), cs'), filled) ↦ ground (arith, fill_slot-reports h cs filled)
    ]
  ]

  remove_slots-reports :
      (hs : List HardwareInput) (cs : Calls) {r : Ret} {hs' : List HardwareInput} {cs' : Calls}
      → remove_slots sys epoll_fd name hs cs ≡ some ((r, hs'), cs')
      → reports c nm cs' ≡ reports c nm cs
  unfolding remove_slots clear_slot
  remove_slots-reports [] cs e = ground arith
  remove_slots-reports (h ∷ hs) cs e = elim (Bool-cases (h.is_avaiable && names_device name h)) [
    | inl found ↦ ground arith
    | inr other ↦ elim (Option-cases (remove_slots sys epoll_fd name hs cs)) [
      | inl stop ↦ ground arith
      | inr (((r', hs'), cs'), rest) ↦ ground (arith, remove_slots-reports hs cs rest)
    ]
  ]

  pub add_his-reports :
      (s : State) {r : Ret} {s' : State}
      → add_his sys epoll_fd name s ≡ some (r, s')
      → reports c nm s'.calls ≡ reports c nm s.calls
  unfolding add_his
  add_his-reports s e = elim (Option-cases (add_slots sys epoll_fd name s.his s.calls)) [
    | inl stop ↦ ground arith
    | inr (((r, hs), cs), done) ↦ ground (arith, add_slots-reports s.his s.calls done)
  ]

  pub remove_his-reports :
      (s : State) {r : Ret} {s' : State}
      → remove_his sys epoll_fd name s ≡ some (r, s')
      → reports c nm s'.calls ≡ reports c nm s.calls
  unfolding remove_his
  remove_his-reports s e = elim (Option-cases (remove_slots sys epoll_fd name s.his s.calls)) [
    | inl stop ↦ ground arith
    | inr (((r, hs), cs), done) ↦ ground (arith, remove_slots-reports s.his s.calls done)
  ]
