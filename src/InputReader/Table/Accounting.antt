-- ===== src/InputReader/Table/Accounting.antt =====
-- The descriptors that `add_his` and `remove_his` open, watch and close, and the slots in use.
use dsui.Prelude.{
  ℕ, ◌+◌, ◌≤◌, ◌≡◌, true, false, ◌&&◌, Option, none, some, List, [], ◌∷◌, arith, ◌==◌,
  if◌then◌else◌, Bool-cases, Option-cases, inl, inr,
}
use dsui.InputReader.Kernel.{Calls, Sys, opened, watched}
use dsui.InputReader.Table.{
  HardwareInput, Ret, fill_slot, add_slots, clear_slot, remove_slots, names_device, State, add_his,
  remove_his,
}

-- 1 if the slot is in use with descriptor `d`.
abbrev pub uses : ℕ → HardwareInput → ℕ
uses d h = if h.is_avaiable then elim h.ev_fd [ none ↦ 0 | some e ↦ if d == e then 1 else 0 ] else 0

-- The number of slots in use with descriptor `d`.
abbrev pub live : ℕ → List HardwareInput → ℕ
live d [] = 0
live d (h ∷ hs) = uses d h + live d hs

module _ (sys : Sys) (epoll_fd : Option ℕ) (d : ℕ) (name : List ℕ) where
  fill_slot_accounts :
      (h : HardwareInput) (cs : Calls) {r : Ret} {h' : HardwareInput} {cs' : Calls}
      → h.is_avaiable ≡ false
      → fill_slot sys epoll_fd name h cs ≡ some ((r, h'), cs')
      → (watched d cs' ≡ watched d cs + uses d h') × (opened d cs' ≡ opened d cs + uses d h')
  unfolding fill_slot
  fill_slot_accounts h cs free e = ground arith

  add_slots_accounts :
      (hs : List HardwareInput) (cs : Calls) {r : Ret} {hs' : List HardwareInput} {cs' : Calls}
      → add_slots sys epoll_fd name hs cs ≡ some ((r, hs'), cs')
      → (watched d cs' + live d hs ≡ watched d cs + live d hs')
        × (opened d cs' + live d hs ≡ opened d cs + live d hs')
  unfolding add_slots
  add_slots_accounts [] cs e = ground arith
  add_slots_accounts (h ∷ hs) cs e = elim (Bool-cases h.is_avaiable) [
    | inl busy ↦ elim (Option-cases (add_slots sys epoll_fd name hs cs)) [
      | inl stop ↦ ground arith
      | inr (((r', hs'), cs'), rest) ↦ ground (arith, add_slots_accounts hs cs rest)
    ]
    | inr free ↦ elim (Option-cases (fill_slot sys epoll_fd name h cs)) [
      | inl stop ↦ ground arith
      | inr (((r', h'), cs'), filled) ↦ ground (arith, fill_slot_accounts h cs free filled)
    ]
  ]

  clear_slot_accounts :
      (h : HardwareInput) (cs : Calls) {r : Ret} {h' : HardwareInput} {cs' : Calls}
      → h.is_avaiable ≡ true
      → clear_slot sys epoll_fd h cs ≡ some ((r, h'), cs')
      → uses d h ≤ watched d cs
      → uses d h ≤ opened d cs
      → (watched d cs' + uses d h ≡ watched d cs + uses d h')
        × (opened d cs' + uses d h ≡ opened d cs + uses d h')
  unfolding clear_slot
  clear_slot_accounts h cs busy e w o = ground arith

  remove_slots_accounts :
      (hs : List HardwareInput) (cs : Calls) {r : Ret} {hs' : List HardwareInput} {cs' : Calls}
      → remove_slots sys epoll_fd name hs cs ≡ some ((r, hs'), cs')
      → live d hs ≤ watched d cs
      → live d hs ≤ opened d cs
      → (watched d cs' + live d hs ≡ watched d cs + live d hs')
        × (opened d cs' + live d hs ≡ opened d cs + live d hs')
  unfolding remove_slots
  remove_slots_accounts [] cs e w o = ground arith
  remove_slots_accounts (h ∷ hs) cs e w o =
      elim (Bool-cases (h.is_avaiable && names_device name h)) [
        | inl found ↦ elim (Option-cases (clear_slot sys epoll_fd h cs)) [
          | inl stop ↦ ground arith
          | inr (((r', h'), cs'), cleared) ↦
              let busy : h.is_avaiable ≡ true = ground arith in
              let fact = clear_slot_accounts h cs busy cleared (omega arith) (omega arith) in
              ground arith
        ]
        | inr other ↦ elim (Option-cases (remove_slots sys epoll_fd name hs cs)) [
          | inl stop ↦ ground arith
          | inr (((r', hs'), cs'), rest) ↦
              let fact = remove_slots_accounts hs cs rest (omega arith) (omega arith) in
              ground arith
        ]
      ]

-- Each descriptor is open and watched exactly as often as slots in use hold it: none is leaked, and
-- no slot holds one that is closed.
abbrev pub Accounted : State → Type 0
Accounted s = (d : ℕ) → (watched d s.calls ≡ live d s.his) × (opened d s.calls ≡ live d s.his)

module _ (sys : Sys) (epoll_fd : Option ℕ) (name : List ℕ) (s : State) where
  pub add_his-Accounted :
      {r : Ret} {s' : State}
      → add_his sys epoll_fd name s ≡ some (r, s')
      → Accounted s
      → Accounted s'
  unfolding add_his
  add_his-Accounted e a d = elim (Option-cases (add_slots sys epoll_fd name s.his s.calls)) [
    | inl stop ↦ ground arith
    | inr (((r, hs), cs), added) ↦
        let fact = add_slots_accounts sys epoll_fd d name s.his s.calls added in ground (arith, a d)
  ]

  pub remove_his-Accounted :
      {r : Ret} {s' : State}
      → remove_his sys epoll_fd name s ≡ some (r, s')
      → Accounted s
      → Accounted s'
  unfolding remove_his
  remove_his-Accounted e a d = elim (Option-cases (remove_slots sys epoll_fd name s.his s.calls)) [
    | inl stop ↦ ground arith
    | inr (((r, hs), cs), removed) ↦
        let fact =
          remove_slots_accounts sys epoll_fd d name s.his s.calls removed (omega (arith, a d))
            (omega (arith, a d)) in
        ground (arith, a d)
  ]
