-- ===== src/InputReader/Table/Names.antt =====
-- The table as the bag of the names of its devices, which forgets the slots, the descriptors and what is
-- left in the slots that are not in use; and `add_his` and `remove_his` as putting in and taking out.
use mathlib.Core.Quot
use dsui.Prelude.{
  ◌++◌, ℕ, ◌+◌, ◌≡◌, refl, sym, ◌∙◌, Bool, ◌==◌, Option, none, some, List, [], ◌∷◌, arith,
  if◌then◌else◌, Bool-cases, Option-cases, inl, inr, str_eq, drop, Bag, SameItems, count, put,
  occurrences, occurrences-mk, put_of_count, ◌++◌,
}
use dsui.InputReader.Kernel.{Sys}
use dsui.InputReader.Table.{
  HardwareInput, Ret, success, failure, no_return, State, add_his, remove_his,
}
use dsui.InputReader.Table.Copies.{
  copies, free_slots, fell_off, change, add_his-copies, remove_his-copies,
}

abbrev pub Devices : Type 0
Devices = Bag str_eq

-- The name of the device for which a slot is in use.
abbrev name_in : HardwareInput → List (List ℕ)
name_in h =
    if h.is_avaiable then elim h.device_name [ none ↦ [] | some path ↦ drop 11 path ∷ [] ] else []

abbrev names : List HardwareInput → List (List ℕ)
names [] = []
names (h ∷ hs) = name_in h ++ names hs

abbrev pub devices : State → Devices
devices s = Quot.mk (names s.his)

count-names : (nm : List ℕ) (hs : List HardwareInput) → count str_eq nm (names hs) ≡ copies nm hs
count-names nm [] = refl
count-names nm (h ∷ hs) = elim (Bool-cases h.is_avaiable) [
  | inr free ↦ ground (arith, count-names nm hs)
  | inl busy ↦ elim (Option-cases h.device_name) [
    | inl null ↦ ground (arith, count-names nm hs)
    | inr (path, named) ↦ ground (arith, count-names nm hs)
  ]
]

-- The two operations of the table.
pub data Command : Type 0 where
  add remove : List ℕ → Command

abbrev pub perform : Sys → Option ℕ → Command → State → Option (Ret × State)
perform sys epoll_fd (add name) s = add_his sys epoll_fd name s
perform sys epoll_fd (remove name) s = remove_his sys epoll_fd name s

-- What a command that returns `r` does to the devices.
abbrev pub Effect : Command → Ret → Devices → Devices → Type 0
Effect (add name) success before after = after ≡ put str_eq name before
Effect (remove name) success before after = before ≡ put str_eq name after
Effect c r before after = after ≡ before

-- The same on the copies of one name.
abbrev Copied : Command → Ret → List ℕ → State → State → Type 0
Copied (add name) r nm s s' = copies nm s'.his ≡ copies nm s.his + change nm name r
Copied (remove name) r nm s s' = copies nm s.his ≡ copies nm s'.his + change nm name r

-- Whether a command finds no slot to work on.
abbrev pub finds_none : Command → State → Bool
finds_none (add name) s = free_slots s.his == 0
finds_none (remove name) s = occurrences str_eq name (devices s) == 0

count-same :
    (xs ys : List HardwareInput)
    → ((nm : List ℕ) → copies nm xs ≡ copies nm ys)
    → SameItems str_eq (names xs) (names ys)
count-same xs ys h nm = count-names nm xs ∙ h nm ∙ sym (count-names nm ys)

count-more :
    (name : List ℕ) (xs ys : List HardwareInput)
    → ((nm : List ℕ) → copies nm ys ≡ copies nm xs + (if str_eq nm name then 1 else 0))
    → ◌≡◌ {A = Devices} (Quot.mk (names ys)) (put str_eq name (Quot.mk (names xs)))
count-more name xs ys h =
    put_of_count str_eq name (names xs) (names ys)
      (λ nm. omega (arith, h nm, count-names nm xs, count-names nm ys))

Copied-Effect :
    (c : Command) (r : Ret) (s s' : State)
    → ((nm : List ℕ) → Copied c r nm s s')
    → Effect c r (devices s) (devices s')
Copied-Effect (add name) success s s' h = count-more name s.his s'.his h
Copied-Effect (remove name) success s s' h = count-more name s'.his s.his h
Copied-Effect (add name) failure s s' h =
    Quot.sound (count-same s'.his s.his (λ nm. omega (arith, h nm)))
Copied-Effect (remove name) failure s s' h =
    Quot.sound (count-same s'.his s.his (λ nm. omega (arith, h nm)))
Copied-Effect (add name) no_return s s' h =
    Quot.sound (count-same s'.his s.his (λ nm. omega (arith, h nm)))
Copied-Effect (remove name) no_return s s' h =
    Quot.sound (count-same s'.his s.his (λ nm. omega (arith, h nm)))

-- Whatever the system answers, on the bag of the names of the registered devices add_his and remove_his
-- are putting the name in and taking one such name out if they return 0, and otherwise change nothing;
-- they return nothing exactly when no slot is free or the name is not in the bag.
pub table_is_a_bag :
    (sys : Sys) (epoll_fd : Option ℕ) (c : Command) (s : State) {r : Ret} {s' : State}
    → perform sys epoll_fd c s ≡ some (r, s')
    → Effect c r (devices s) (devices s') × (fell_off r ≡ finds_none c s)
table_is_a_bag sys epoll_fd (add name) s {r} {s'} e =
    let (more, _, fell) = add_his-copies sys epoll_fd name s e in
    (Copied-Effect (add name) r s s' more, fell)
table_is_a_bag sys epoll_fd (remove name) s {r} {s'} e =
    let (fewer, _, fell) = remove_his-copies sys epoll_fd name s e in
    (
      Copied-Effect (remove name) r s s' fewer,
      ground (arith, fell, occurrences-mk str_eq name (names s.his), count-names name s.his),
    )
