-- ===== src/InputCopy/Told.antt =====
-- What the messages of the copy tell about the table.
use dsui.Prelude.{ℕ, ◌≡◌, Option, none, some, List, ◌∷◌, arith}
use dsui.InputReader.Kernel.{Sys}
use dsui.InputReader.Table.{HardwareInput, Ret, success, failure, no_return}
use dsui.Log.{Level, info, warning, error, Message}
use dsui.InputCopy.{Trace, open_slot}

-- The level of the message with which a call ends that gives back this.
abbrev pub told_by_add : Ret → Option Level
told_by_add success = some info
told_by_add failure = some error
told_by_add no_return = some warning

abbrev pub told_by_remove : Ret → Option Level
told_by_remove success = some info
told_by_remove failure = some error
told_by_remove no_return = none

-- One message of this level has been added, or none.
abbrev pub Says : Option Level → List Message → List Message → Type 0
Says none before after = after ≡ before
Says (some level) before after = (m : Message) × (after ≡ m ∷ before) × (m.level ≡ level)

module _ (sys : Sys) (epoll_fd : Option ℕ) where
  open_slot-Says :
      (name : List ℕ) (h : HardwareInput) (t : Trace) {r : Ret} {h' : HardwareInput} {t' : Trace}
      → open_slot sys epoll_fd name h t ≡ some ((r, h'), t')
      → Says (told_by_add r) t.said t'.said
  unfolding open_slot
  open_slot-Says name h t {r} {h'} {t'} e = ground (arith)
