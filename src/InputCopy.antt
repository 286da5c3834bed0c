-- ===== src/InputCopy.antt =====
-- src/inputs/input_reader copy.c, a version of input_reader.c that prints its messages by the macros of
-- includes/ds_log.h: its `add_his` and `remove_his`, with the messages. What the system answers is the
-- parameter of the module InputReader.Kernel.
pub mod Listener
pub mod Input
pub mod Same
pub mod Told
mod Tests
use Prim.Native.String.{String}
use dsui.Prelude.{
  ℕ, Bool, true, false, ◌&&◌, Option, none, some, List, [], ◌∷◌, ◌++◌, ltb, length, if◌then◌else◌,
}
use dsui.InputReader.Kernel.{Call, Calls, Sys, malloc, open_file, close, epoll_add, epoll_del}
use dsui.InputReader.Table.{
  HardwareInput, Ret, success, failure, no_return, dev_input, epollin, names_device,
}
use dsui.Log.{bytes, Level, info, warning, error, Message}

abbrev pub dslog_tag : List ℕ
dslog_tag = bytes "DS_INPUT"

abbrev pub device_path_size : ℕ
device_path_size = 256

-- The calls and the messages so far, the latest first.
pub record Trace : Type 0 where
  pub calls : Calls
  pub said : List Message

-- Code that makes calls and prints messages; `none` is undefined behaviour.
abbrev pub L : Type 0 → Type 0
L A = Trace → Option (A × Trace)

abbrev pub pure : {A : Type 0} → A → L A
pure a t = some (a, t)

infixl 5 ◌>>=◌ ◌>>◌
abbrev pub ◌>>=◌ : {A B : Type 0} → L A → (A → L B) → L B
◌>>=◌ m f t = elim (m t) [ none ↦ none | some (a, t') ↦ f a t' ]

abbrev pub ◌>>◌ : {B : Type 0} → L (Unit {0}) → L B → L B
m >> k = m >>= λ _. k

abbrev pub emit : Call → L (Unit {0})
emit c t = some (tt, record t { calls = c ∷ t.calls })

abbrev pub ask : {A : Type 0} → (Calls → A) → (A → Call) → L A
ask f c t = some (f t.calls, record t { calls = c (f t.calls) ∷ t.calls })

abbrev pub message : Level → String → ℕ → List ℕ → Message
message level func line text = record { level = level; func = bytes func; line = line; text = text }

abbrev pub say : Level → String → ℕ → List ℕ → L (Unit {0})
say level func line text t = some (tt, record t { said = message level func line text ∷ t.said })

-- The message about a device.
abbrev pub about : String → List ℕ → String → List ℕ
about before name behind = bytes before ++ name ++ bytes behind

unfoldable pub sprint_path : List ℕ → L (List ℕ)
sprint_path name =
    if ltb (length (dev_input ++ name)) device_path_size
    then pure (dev_input ++ name)
    else (λ _. none)

module _ (sys : Sys) (epoll_fd : Option ℕ) where
  -- `add_his` once the device is open.
  unfoldable pub watch_slot : List ℕ → HardwareInput → ℕ → L (Ret × HardwareInput)
  watch_slot path h fd = do
    added ← ask (λ cs. sys.add_ok cs epoll_fd fd) (epoll_add epoll_fd fd)
    elim added [
      | true ↦ do
        say info "add_his" 72 (about "add device " path " successful\n")
        pure (success, record h { is_avaiable = true })
      | false ↦ do
        say error "add_his" 67 (about "epoll ctl add " path " failed\n")
        emit (close (some fd))
        pure (failure, h)
    ]

  unfoldable pub open_slot : List ℕ → HardwareInput → L (Ret × HardwareInput)
  unfolding watch_slot sprint_path
  open_slot name h = do
    path ← sprint_path name
    fd ← ask (λ cs. sys.open_fd cs path) (open_file path)
    elim fd [
      | none ↦ do
        say error "add_his" 62 (about "open device " path " failed\n")
        pure (failure, record h { device_name = some path; ev_fd = none })
      | some d ↦
          watch_slot path
            (record h { device_name = some path; ev_fd = some d; ev_events = epollin }) d
    ]

  -- The body of the loop of `add_his` at the first slot that is not in use.
  unfoldable pub fill_slot : List ℕ → HardwareInput → L (Ret × HardwareInput)
  unfolding open_slot
  fill_slot name h = elim h.device_name [
    | some _ ↦ open_slot name h
    | none ↦ do
      got ← ask sys.malloc_ok malloc
      elim got [
        | true ↦ open_slot name h
        | false ↦ do say error "add_his" 54 (bytes "device name malloc failed\n"); pure (failure, h)
      ]
  ]

  unfoldable pub add_slots : List ℕ → List HardwareInput → L (Ret × List HardwareInput)
  unfolding fill_slot
  add_slots name [] = do
    say warning "add_his" 76 (bytes "add device failed, device number overflow\n")
    pure (no_return, [])
  add_slots name (h ∷ hs) =
      let rest : L (Ret × List HardwareInput) = do (r, hs') ← add_slots name hs; pure (r, h ∷ hs')
      in let here : L (Ret × List HardwareInput) = do (r, h') ← fill_slot name h; pure (r, h' ∷ hs)
        in if h.is_avaiable then rest else here

  -- The body of the loop of `remove_his` at the device.
  unfoldable pub clear_slot : HardwareInput → L (Ret × HardwareInput)
  clear_slot h =
      let path : List ℕ = elim h.device_name [ none ↦ [] | some path ↦ path ] in
      do
        deleted ← ask (λ cs. sys.del_ok cs epoll_fd h.ev_fd) (epoll_del epoll_fd h.ev_fd)
        elim deleted [
          | true ↦ do
            emit (close h.ev_fd)
            say info "remove_his" 90 (about "del device " path " successful\n")
            pure (success, record h { is_avaiable = false })
          | false ↦ do
            say error "remove_his" 85 (about "epoll ctl del " path " failed\n")
            pure (failure, h)
        ]

  unfoldable pub remove_slots : List ℕ → List HardwareInput → L (Ret × List HardwareInput)
  unfolding clear_slot
  remove_slots name [] = pure (no_return, [])
  remove_slots name (h ∷ hs) =
      let rest : L (Ret × List HardwareInput) = do
        (r, hs') ← remove_slots name hs
        pure (r, h ∷ hs')
      in let here : L (Ret × List HardwareInput) = do (r, h') ← clear_slot h; pure (r, h' ∷ hs)
        in if h.is_avaiable && names_device name h then here else rest

-- The globals of the file with the calls and the messages so far.
pub record State : Type 0 where
  pub his : List HardwareInput
  pub calls : Calls
  pub said : List Message

abbrev pub with_table : State → L (Ret × List HardwareInput) → Option (Ret × State)
with_table s m = elim (m (record { calls = s.calls; said = s.said })) [
  | none ↦ none
  | some ((r, hs), t) ↦ some (r, record { his = hs; calls = t.calls; said = t.said })
]

module _ (sys : Sys) (epoll_fd : Option ℕ) where
  unfoldable pub add_his : List ℕ → State → Option (Ret × State)
  unfolding add_slots
  add_his name s = with_table s (add_slots sys epoll_fd name s.his)

  unfoldable pub remove_his : List ℕ → State → Option (Ret × State)
  unfolding remove_slots
  remove_his name s = with_table s (remove_slots sys epoll_fd name s.his)
