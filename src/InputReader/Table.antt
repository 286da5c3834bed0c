-- ===== src/InputReader/Table.antt =====
-- The table `g_his` of input devices, `init_his`, `add_his` and `remove_his` (src/inputs/input_reader.c).
-- A C string is the list of its bytes before the terminator.
pub mod Accounting
pub mod Copies
pub mod Names
pub mod Paths
pub mod Reports
use dsui.Prelude.{
  ℕ, suc, ◌+◌, ◌<◌, Bool, true, false, ◌&&◌, Option, none, some, List, [], ◌∷◌, ◌++◌, ltb, str_eq,
  length, drop, map, replicate, if◌then◌else◌,
}
use dsui.InputReader.Kernel.{
  Call, Calls, Sys, M, pure, ◌>>=◌, ◌>>◌, emit, ask, malloc, open_file, close, epoll_add, epoll_del,
}

abbrev pub max_input_device : ℕ
max_input_device = 256

abbrev pub max_events : ℕ
max_events = max_input_device

abbrev pub device_path_size : ℕ
device_path_size = 256

-- EPOLLIN
abbrev pub epollin : ℕ
epollin = 1

-- "/dev/input/"
abbrev pub dev_input : List ℕ
dev_input = b'/' ∷ b'd' ∷ b'e' ∷ b'v' ∷ b'/' ∷ b'i' ∷ b'n' ∷ b'p' ∷ b'u' ∷ b't' ∷ b'/' ∷ []

-- `struct hardware_input`; `ev_fd` is `ev.data.fd`. Its field `event` is never used.
pub record HardwareInput : Type 0 where
  pub is_avaiable : Bool
  pub device_name : Option (List ℕ)
  pub ev_fd : Option ℕ
  pub ev_events : ℕ

abbrev pub unused_input : HardwareInput
unused_input = record { is_avaiable = false; device_name = none; ev_fd = none; ev_events = 0 }

-- `init_his` gives three fields of every slot their first values.
unfoldable pub init_his : List HardwareInput → List HardwareInput
init_his [] = []
init_his (h ∷ hs) = record h { ev_fd = none; device_name = none; is_avaiable = false } ∷ init_his hs

-- What a call returns: 0, -1, or nothing at all, where control falls off the end of the function.
pub data Ret : Type 0 where
  success failure no_return : Ret

-- `sprintf(buf, "/dev/input/%s", name)` into `DEVICE_PATH_SIZE` bytes: a longer path is written past
-- the end.
unfoldable pub sprint_path : List ℕ → M (List ℕ)
sprint_path name =
    if ltb (length (dev_input ++ name)) device_path_size
    then pure (dev_input ++ name)
    else (λ _. none)

-- `strcmp(event_name, device_name + strlen("/dev/input") + 1) == 0`, for a name that is not NULL.
abbrev pub names_device : List ℕ → HardwareInput → Bool
names_device name h = elim h.device_name [ none ↦ false | some path ↦ str_eq name (drop 11 path) ]

module _ (sys : Sys) (epoll_fd : Option ℕ) where
  unfoldable pub watch_slot : HardwareInput → ℕ → M (Ret × HardwareInput)
  watch_slot h fd = do
    added ← ask (λ cs. sys.add_ok cs epoll_fd fd) (epoll_add epoll_fd fd)
    elim added [
      | true ↦ pure (success, record h { is_avaiable = true })
      | false ↦ do emit (close (some fd)); pure (failure, h)
    ]

  unfoldable pub open_slot : List ℕ → HardwareInput → M (Ret × HardwareInput)
  unfolding watch_slot sprint_path
  open_slot name h = do
    path ← sprint_path name
    fd ← ask (λ cs. sys.open_fd cs path) (open_file path)
    elim fd [
      | none ↦ pure (failure, record h { device_name = some path; ev_fd = none })
      | some d ↦
          watch_slot (record h { device_name = some path; ev_fd = some d; ev_events = epollin }) d
    ]

  -- The body of the loop of `add_his` at the first slot that is not in use.
  unfoldable pub fill_slot : List ℕ → HardwareInput → M (Ret × HardwareInput)
  unfolding open_slot
  fill_slot name h = elim h.device_name [
    | some _ ↦ open_slot name h
    | none ↦ do
      got ← ask sys.malloc_ok malloc
      elim got [ true ↦ open_slot name h | false ↦ pure (failure, h) ]
  ]

  unfoldable pub add_slots : List ℕ → List HardwareInput → M (Ret × List HardwareInput)
  add_slots name [] = pure (no_return, [])
  add_slots name (h ∷ hs) =
      let rest : M (Ret × List HardwareInput) = do (r, hs') ← add_slots name hs; pure (r, h ∷ hs')
      in let here : M (Ret × List HardwareInput) = do (r, h') ← fill_slot name h; pure (r, h' ∷ hs)
        in if h.is_avaiable then rest else here

  unfoldable pub clear_slot : HardwareInput → M (Ret × HardwareInput)
  clear_slot h = do
    deleted ← ask (λ cs. sys.del_ok cs epoll_fd h.ev_fd) (epoll_del epoll_fd h.ev_fd)
    elim deleted [
      | true ↦ do emit (close h.ev_fd); pure (success, record h { is_avaiable = false })
      | false ↦ pure (failure, h)
    ]

  unfoldable pub remove_slots : List ℕ → List HardwareInput → M (Ret × List HardwareInput)
  remove_slots name [] = pure (no_return, [])
  remove_slots name (h ∷ hs) =
      let rest : M (Ret × List HardwareInput) = do
        (r, hs') ← remove_slots name hs
        pure (r, h ∷ hs')
      in let here : M (Ret × List HardwareInput) = do (r, h') ← clear_slot h; pure (r, h' ∷ hs)
        in if h.is_avaiable && names_device name h then here else rest

-- The globals of the file, `g_his` among them, with the calls made so far.
pub record State : Type 0 where
  pub his : List HardwareInput
  pub calls : Calls

abbrev pub with_table : State → M (Ret × List HardwareInput) → Option (Ret × State)
with_table s m = elim (m s.calls) [
  | none ↦ none
  | some ((r, hs), cs) ↦ some (r, record { his = hs; calls = cs })
]

module _ (sys : Sys) (epoll_fd : Option ℕ) where
  -- `none` is a write past the end of `device_name`.
  unfoldable pub add_his : List ℕ → State → Option (Ret × State)
  unfolding add_slots fill_slot
  add_his name s = with_table s (add_slots sys epoll_fd name s.his)

  unfoldable pub remove_his : List ℕ → State → Option (Ret × State)
  unfolding remove_slots clear_slot
  remove_his name s = with_table s (remove_slots sys epoll_fd name s.his)
