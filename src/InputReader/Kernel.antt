-- ===== src/InputReader/Kernel.antt =====
-- The C library and kernel calls that input_reader.c makes. What they answer is a parameter: a
-- function of all the calls made before. A `-1` for a descriptor is `none`.
use dsui.Prelude.{ℕ, ◌+◌, ◌-◌, Bool, true, Option, none, some, List, [], ◌∷◌, ◌==◌, if◌then◌else◌}
use dsui.Prelude.Int.{ℤ}

-- `struct input_event`, without its time stamp, which the program never reads.
pub record InputEvent : Type 0 where
  pub type : ℕ
  pub code : ℕ
  pub value : ℤ

-- EVENT_ADD and EVENT_REMOVE.
pub data ChangeType : Type 0 where
  added removed : ChangeType

-- A call with its answer, or a call of one of the client's callbacks.
pub data Call : Type 0 where
  malloc : Bool → Call
  open_file : List ℕ → Option ℕ → Call
  close : Option ℕ → Call
  epoll_add : Option ℕ → ℕ → Bool → Call
  epoll_del : Option ℕ → Option ℕ → Bool → Call
  epoll_create : Option ℕ → Call
  stat : List ℕ → Option Bool → Call
  opendir : Bool → Call
  inotify_init : Option ℕ → Call
  inotify_add_watch : ℕ → Bool → Call
  read_inotify : Option ℕ → Call
  epoll_wait : Option ℕ → Call
  read_input : ℕ → Option InputEvent → Call
  thread_create : Bool → Call
  event_callback : List ℕ → ChangeType → Call
  input_callback : InputEvent → ℤ → Call

-- The calls made so far, the latest first.
abbrev pub Calls : Type 0
Calls = List Call

-- What the system answers after given calls. `stat_dir` says whether the path is a directory, `list_dir`
-- gives the names that `readdir` will give, `read_events` the bytes that a `read` from inotify puts into
-- the buffer, and `read_event` the event, if a `read` from a device gives a whole one. `junk_is_zero`
-- says whether the value of a call that ended without `return` is read as 0.
pub record Sys : Type 0 where
  pub malloc_ok : Calls → Bool
  pub open_fd : Calls → List ℕ → Option ℕ
  pub add_ok : Calls → Option ℕ → ℕ → Bool
  pub del_ok : Calls → Option ℕ → Option ℕ → Bool
  pub epoll_fd : Calls → Option ℕ
  pub stat_dir : Calls → List ℕ → Option Bool
  pub list_dir : Calls → Option (List (List ℕ))
  pub inotify_fd : Calls → Option ℕ
  pub watch_ok : Calls → ℕ → Bool
  pub read_events : Calls → Option (List ℕ)
  pub wait_fds : Calls → Option (List ℕ)
  pub read_event : Calls → ℕ → Option InputEvent
  pub thread_ok : Calls → Bool
  pub junk_is_zero : Calls → Bool

-- Code that makes calls; `none` is undefined behaviour, such as a write past a buffer.
abbrev pub M : Type 0 → Type 0
M A = Calls → Option (A × Calls)

abbrev pub pure : {A : Type 0} → A → M A
pure a cs = some (a, cs)

infixl 5 ◌>>=◌ ◌>>◌
abbrev pub ◌>>=◌ : {A B : Type 0} → M A → (A → M B) → M B
◌>>=◌ m f cs = elim (m cs) [ none ↦ none | some (a, cs') ↦ f a cs' ]

abbrev pub ◌>>◌ : {B : Type 0} → M (Unit {0}) → M B → M B
m >> k = m >>= λ _. k

abbrev pub emit : Call → M (Unit {0})
emit c cs = some (tt, c ∷ cs)

-- A call whose answer `f` gives, recorded as `c`.
abbrev pub ask : {A : Type 0} → (Calls → A) → (A → Call) → M A
ask f c cs = some (f cs, c (f cs) ∷ cs)

-- How often descriptor `d` is open: by `open` and not yet given to `close`.
abbrev pub opened : ℕ → Calls → ℕ
opened d [] = 0
opened d (open_file p (some e) ∷ cs) = opened d cs + (if d == e then 1 else 0)
opened d (close (some e) ∷ cs) = opened d cs - (if d == e then 1 else 0)
opened d (c ∷ cs) = opened d cs

-- How often it stands in an epoll interest list.
abbrev pub watched : ℕ → Calls → ℕ
watched d [] = 0
watched d (epoll_add p e true ∷ cs) = watched d cs + (if d == e then 1 else 0)
watched d (epoll_del p (some e) true ∷ cs) = watched d cs - (if d == e then 1 else 0)
watched d (c ∷ cs) = watched d cs
