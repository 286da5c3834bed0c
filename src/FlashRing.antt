-- ===== src/FlashRing.antt =====
-- src/examples/input_show/flash_buffer.c: a ring of three frame buffers, each with a mutex and a thread
-- that draws into it, one thread that shows the front one, and one that moves both pointers. One step
-- is one statement of one thread.
pub mod Invariant
pub mod Safety
pub mod Start
mod Tests
use dsui.Threads
use dsui.Prelude.{
  ℕ, zero, suc, ◌+◌, ◌-◌, ◌%◌, ◌^◌, Bool, Option, none, some, List, [], ◌∷◌, ◌++◌, ◌==◌, ltb,
  if◌then◌else◌, update,
}

abbrev pub framebuffer_number : ℕ
framebuffer_number = 3

-- The globals: a frame buffer is its index in `g_fbs`. `shown` lists what show_buffer was called for:
-- the frame buffer and its number. Nothing reads or writes `prev`.
pub record Shared : Type 0 where
  pub next : ℕ → ℕ
  pub prev : ℕ → ℕ
  pub number : ℕ → ℕ
  pub mutex_lock : ℕ → Option ℕ
  pub semaphore : ℕ → ℕ
  pub g_front_fb : ℕ
  pub g_back_fb : ℕ
  pub flash_semaphore : ℕ
  pub g_num : ℕ
  pub shown : List (ℕ × ℕ)

-- The loop of `init_framebuffers` from `i` on, `count` rounds.
pub link_framebuffers : ℕ → ℕ → Shared → Shared
link_framebuffers i zero m = m
link_framebuffers i (suc count) m =
    link_framebuffers (i + 1) count
      (record m { next = update m.next m.g_front_fb i; g_front_fb = i })

unfoldable pub init_framebuffers : Shared → Shared
unfolding link_framebuffers
init_framebuffers m =
    let m1 = link_framebuffers 1 (framebuffer_number - 1) (record m { g_front_fb = 0 }) in
    record m1 { next = update m1.next m1.g_front_fb 0; g_back_fb = m1.g_front_fb }

-- The statement that a thread executes next, with the frame buffer it works on. `g_num++` is two, as the
-- mutexes under which it is done are three: `w_add` has the value that has been read.
pub data Pc : Type 0 where
  f_wait f_front : Pc
  f_trylock f_show f_unlock : ℕ → Pc
  w_wait w_lock w_number w_count w_unlock : ℕ → Pc
  w_add : ℕ → ℕ → Pc
  t_post_back t_back t_post_flash t_front : Pc

-- `sem_post`, which fails when the semaphore has the largest value.
abbrev pub sem_post : ℕ → ℕ
sem_post x = if ltb x (2 ^ 31 - 1) then x + 1 else x

-- A step of thread `j`; `none` while `sem_wait` or `pthread_mutex_lock` blocks it.
unfoldable pub step : ℕ → Shared → Pc → Option (Shared × Pc)
step j m f_wait =
    if m.flash_semaphore == 0
    then none
    else some (record m { flash_semaphore = m.flash_semaphore - 1 }, f_front)
step j m f_front = some (m, f_trylock m.g_front_fb)
step j m (f_trylock b) = elim (m.mutex_lock b) [
  | none ↦ some (record m { mutex_lock = update m.mutex_lock b (some j) }, f_show b)
  | some k ↦ some (m, f_wait)
]
step j m (f_show b) = some (record m { shown = m.shown ++ (b, m.number b) ∷ [] }, f_unlock b)
step j m (f_unlock b) = some (record m { mutex_lock = update m.mutex_lock b none }, f_wait)
step j m (w_wait b) =
    if m.semaphore b == 0
    then none
    else some (record m { semaphore = update m.semaphore b (m.semaphore b - 1) }, w_lock b)
step j m (w_lock b) = elim (m.mutex_lock b) [
  | none ↦ some (record m { mutex_lock = update m.mutex_lock b (some j) }, w_number b)
  | some k ↦ none
]
step j m (w_number b) = some (record m { number = update m.number b m.g_num }, w_count b)
step j m (w_count b) = some (m, w_add b m.g_num)
step j m (w_add b num) = some (record m { g_num = (num + 1) % 2 ^ 32 }, w_unlock b)
step j m (w_unlock b) = some (record m { mutex_lock = update m.mutex_lock b none }, w_wait b)
step j m t_post_back = some (
  record m { semaphore = update m.semaphore m.g_back_fb (sem_post (m.semaphore m.g_back_fb)) },
  t_back,
)
step j m t_back = some (record m { g_back_fb = m.next m.g_back_fb }, t_post_flash)
step j m t_post_flash = some (record m { flash_semaphore = sem_post m.flash_semaphore }, t_front)
step j m t_front = some (record m { g_front_fb = m.next m.g_front_fb }, t_post_back)

abbrev pub System : Type 0
System = Threads.System Shared Pc

-- The turns are thread numbers.
abbrev pub turn : System → ℕ → System
turn = Threads.turn (λ j. j) step

abbrev pub run : System → List ℕ → System
run = Threads.run (λ j. j) step

-- The globals before `init_framebuffers`.
abbrev pub zeros : Shared
zeros = record {
  next = λ b. 0;
  prev = λ b. 0;
  number = λ b. 0;
  mutex_lock = λ b. none;
  semaphore = λ b. 0;
  g_front_fb = 0;
  g_back_fb = 0;
  flash_semaphore = 0;
  g_num = 0;
  shown = [];
}

-- Thread 0 shows, thread `b + 1` draws into frame buffer `b`, thread 4 ticks and no other acts: it
-- waits for a frame buffer that is not there.
abbrev pub entry : ℕ → Pc
entry j = if j == 0 then f_wait else (if j == 4 then t_post_back else w_wait (j - 1))

pub init : System
unfolding init_framebuffers
init = record { mem = init_framebuffers zeros; pc = entry }
