-- ===== src/FlashFb.antt =====
-- src/display/flash_fb.c: three frame buffers, each with a thread that draws into it, one thread that
-- shows them by their serial numbers, and one that ticks. One step is one statement of one thread;
-- `g_ready_fb_serial++`, which several threads execute, is a read and a write.
pub mod Invariant
pub mod Frames
pub mod Queue
pub mod Stuck
pub mod Start
mod Tests
use dsui.Threads
use dsui.Prelude.{
  ℕ, suc, ◌+◌, ◌-◌, ◌%◌, ◌^◌, Bool, true, false, not, ◌||◌, Option, none, some, List, [], ◌∷◌, ◌++◌,
  ◌==◌, ltb, if◌then◌else◌, update,
}

abbrev pub framebuffer_number : ℕ
framebuffer_number = 3

-- `struct framebuffer`
pub record Framebuffer : Type 0 where
  pub height : ℕ
  pub weight : ℕ
  pub bpp : ℕ
  pub size : ℕ
  pub handle : ℕ
  pub fb_id : ℕ
  pub vaddr : Option ℕ

abbrev no_framebuffer : Framebuffer
no_framebuffer = record {
  height = 0;
  weight = 0;
  bpp = 0;
  size = 0;
  handle = 0;
  fb_id = 0;
  vaddr = none;
}

-- `g_fbs`, `g_fbi` and the semaphores. The code never uses `fb`. `drawn i` and `shown i` are the serial numbers with which
-- draw_buffer and show_buffer were called for box `i`.
pub record Shared : Type 0 where
  pub is_displayed : ℕ → Bool
  pub fb_serial : ℕ → ℕ
  pub fb : ℕ → Framebuffer
  pub g_fb_serial : ℕ
  pub g_ready_fb_serial : ℕ
  pub semaphore : ℕ → ℕ
  pub flash_semaphore : ℕ
  pub drawn : ℕ → List ℕ
  pub shown : ℕ → List ℕ

-- The statement that a thread executes next: `flash_buffer` with its `i`, `fill_buffer` with its box
-- and the number read, `time_tick` with its `i`.
pub data Pc : Type 0 where
  f_wait : Pc
  f_serial f_displayed f_show f_count : ℕ → Pc
  w_wait w_test w_read : ℕ → Pc
  w_write : ℕ → ℕ → Pc
  w_serial w_draw : ℕ → Pc
  t_scan : ℕ → Pc
  t_flash : Pc

-- A `uint64_t` counted up.
abbrev pub uint64_suc : ℕ → ℕ
uint64_suc x = (x + 1) % 2 ^ 64

-- `sem_post`, which fails when the semaphore has the largest value.
abbrev pub sem_post : ℕ → ℕ
sem_post x = if ltb x (2 ^ 31 - 1) then x + 1 else x

-- The loop of `flash_buffer` at index `i`.
abbrev pub next_box : ℕ → Pc
next_box i = if ltb i framebuffer_number then f_serial i else f_wait

-- A step of a thread; `none` while `sem_wait` blocks it.
unfoldable pub step : Shared → Pc → Option (Shared × Pc)
step m f_wait =
    if m.flash_semaphore == 0
    then none
    else some (record m { flash_semaphore = m.flash_semaphore - 1 }, next_box 0)
step m (f_serial i) =
    if m.fb_serial i == 0 || (m.fb_serial i + 2 ^ 64 - 1) % 2 ^ 64 == m.g_fb_serial
    then some (m, f_displayed i)
    else some (m, next_box (i + 1))
step m (f_displayed i) = if m.is_displayed i then some (m, next_box (i + 1)) else some (m, f_show i)
step m (f_show i) = some (
  record m {
    is_displayed = update m.is_displayed i true;
    shown = update m.shown i (m.shown i ++ m.fb_serial i ∷ []);
  },
  f_count i,
)
step m (f_count i) = some (record m { g_fb_serial = uint64_suc m.g_fb_serial }, next_box (i + 1))
step m (w_wait i) =
    if m.semaphore i == 0
    then none
    else some (record m { semaphore = update m.semaphore i (m.semaphore i - 1) }, w_test i)
step m (w_test i) = if m.is_displayed i then some (m, w_read i) else some (m, w_wait i)
step m (w_read i) = some (m, w_write i m.g_ready_fb_serial)
step m (w_write i r) = some (record m { g_ready_fb_serial = uint64_suc r }, w_serial i)
step m (w_serial i) =
    some (record m { fb_serial = update m.fb_serial i m.g_ready_fb_serial }, w_draw i)
step m (w_draw i) = some (
  record m {
    is_displayed = update m.is_displayed i false;
    drawn = update m.drawn i (m.drawn i ++ m.fb_serial i ∷ []);
  },
  w_wait i,
)
step m (t_scan i) =
    if ltb i framebuffer_number
    then (if m.is_displayed i
        then some
            (record m { semaphore = update m.semaphore i (sem_post (m.semaphore i)) }, t_flash)
        else some (m, t_scan (i + 1)))
    else some (m, t_flash)
step m t_flash = some (record m { flash_semaphore = sem_post m.flash_semaphore }, t_scan 0)

abbrev pub System : Type 0
System = Threads.System Shared Pc

-- The turns are thread numbers.
abbrev pub turn : System → ℕ → System
turn = Threads.turn (λ j. j) (λ j. step)

abbrev pub run : System → List ℕ → System
run = Threads.run (λ j. j) (λ j. step)

-- The globals after init_global_fb_info and init_fb_boxes.
abbrev pub start : Shared
start = record {
  is_displayed = λ i. true;
  fb_serial = λ i. 0;
  fb = λ i. no_framebuffer;
  g_fb_serial = 0;
  g_ready_fb_serial = 0;
  semaphore = λ i. 0;
  flash_semaphore = 0;
  drawn = λ i. [];
  shown = λ i. [];
}

-- Thread 0 shows, thread `i + 1` draws into box `i`, thread 4 ticks, and so would any further one.
abbrev pub entry : ℕ → Pc
entry j =
    if j == 0 then f_wait else (if ltb j (framebuffer_number + 1) then w_wait (j - 1) else t_scan 0)

unfoldable pub init : System
init = record { mem = start; pc = entry }
