-- ===== src/MBuffer/Start.antt =====
-- The constructor and the destructor of `M_buffer` (src/display/m_buffer.cpp).
-- The heap is the list of the object's live blocks.
pub mod Threads
use dsui.Prelude.{
  map, true, ◌&&◌, ◌||◌, ℕ, zero, suc, ◌+◌, ◌-◌, ◌≤◌, ◌≡◌, ◌↔◌, ◌⊎◌, inl, refl, Bool, false, Option,
  none, some, List, [], ◌∷◌, ◌++◌, ◌==◌, ltb, leb, if◌then◌else◌, arith, length, take,
}
use native.Mathlib.Numerals.{unary_clauses}
use dsui.MBuffer.{BufferTask}

-- MAX_PRODUCE_THREAD_NUM, as m_buffer.cpp is compiled.
abbrev pub max_produce_thread_num : ℕ
max_produce_thread_num = 10

-- What `malloc` and `new` make for an object, by the field that points to it.
pub data Block : Type 0 where
  consume_thread consume_sem timetick_thread p_queue c_queue produce_threads p_mutex c_mutex : Block
  sem : ℕ → Block

abbrev number : Block → ℕ
number consume_thread = 0
number consume_sem = 1
number timetick_thread = 2
number p_queue = 3
number c_queue = 4
number produce_threads = 5
number p_mutex = 6
number c_mutex = 7
number (sem i) = 8 + i

infixl 5 ◌>>=◌
abbrev ◌>>=◌ : {A B : Type 0} → Option A → (A → Option B) → Option B
none >>= f = none
some a >>= f = f a

-- `free` and `delete`; `none` if the block is not live.
pub release : Block → List Block → Option (List Block)
release b [] = none
release b (x ∷ xs) =
    let rest : Option (List Block) = do ys ← release b xs; some (x ∷ ys)
    in if number b == number x then some xs else rest

-- Blocks `sem i`, …, `count` of them.
abbrev pub sems_from : ℕ → ℕ → List Block
sems_from i zero = []
sems_from i (suc count) = sem i ∷ sems_from (i + 1) count

-- `struct sem_thread` and `struct timetick_thread`, without the `pthread_id` that `pthread_create` sets.
pub record SemThread : Type 0 where
  pub semaphore : Block
  pub p_mutex_p : Block
  pub c_mutex_p : Block
  pub p_queue_p : Block
  pub c_queue_p : Block

pub record TimetickThread : Type 0 where
  pub p_thread_size : ℕ
  pub p_threads_p : List SemThread
  pub c_thread_p : SemThread

-- The object: `queue` is what `p_queue` holds, and `none` where the constructor has set no pointer.
-- `timetick` is what the thread that ticks points to, the other threads among it.
pub record MBufferObject : Type 0 where
  pub buffer_task_size : ℕ
  pub queue : Option (List BufferTask)
  pub heap : List Block
  pub timetick : Option TimetickThread

abbrev wired : Block → SemThread
wired semaphore = record {
  semaphore = semaphore;
  p_mutex_p = p_mutex;
  c_mutex_p = c_mutex;
  p_queue_p = p_queue;
  c_queue_p = c_queue;
}

abbrev pub built : List BufferTask → ℕ → MBufferObject
built bts bts_num = record {
  buffer_task_size = bts_num;
  queue = some (take bts_num bts);
  heap =
      consume_thread ∷ sems_from 0 max_produce_thread_num
      ++ consume_sem ∷ timetick_thread ∷ p_queue ∷ c_queue ∷ produce_threads ∷ p_mutex ∷ c_mutex
        ∷ [];
  timetick = some (record {
    p_thread_size = max_produce_thread_num;
    p_threads_p = map wired (sems_from 0 max_produce_thread_num);
    c_thread_p = wired consume_sem;
  });
}

-- `none` is a read behind the end of the array `bts`.
unfoldable pub construct : Option (List BufferTask) → ℕ → Option MBufferObject
construct none bts_num =
    some (record { buffer_task_size = bts_num; queue = none; heap = []; timetick = none })
construct (some bts) bts_num = if leb bts_num (length bts) then some (built bts bts_num) else none

-- The destructor's loop from index `i`, `count` rounds more; `none` is a read behind the end of `sems`.
free_sems : ℕ → ℕ → List Block → Option (List Block)
unfolding release
free_sems i zero heap = some heap
free_sems i (suc count) heap =
    let next = release (sem i) heap >>= free_sems (i + 1) count in
    if ltb i max_produce_thread_num then next else none

-- The blocks still live after it; `none` is undefined behaviour.
unfoldable pub destroy : MBufferObject → Option (List Block)
unfolding free_sems release
destroy o = elim o.queue [
  | none ↦ none
  | some _ ↦ do
    h1 ← release p_mutex o.heap
    h2 ← release c_mutex h1
    h3 ← release produce_threads h2
    h4 ← release p_queue h3
    h5 ← release c_queue h4
    h6 ← release timetick_thread h5
    h7 ← release consume_sem h6
    h8 ← release consume_thread h7
    free_sems 0 o.buffer_task_size h8
]

is_live : List Block → Block → Bool
is_live [] b = false
is_live (x ∷ xs) b = (number b == number x) || is_live xs b

points_into : List Block → SemThread → Bool
points_into heap t =
    is_live heap t.semaphore
    && (is_live heap t.p_mutex_p && is_live heap t.c_mutex_p)
    && (is_live heap t.p_queue_p && is_live heap t.c_queue_p)

all_point_into : List Block → List SemThread → Bool
all_point_into heap [] = true
all_point_into heap (t ∷ ts) = points_into heap t && all_point_into heap ts

-- Every pointer of every thread of an object points to a live block of it.
pointers_live :
    (bts : List BufferTask) (bts_num : ℕ)
    → all_point_into
        (built bts bts_num).heap
        (wired consume_sem ∷ map wired (sems_from 0 max_produce_thread_num))
      ≡ true
unfolding all_point_into points_into is_live
pointers_live bts bts_num = refl

release-sem : (i k : ℕ) → release (sem i) (sems_from i (suc k)) ≡ some (sems_from (i + 1) k)
unfolding release
release-sem i k = ground arith

free_sems_lem :
    (i k count : ℕ)
    → i + k ≡ max_produce_thread_num
    → free_sems i count (sems_from i k)
      ≡ (if leb count k then some (sems_from (count + i) (k - count)) else none)
unfolding free_sems
free_sems_lem i zero zero h = ground arith
free_sems_lem i (suc k) zero h = ground arith
free_sems_lem i zero (suc count) h = ground arith
free_sems_lem i (suc k) (suc count) h =
    ground (arith, release-sem i k, free_sems_lem (i + 1) k count (omega arith))

-- The destructor of an object made for `bts_num` tasks is undefined if that is more than
-- MAX_PRODUCE_THREAD_NUM, and otherwise frees every block but the last semaphores, as many as the
-- tasks are fewer than MAX_PRODUCE_THREAD_NUM.
pub destroy-construct :
    (bts : List BufferTask) (bts_num : ℕ)
    → bts_num ≤ length bts
    → (o : MBufferObject) × (construct (some bts) bts_num ≡ some o)
      × (destroy o ≡ (
          if leb bts_num max_produce_thread_num
          then some (sems_from bts_num (max_produce_thread_num - bts_num))
          else none))
unfolding construct destroy
destroy-construct bts bts_num h = (
  built bts bts_num,
  ground arith,
  simp unary_clauses at (free_sems_lem 0 max_produce_thread_num bts_num refl),
)
