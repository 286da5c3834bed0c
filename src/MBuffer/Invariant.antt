-- ===== src/MBuffer/Invariant.antt =====
-- What holds between any two statements of m_buffer.cpp, whatever the schedule: who may be in the two
-- critical sections, and where each task is.
use dsui.Prelude.{ℕ, ◌+◌, ◌<◌, ◌≡◌, Bool, true, false, Option, none, some, List, [], ◌∷◌, total}
use dsui.MBuffer.{
  BufferTask, Shared, Pc, p_take, p_unlock, p_run, p_lock, p_push, p_release, c_take, c_unlock,
  c_run, c_lock_back, c_push, c_release,
}

-- Between taking and giving back `p_mutex`.
abbrev pub in_p : Pc → Bool
in_p p_take = true
in_p (p_unlock _) = true
in_p (c_push _) = true
in_p c_release = true
in_p _ = false

-- Between taking and giving back `c_mutex`.
abbrev pub in_c : Pc → Bool
in_c (p_push _) = true
in_c p_release = true
in_c c_take = true
in_c (c_unlock _) = true
in_c _ = false

-- The task that a thread has in hand, or was given NULL for.
abbrev pub in_hand : Pc → Option BufferTask
in_hand (p_unlock t) = t
in_hand (p_run t) = t
in_hand (p_lock t) = some t
in_hand (p_push t) = some t
in_hand (c_unlock t) = t
in_hand (c_run t) = t
in_hand (c_lock_back t) = some t
in_hand (c_push t) = some t
in_hand _ = none

module _ (w : BufferTask → ℕ) where
  abbrev pub weight : Option BufferTask → ℕ
  weight none = 0
  weight (some t) = w t

  abbrev pub sum : List BufferTask → ℕ
  sum [] = 0
  sum (t ∷ ts) = w t + sum ts

  -- What the tasks weigh, in the queues and in the threads' hands.
  abbrev pub weighed : ℕ → Shared → (ℕ → Pc) → ℕ
  weighed n m pc = sum m.p_queue + sum m.c_queue + total (λ p. weight (in_hand p)) n pc

pub record Locks (n : ℕ) (m : Shared) (pc : ℕ → Pc) : Type 0 where
  pub p_owner : (j : ℕ) → in_p (pc j) ≡ true → m.p_mutex ≡ some j
  pub p_owns : (j : ℕ) → m.p_mutex ≡ some j → (in_p (pc j) ≡ true) × (j < n)
  pub c_owner : (j : ℕ) → in_c (pc j) ≡ true → m.c_mutex ≡ some j
  pub c_owns : (j : ℕ) → m.c_mutex ≡ some j → (in_c (pc j) ≡ true) × (j < n)
