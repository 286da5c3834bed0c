-- ===== src/Program/Ready.antt =====
-- The tasks that have been drawn, in the steps of the multi-buffer model.
use dsui.Prelude.{
  ◌≡◌, ℕ, Bool, true, false, Option, none, some, List, [], ◌∷◌, ◌++◌, All, if◌then◌else◌, ◌==◌, ltb,
}
use dsui.MBuffer.{
  BufferTask, Shared, Pc, step, p_wait, p_trylock, p_take, p_unlock, p_run, p_lock, p_push,
  p_release, c_wait, c_lock, c_take, c_unlock, c_run, c_lock_back, c_push, c_release, t_post,
  t_post_consumer,
}

-- The task that a thread has in hand after it has been drawn and before it has been shown.
abbrev pub drawn_in_hand : Pc → Option BufferTask
drawn_in_hand (p_lock t) = some t
drawn_in_hand (p_push t) = some t
drawn_in_hand (c_unlock t) = t
drawn_in_hand (c_run t) = t
drawn_in_hand p = none

-- What holds of a task that a thread may have.
abbrev pub Of : (BufferTask → Type 0) → Option BufferTask → Type 0
Of P none = Unit
Of P (some t) = P t

-- What a thread has just drawn.
abbrev pub drawn_now : Pc → Option BufferTask
drawn_now (p_run (some t)) = if t.produce_task then some t else none
drawn_now p = none

module _ (P : BufferTask → Type 0) where
  All-snoc : (ts : List BufferTask) (t : BufferTask) → All P ts → P t → All P (ts ++ t ∷ [])
  All-snoc [] t ps p = (p, tt)
  All-snoc (x ∷ ts) t (px, ps) p = (px, All-snoc ts t ps p)

  abbrev pub Kept : Shared → Pc → Type 0
  Kept m p = All P m.c_queue × Of P (drawn_in_hand p)

  abbrev pub After : Option (Shared × Pc) → Type 0
  After none = Unit
  After (some (m, p)) = Kept m p

  After-if :
      (b : Bool) (x y : Option (Shared × Pc)) → After x → After y → After (if b then x else y)
  After-if true x y at_x at_y = at_x
  After-if false x y at_x at_y = at_y

  After-option :
      {A : Type 0} (o : Option A) (x : Option (Shared × Pc)) (f : A → Option (Shared × Pc))
      → After x
      → ((a : A) → After (f a))
      → After (elim o [ none ↦ x | some a ↦ f a ])
  After-option none x f at_x at_f = at_x
  After-option (some a) x f at_x at_f = at_f a

  run-Kept :
      (b : Bool) (m : Shared) (t : BufferTask)
      → All P m.c_queue
      → Of P (if b then some t else none)
      → After (
          if b
          then some (record m { produced = m.produced ++ t ∷ [] }, p_lock t)
          else some (m, p_wait))
  run-Kept true m t queue now = (queue, now)
  run-Kept false m t queue now = (queue, tt)

  take-Kept :
      (m : Shared) (q : List BufferTask)
      → All P m.c_queue
      → All P q
      → After (elim q [
        | [] ↦ some (m, c_unlock none)
        | t ∷ ts ↦ some (record m { c_queue = ts }, c_unlock (some t))
      ])
  take-Kept m [] queue all = (queue, tt)
  take-Kept m (t ∷ ts) queue (here, later) = (later, here)

  give-Kept :
      (m : Shared) (q : List BufferTask)
      → All P m.c_queue
      → After (elim q [
        | [] ↦ some (m, p_unlock none)
        | t ∷ ts ↦ some (record m { p_queue = ts }, p_unlock (some t))
      ])
  give-Kept m [] queue = (queue, tt)
  give-Kept m (t ∷ ts) queue = (queue, tt)

  -- A step of a thread keeps what holds of all tasks on `c_queue` and of the one in its hand.
  pub step-Kept :
      (n i : ℕ) (m : Shared) (p : Pc)
      → All P m.c_queue
      → Of P (drawn_in_hand p)
      → Of P (drawn_now p)
      → After (step n i m p)
  unfolding step
  step-Kept n i m p_wait queue hand now = After-if (m.sems i == 0) _ _ tt (queue, tt)
  step-Kept n i m p_trylock queue hand now =
      After-option m.p_mutex _ _ (queue, tt) (λ j. (queue, tt))
  step-Kept n i m p_take queue hand now = give-Kept m m.p_queue queue
  step-Kept n i m (p_unlock t) queue hand now = (queue, tt)
  step-Kept n i m (p_run none) queue hand now = (queue, tt)
  step-Kept n i m (p_run (some t)) queue hand now = run-Kept t.produce_task m t queue now
  step-Kept n i m (p_lock t) queue hand now = After-option m.c_mutex _ _ (queue, hand) (λ j. tt)
  step-Kept n i m (p_push t) queue hand now = (All-snoc m.c_queue t queue hand, tt)
  step-Kept n i m p_release queue hand now = (queue, tt)
  step-Kept n i m c_wait queue hand now = After-if (m.sems i == 0) _ _ tt (queue, tt)
  step-Kept n i m c_lock queue hand now = After-option m.c_mutex _ _ (queue, tt) (λ j. tt)
  step-Kept n i m c_take queue hand now = take-Kept m m.c_queue queue queue
  step-Kept n i m (c_unlock none) queue hand now = (queue, tt)
  step-Kept n i m (c_unlock (some t)) queue hand now = (queue, hand)
  step-Kept n i m (c_run none) queue hand now = (queue, tt)
  step-Kept n i m (c_run (some t)) queue hand now =
      After-if t.consume_task _ _ (queue, tt) (queue, tt)
  step-Kept n i m (c_lock_back t) queue hand now = After-option m.p_mutex _ _ (queue, tt) (λ j. tt)
  step-Kept n i m (c_push t) queue hand now = (queue, tt)
  step-Kept n i m c_release queue hand now = (queue, tt)
  step-Kept n i m (t_post k) queue hand now = After-if (ltb k n) _ _ (queue, tt) (queue, tt)
  step-Kept n i m t_post_consumer queue hand now = (queue, tt)

pub Of-map :
    {P Q R : BufferTask → Type 0} (o : Option BufferTask)
    → ((t : BufferTask) → R t → P t → Q t)
    → Of R o
    → Of P o
    → Of Q o
Of-map none f r h = tt
Of-map (some t) f r h = f t r h

pub All-map :
    {P Q R : BufferTask → Type 0} (ts : List BufferTask)
    → ((t : BufferTask) → R t → P t → Q t)
    → All R ts
    → All P ts
    → All Q ts
All-map [] f r h = tt
All-map (t ∷ ts) f (r, rs) (here, later) = (f t r here, All-map ts f rs later)

pub Of-if :
    (P : BufferTask → Type 0) (c : Bool) (p q : Pc)
    → Of P (drawn_in_hand p)
    → Of P (drawn_in_hand q)
    → Of P (drawn_in_hand (if c then p else q))
Of-if P true p q at_p at_q = at_p
Of-if P false p q at_p at_q = at_q

pub After-Kept :
    (P : BufferTask → Type 0) (o : Option (Shared × Pc)) {m : Shared} {p : Pc}
    → o ≡ some (m, p)
    → After P o
    → Kept P m p
After-Kept P o e after = rw e at after
