-- ===== src/MBuffer/Order.antt =====
-- The order in which m_buffer.cpp shows the tasks when it has one producer thread, as
-- MAX_PRODUCE_THREAD_NUM 1 makes it.
use mathlib.Core.List.{append_assoc, append-nil}
use dsui.Prelude.{
  ℕ, ◌<◌, ◌≡◌, refl, some, List, [], ◌∷◌, ◌++◌, if◌then◌else◌, arith, All, update, le-total,
}
use dsui.Threads.{run_keeps}
use dsui.MBuffer.{
  BufferTask, Shared, Pc, p_wait, p_trylock, p_take, p_unlock, p_run, p_lock, p_push, p_release,
  c_unlock, c_run, t_post, t_post_consumer, step, System, init, run, entry,
}
use dsui.MBuffer.Invariant.{in_hand, weight, sum, weighed}
use dsui.MBuffer.Safety.{init-weighed}
use dsui.MBuffer.Moves.{step-weighed_le}

-- 0 for a producer's statement, 1 for a consumer's, 2 for one of the ticking thread.
abbrev pub role : Pc → ℕ
role p_wait = 0
role p_trylock = 0
role p_take = 0
role (p_unlock _) = 0
role (p_run _) = 0
role (p_lock _) = 0
role (p_push _) = 0
role p_release = 0
role (t_post _) = 2
role t_post_consumer = 2
role _ = 1

-- Drawn, and not yet on `c_queue`.
abbrev pub before_queue : Pc → List BufferTask
before_queue (p_lock t) = t ∷ []
before_queue (p_push t) = t ∷ []
before_queue _ = []

-- Taken from `c_queue`, and not yet shown.
abbrev pub before_show : Pc → List BufferTask
before_show (c_unlock (some t)) = t ∷ []
before_show (c_run (some t)) = t ∷ []
before_show _ = []

abbrev pub waiting : Shared → Pc → Pc → List BufferTask
waiting m producer consumer = before_show consumer ++ (m.c_queue ++ before_queue producer)

-- 1 for a task whose `consume_task` is NULL.
abbrev pub not_shown : BufferTask → ℕ
not_shown t = if t.consume_task then 0 else 1

pub record Order (n : ℕ) (m : Shared) (pc : ℕ → Pc) : Type 0 where
  pub roles : (j : ℕ) → role (pc j) ≡ role (entry 1 j)
  pub all_shown : weighed not_shown n m pc ≡ 0
  pub in_order : m.produced ≡ m.consumed ++ waiting m (pc 0) (pc 1)

module _ {n : ℕ} {m : Shared} {pc : ℕ → Pc} (inv : Order n m pc) (i : ℕ) (lt : i < n) where
  open inv use {roles, all_shown, in_order}

  step-roles :
      (p : Pc) {m' : Shared} {p' : Pc}
      → pc i ≡ p
      → step 1 i m p ≡ some (m', p')
      → (j : ℕ) → role (update pc i p' j) ≡ role (entry 1 j)
  unfolding step
  step-roles p at e j = ground (arith, roles j, roles i)

  step-in_order :
      (p : Pc) {m' : Shared} {p' : Pc}
      → pc i ≡ p
      → step 1 i m p ≡ some (m', p')
      → m'.produced ≡ m'.consumed ++ waiting m' (update pc i p' 0) (update pc i p' 1)
  unfolding step
  step-in_order (p_run (some t)) at e = ground (
    arith,
    roles i,
    append-nil m.c_queue,
    append_assoc m.consumed (before_show (pc 1) ++ m.c_queue) (t ∷ []),
    append_assoc (before_show (pc 1)) m.c_queue (t ∷ []),
  )
  step-in_order (p_push t) at e = ground (arith, roles i, append-nil (m.c_queue ++ t ∷ []))
  step-in_order (c_run (some t)) at e = ground (
    arith,
    roles i,
    le-total (λ p. weight not_shown (in_hand p)) n pc i lt,
    append_assoc m.consumed (t ∷ []) (m.c_queue ++ before_queue (pc 0)),
  )
  step-in_order p at e = ground (arith, roles i)

  pub step-Order :
      {m' : Shared} {p' : Pc} → step 1 i m (pc i) ≡ some (m', p') → Order n m' (update pc i p')
  step-Order {m'} {p'} e = record {
    roles = step-roles _ refl e;
    all_shown = omega (arith, all_shown, step-weighed_le not_shown 1 n m pc i lt (pc i) refl e);
    in_order = step-in_order _ refl e;
  }

pub init-Order :
    (n : ℕ) (tasks : List BufferTask)
    → sum not_shown tasks ≡ 0
    → Order n (init 1 tasks).mem (init 1 tasks).pc
unfolding init
init-Order n tasks shown = record {
  roles = λ j. refl;
  all_shown = omega (arith, shown, init-weighed not_shown n 1 tasks);
  in_order = refl;
}

module _ (n : ℕ) (tasks : List BufferTask) (is : List ℕ) (threads : All (λ i. i < n) is) where
  abbrev pub with_one_producer : System
  with_one_producer = run 1 (init 1 tasks) is

  with_one_producer-Order :
      sum not_shown tasks ≡ 0 → Order n with_one_producer.mem with_one_producer.pc
  with_one_producer-Order shown =
      run_keeps (λ i. i) (step 1) (λ i. i < n) (λ s. Order n s.mem s.pc)
        (λ s i lt inv m p e. step-Order inv i lt e) (init 1 tasks) is threads
        (init-Order n tasks shown)

  -- With one producer thread and tasks whose consume_task is not NULL, under any schedule the tasks
  -- shown are, in order, the first of those drawn.
  pub shown_in_order :
      sum not_shown tasks ≡ 0
      → (rest : List BufferTask) × (with_one_producer.mem.produced
          ≡ with_one_producer.mem.consumed ++ rest)
  shown_in_order shown = (_, (with_one_producer-Order shown).in_order)
