-- ===== src/MBuffer/Live/Always.antt =====
-- Whether the threads of m_buffer.cpp can come to a state in which nothing is shown any more.
use dsui.Prelude.{
  ℕ, suc, zero, ◌+◌, ◌<◌, ◌≤◌, ◌≡◌, ◌⊎◌, inl, inr, refl, true, none, List, [], ◌∷◌, All, ap, arith,
  length, update, total, total_pos, le-total, total_mono, Option-cases,
}
use native.Mathlib.Decide.{dec_lt}
use dsui.Threads.{run_keeps}
use dsui.MBuffer.{BufferTask, Shared, Pc, p_wait, p_trylock, c_wait, step, run, init}
use dsui.MBuffer.Invariant.{in_p, in_c, in_hand, weight, sum}
use dsui.MBuffer.Safety.{init-Locks, init-weighed}
use dsui.MBuffer.Order.{role}
use dsui.MBuffer.Live.{Live, step-Live, complete, pending, busy}
use dsui.MBuffer.Live.Turns.{Shows}
use dsui.MBuffer.Live.Ticks.{after_tick, ticked-Live, pending-ticked}
use dsui.MBuffer.Live.Shows.{advance, consume_next, produce_taking, produce_next, idle-hand}

inside-busy : (p : Pc) → (in_p p ≡ true) ⊎ (in_c p ≡ true) → 0 < busy p
inside-busy p inside = ground arith

idle-producer : (p : Pc) → role p ≡ 0 → busy p ≡ 0 → (p ≡ p_wait) ⊎ (p ≡ p_trylock)
idle-producer p_wait at idle = inl refl
idle-producer p_trylock at idle = inr refl
idle-producer p at idle = absurd (ground arith)

idle-consumer : (p : Pc) → role p ≡ 1 → busy p ≡ 0 → p ≡ c_wait
idle-consumer c_wait at idle = refl
idle-consumer p at idle = absurd (ground arith)

queue_cases :
    (ts : List BufferTask) → (ts ≡ []) ⊎ ((t : BufferTask) × (us : List BufferTask) × (ts ≡ t ∷ us))
queue_cases [] = inl refl
queue_cases (t ∷ us) = inr (t, us, refl)

module _ (k n c : ℕ) (some_producer : 0 < k) (all : k + 1 < n) where
  -- Where both mutexes are free and no thread is busy, a tick lets a task be taken.
  after_idle :
      (m : Shared) (pc : ℕ → Pc)
      → Live k n m pc
      → m.p_mutex ≡ none
      → m.c_mutex ≡ none
      → total busy n pc ≡ 0
      → ((m' : Shared) (pc' : ℕ → Pc)
          → Live k n m' pc'
          → pending n m' pc' < pending n m pc
          → m'.consumed ≡ m.consumed
          → Shows k n c m' pc')
      → Shows k n c m pc
  after_idle m pc inv p_free c_free idle nearer =
      let idle_at : (i : ℕ) → i < n → busy (pc i) ≡ 0 =
        λ i lt. omega (arith, idle, le-total busy n pc i lt) in
      let ticking : role (pc (k + 1)) ≡ 2 = ground (arith, inv.roles (k + 1)) in
      elim (queue_cases m.c_queue) [
        | inr (t, ts, queue) ↦
            let waits : pc k ≡ c_wait =
              idle-consumer (pc k) (ground (arith, inv.roles k)) (idle_at k (omega (arith, all))) in
            after_tick k n c k (k + 1) (omega arith) all m pc
              (λ sems p at ticked.
                consume_next k n c all (record m { sems = sems }) (update pc (k + 1) p) t ts
                  (ticked-Live inv all ticking sems p at) c_free (ground (arith, waits)) queue
                  ticked
                  (λ m' pc' inv' less kept.
                    nearer m' pc' inv'
                      (omega (arith, less, pending-ticked inv all ticking sems p at)) kept))
              ticking
        | inl empty ↦ elim (queue_cases m.p_queue) [
          | inl none_left ↦ absurd (
              ground (
                arith,
                inv.kept,
                total_mono (λ q. weight complete (in_hand q)) busy (idle-hand k n c all) n pc,
              ))
          | inr (t, ts, queue) ↦
              elim (idle-producer (pc 0) (ground (arith, inv.roles 0))
                (idle_at 0 (omega (arith, all)))) [
                  | inr at ↦ produce_taking k n c all m pc t ts inv p_free at queue nearer
                  | inl waits ↦
                      after_tick k n c 0 (k + 1) (omega arith) all m pc
                        (λ sems p at ticked.
                          produce_next k n c all (record m { sems = sems }) (update pc (k + 1) p) t
                            ts (ticked-Live inv all ticking sems p at) p_free
                            (ground (arith, waits)) queue ticked
                            (λ m' pc' inv' less kept.
                              nearer m' pc' inv'
                                (omega (arith, less, pending-ticked inv all ticking sems p at))
                                kept))
                        ticking
                ]
        ]
      ]

  Live-Shows :
      (bound : ℕ) (m : Shared) (pc : ℕ → Pc)
      → Live k n m pc
      → pending n m pc < bound
      → c ≤ length m.consumed
      → Shows k n c m pc
  Live-Shows zero m pc inv small le = absurd (omega arith)
  Live-Shows (suc bound) m pc inv small le =
      let nearer : (m' : Shared) (pc' : ℕ → Pc)
          → Live k n m' pc'
          → pending n m' pc' < pending n m pc
          → c ≤ length m'.consumed
          → Shows k n c m' pc' =
        λ m' pc' inv' less le'. Live-Shows bound m' pc' inv' (omega (arith, small, less)) le' in
      elim (Option-cases m.p_mutex) [
        | inr (j, held) ↦
            let (inside, lt) = inv.locks.p_owns j held in
            advance k n c all m pc j inv lt (inside-busy (pc j) (inl inside)) (inl (inl inside)) le
              nearer
        | inl p_free ↦ elim (Option-cases m.c_mutex) [
          | inr (j, held) ↦
              let (inside, lt) = inv.locks.c_owns j held in
              advance k n c all m pc j inv lt (inside-busy (pc j) (inr inside)) (inl (inr inside))
                le nearer
          | inl c_free ↦ elim (dec_lt 0 (total busy n pc)) [
            | yes works ↦
                let (i, lt, at) = total_pos busy n pc works in
                advance k n c all m pc i inv lt at (inr (p_free, c_free)) le nearer
            | no idle ↦
                after_idle m pc inv p_free c_free (omega (arith, idle)) (λ m' pc' inv' less kept.
                  nearer m' pc' inv' less (omega (arith, le, ap length kept)))
          ]
        ]
      ]

init-Live :
    (k n : ℕ) (tasks : List BufferTask)
    → 0 < sum complete tasks
    → Live k n (init k tasks).mem (init k tasks).pc
unfolding init
init-Live k n tasks given = record {
  locks = init-Locks n k tasks;
  roles = λ j. refl;
  kept = omega (arith, given, init-weighed complete n k tasks);
}

-- With at least one producer thread, the consumer and the ticking thread among the threads, and a
-- task with both callbacks among the constructor's tasks, from every state that a schedule of
-- m_buffer.cpp reaches there is a schedule after which more tasks have been shown.
pub keeps_showing :
    (k n : ℕ) (tasks : List BufferTask) (is : List ℕ)
    → 0 < k
    → k + 1 < n
    → 0 < sum complete tasks
    → All (λ i. i < n) is
    → (js : List ℕ) × All (λ j. j < n) js
      × (length (run k (init k tasks) is).mem.consumed
          < length (run k (run k (init k tasks) is) js).mem.consumed)
keeps_showing k n tasks is some_producer all given threads =
    let s = run k (init k tasks) is in
    let inv : Live k n s.mem s.pc =
      run_keeps (λ i. i) (step k) (λ i. i < n) (λ s'. Live k n s'.mem s'.pc)
        (λ s' i lt live m p e. step-Live live i lt e) (init k tasks) is threads
        (init-Live k n tasks given) in
    Live-Shows k n (length s.mem.consumed) some_producer all (suc (pending n s.mem s.pc)) s.mem s.pc
      inv (omega arith) (omega arith)
