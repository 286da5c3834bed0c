-- ===== src/Threads/Fair.antt =====
-- Schedules in rounds, in each of which every thread has a turn, and how a count of the moves grows
-- with the rounds.
use dsui.Prelude.{
  ℕ, ◌+◌, ◌≤◌, ◌<◌, ◌≡◌, ◌≢◌, Bool, true, false, ◌||◌, ◌==◌, Option, none, some, List, [], ◌∷◌,
  arith, length, All, update, Option-cases, inl, inr,
}
use dsui.Threads.{System, turn, run, turn_cases, run_keeps}

module _ {Turn Mem Pc : Type 0} (thread : Turn → ℕ)
    (step : Turn → Mem → Pc → Option (Mem × Pc)) where
  abbrev pub has_turn : ℕ → List Turn → Bool
  has_turn k [] = false
  has_turn k (t ∷ ts) = thread t == k || has_turn k ts

  -- Among `n` threads: only allowed turns, and at least one of each thread.
  abbrev pub Round : (Turn → Type 0) → ℕ → List Turn → Type 0
  Round Allowed n ts = All Allowed ts × ((k : ℕ) → k < n → has_turn k ts ≡ true)

  unfoldable pub run_rounds : System Mem Pc → List (List Turn) → System Mem Pc
  run_rounds s [] = s
  run_rounds s (ts ∷ rounds) = run_rounds (run thread step s ts) rounds

  module _ (Allowed : Turn → Type 0) (Inv : System Mem Pc → Type 0)
      (moved : (s : System Mem Pc) (t : Turn)
        → Allowed t
        → Inv s
        → (m : Mem) (p : Pc) → step t s.mem (s.pc (thread t)) ≡ some (m, p)
        → Inv (record { mem = m; pc = update s.pc (thread t) p }))
      (age : System Mem Pc → ℕ)
      (older : (s : System Mem Pc) (t : Turn)
        → Allowed t
        → Inv s
        → (m : Mem) (p : Pc) → step t s.mem (s.pc (thread t)) ≡ some (m, p)
        → age s < age (record { mem = m; pc = update s.pc (thread t) p })) where
    abbrev pub CanMove : ℕ → System Mem Pc → Type 0
    CanMove k s = (t : Turn) → thread t ≡ k → step t s.mem (s.pc (thread t)) ≢ none

    turn-Inv : (s : System Mem Pc) (t : Turn) → Allowed t → Inv s → Inv (turn thread step s t)
    turn-Inv s t ok inv = turn_cases thread step Inv s t inv (moved s t ok inv)

    age-run :
        (s : System Mem Pc) (ts : List Turn)
        → All Allowed ts
        → Inv s
        → age s ≤ age (run thread step s ts)
    unfolding run
    age-run s [] ok inv = omega arith
    age-run s (t ∷ ts) (here, later) inv = omega (
      arith,
      turn_cases thread step (λ s'. age s ≤ age s') s t (omega arith)
          (λ m p e. omega (arith, older s t here inv m p e)),
      age-run (turn thread step s t) ts later (turn-Inv s t here inv),
    )

    -- A thread that can move still can when it has its turn, or another has moved before.
    age-run-has_turn :
        (k : ℕ) (s : System Mem Pc) (ts : List Turn)
        → All Allowed ts
        → Inv s
        → CanMove k s
        → has_turn k ts ≡ true
        → age s < age (run thread step s ts)
    unfolding run turn
    age-run-has_turn k s [] ok inv can has = cc
    age-run-has_turn k s (t ∷ ts) (here, later) inv can has =
        elim (Option-cases (step t s.mem (s.pc (thread t)))) [
          | inl e ↦
              let again : has_turn k ts ≡ true = ground (arith, has, e, can t) in
              rw (e, turn) (age-run-has_turn k s ts later inv can again)
          | inr ((m, p), e) ↦
              let s' : System Mem Pc = record { mem = m; pc = update s.pc (thread t) p } in
              rw (e, turn)
                (omega
                  (arith, older s t here inv m p e, age-run s' ts later (moved s t here inv m p e)))
        ]

    pub age-run_rounds :
        (n : ℕ) (some_moves : (s : System Mem Pc) → Inv s → (k : ℕ) × (k < n) × CanMove k s)
        (s : System Mem Pc) (rounds : List (List Turn))
        → All (Round Allowed n) rounds
        → Inv s
        → Inv (run_rounds s rounds) × (age s + length rounds ≤ age (run_rounds s rounds))
    unfolding run_rounds
    age-run_rounds n some_moves s [] fair inv = (inv, omega arith)
    age-run_rounds n some_moves s (ts ∷ rounds) ((ok, all_run), later) inv =
        let (k, lt, can) = some_moves s inv in
        let (inv', older_yet) =
          age-run_rounds n some_moves (run thread step s ts) rounds later
            (run_keeps thread step Allowed Inv moved s ts ok inv) in
        (inv', omega (arith, age-run-has_turn k s ts ok inv can (all_run k lt), older_yet))
