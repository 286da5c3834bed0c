-- ===== src/Fifo/Refines.antt =====
-- The interface between the threads of a buffer and the queue of the parent: an invariant of the
-- statements says that what has entered and what has left are a queue, and each statement changes one
-- end.
use dsui.Prelude.{ℕ, ◌≡◌, Option, some, List, All, update}
use dsui.Threads
use dsui.Threads.{System}
use dsui.Fifo.{Ends, Moves, here, Moves-trans, IsQueue, Change, Change-Moves}

module _ {Turn Mem Pc : Type 0} (A : Type 0) (thread : Turn → ℕ)
    (step : Turn → Mem → Pc → Option (Mem × Pc)) where
  pub record Buffer : Type 1 where
    pub Allowed : Turn → Type 0
    pub Inv : System Mem Pc → Type 0
    pub moved :
        (s : System Mem Pc) (t : Turn)
        → Allowed t
        → Inv s
        → (m : Mem) (p : Pc) → step t s.mem (s.pc (thread t)) ≡ some (m, p)
        → Inv (record { mem = m; pc = update s.pc (thread t) p })
    pub places : ℕ
    pub ends : Mem → Ends A
    pub queue : (s : System Mem Pc) → Inv s → IsQueue places (ends s.mem)
    pub change :
        (t : Turn) (m : Mem) (p : Pc) (m' : Mem) (p' : Pc)
        → step t m p ≡ some (m', p')
        → Change (ends m) (ends m')

  -- A buffer refines the machine, from any state of its invariant and under any schedule.
  pub run_refines :
      (b : Buffer) (s : System Mem Pc) (ts : List Turn)
      → All b.Allowed ts
      → b.Inv s
      → Moves b.places (b.ends s.mem) (b.ends (Threads.run thread step s ts).mem)
  run_refines b s ts allowed inv =
      (Threads.run_keeps thread step b.Allowed
        (λ s'. b.Inv s' × Moves b.places (b.ends s.mem) (b.ends s'.mem))
        (λ s' t ok (inv', moves) m p e.
          let after = b.moved s' t ok inv' m p e in
          (
            after,
            Moves-trans moves
                (Change-Moves (b.change t s'.mem (s'.pc (thread t)) m p e) (b.queue _ after)),
          ))
        s ts allowed (inv, here)).1
