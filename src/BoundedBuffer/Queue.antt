-- ===== src/BoundedBuffer/Queue.antt =====
-- product_consume_model.c as a queue of BUFFER_SIZE places, seen from its ends.
use dsui.Prelude.{ℕ, ◌<◌, ◌≡◌, Bool, some, List, All, arith, get_or}
use dsui.Fifo.{Moves, Change, same, entered_one, left_one}
use dsui.Fifo.Refines.{Buffer, run_refines}
use dsui.BoundedBuffer.{buffer_size, Shared, Pc, p_store, c_load, step, run, init}
use dsui.BoundedBuffer.Invariant.{Inv}
use dsui.BoundedBuffer.Moves.{step-Inv}
use dsui.BoundedBuffer.Safety.{ends, Inv-IsQueue, after-Inv}

step-Change :
    (i : ℕ) (m : Shared) (p : Pc) (m' : Shared) (p' : Pc)
    → step i m p ≡ some (m', p')
    → Change (ends m) (ends m')
unfolding step
step-Change i m (p_store x) m' p' e = entered_one x (ground arith)
step-Change i m c_load m' p' e = left_one (get_or m.buffer m.out 0) (ground arith)
step-Change i m p m' p' e = same (ground arith)

abbrev threads_buffer : ℕ → Buffer ℕ (λ i. i) step
threads_buffer n = record {
  Allowed = λ i. i < n;
  Inv = λ s. Inv n s.mem s.pc;
  moved = λ s i lt inv m p e. step-Inv inv i lt e;
  places = buffer_size;
  ends = ends;
  queue = λ s inv. Inv-IsQueue s inv;
  change = step-Change;
}

-- From any state that a schedule reaches, whatever the schedule is from there, the items printed are
-- those that go through a queue of BUFFER_SIZE places: one is produced only while fewer than
-- BUFFER_SIZE wait, and the one consumed is the first of those waiting.
pub is_a_queue :
    (n : ℕ) (b : ℕ → Bool) (is js : List ℕ)
    → All (λ i. i < n) is
    → All (λ i. i < n) js
    → Moves buffer_size (ends (run (init b) is).mem) (ends (run (run (init b) is) js).mem)
is_a_queue n b is js before after =
    run_refines ℕ (λ i. i) step (threads_buffer n) (run (init b) is) js after
      (after-Inv n b is before)
