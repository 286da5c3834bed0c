-- ===== src/FlashFb/Queue.antt =====
-- A box of flash_fb.c as a queue of one place, seen from its ends.
use dsui.Prelude.{ℕ, ◌<◌, ◌≡◌, some, List, arith, inl, inr, Bool-cases, ◌==◌}
use dsui.Threads.{always_allowed}
use dsui.Fifo.{Ends, Moves, IsQueue, Change, same, entered_one, left_one}
use dsui.Fifo.Refines.{Buffer, run_refines}
use dsui.FlashFb.{framebuffer_number, Shared, Pc, f_show, w_draw, step, System, run, init}
use dsui.FlashFb.Invariant.{outstanding, Inv, step-Inv, reached-Inv}

-- The serial numbers with which a box was drawn and shown.
abbrev pub ends : ℕ → Shared → Ends ℕ
ends i m = record { entered = m.drawn i; left = m.shown i }

Inv-IsQueue :
    (i : ℕ) (s : System) → i < framebuffer_number → Inv s.mem s.pc → IsQueue 1 (ends i s.mem)
Inv-IsQueue i s lt inv = record {
  waiting = outstanding s.mem i;
  in_order = inv.frames i lt;
  bounded = ground arith;
}

step-Change :
    (i : ℕ) (m : Shared) (p : Pc) (m' : Shared) (p' : Pc)
    → step m p ≡ some (m', p')
    → Change (ends i m) (ends i m')
unfolding step
step-Change i m (f_show k) m' p' e = elim (Bool-cases (i == k)) [
  | inl this ↦ left_one (m.fb_serial i) (ground arith)
  | inr other ↦ same (ground arith)
]
step-Change i m (w_draw k) m' p' e = elim (Bool-cases (i == k)) [
  | inl this ↦ entered_one (m.fb_serial i) (ground arith)
  | inr other ↦ same (ground arith)
]
step-Change i m p m' p' e = same (ground arith)

abbrev box_buffer : (i : ℕ) → i < framebuffer_number → Buffer ℕ (λ (j : ℕ). j) (λ j. step)
box_buffer i lt = record {
  Allowed = λ j. Unit;
  Inv = λ s. Inv s.mem s.pc;
  moved = λ s j ok inv m p e. step-Inv inv j e;
  places = 1;
  ends = ends i;
  queue = λ s inv. Inv-IsQueue i s lt inv;
  change = λ j. step-Change i;
}

-- From any state that a schedule of flash_fb.c reaches, whatever the schedule is from there, each box
-- is a queue of one place for the frames, by their serial numbers: a frame is drawn into a box only
-- while none waits in it, and the frame shown from it is the one that waits.
pub box_is_a_queue :
    (js ks : List ℕ) (i : ℕ)
    → i < framebuffer_number
    → Moves 1 (ends i (run init js).mem) (ends i (run (run init js) ks).mem)
box_is_a_queue js ks i lt =
    run_refines ℕ (λ j. j) (λ j. step) (box_buffer i lt) (run init js) ks (always_allowed ks)
      (reached-Inv js)
