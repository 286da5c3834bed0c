-- ===== src/Program/Away.antt =====
-- Into which frame buffer a thread of the program draws, and which ones the other tasks are about.
use dsui.Prelude.{ℕ, ◌≤◌, ◌≡◌, Option, none, some, List, [], ◌∷◌, All, if◌then◌else◌, ◌==◌, arith}
use dsui.MBuffer.{BufferTask, Shared, Pc, step, p_run}
use dsui.MBuffer.Invariant.{in_hand, weight, sum}
use dsui.MBuffer.Order.{role}
use dsui.Program.{max_produce_thread_num}
use dsui.Program.Ready.{drawn_in_hand, Of}
use dsui.Program.Shown.{Elsewhere}

-- 1 for a task about this frame buffer.
abbrev pub about : ℕ → BufferTask → ℕ
about a t = if t.args == a then 1 else 0

-- Tasks on the queue and in the hands are about frame buffers into which no thread draws.
pub away-queue :
    (p : Pc) (ts : List BufferTask)
    → ((t : BufferTask) → p ≡ p_run (some t) → sum (about t.args) ts ≡ 0)
    → All (Elsewhere p) ts
away-queue p [] light = tt
away-queue p (t' ∷ ts) light =
    (λ t at same. ground (arith, light t at), away-queue p ts (λ t at. omega (arith, light t at)))

pub away-hand :
    (p : Pc) (o : Option BufferTask)
    → ((t : BufferTask) → p ≡ p_run (some t) → weight (about t.args) o ≡ 0)
    → Of (Elsewhere p) o
away-hand p none light = tt
away-hand p (some t') light = λ t at same. ground (arith, light t at)

pub step-role :
    (i : ℕ) (m : Shared) (p : Pc) {m' : Shared} {p' : Pc}
    → step max_produce_thread_num i m p ≡ some (m', p')
    → role p' ≡ role p
unfolding step
step-role i m p e = ground arith

pub drawn_in_hand-weight :
    (w : BufferTask → ℕ) (p : Pc) → weight w (drawn_in_hand p) ≤ weight w (in_hand p)
drawn_in_hand-weight w p = ground arith
