-- ===== src/MBuffer/Moves.antt =====
-- What one statement of a thread of m_buffer.cpp does to the locks and to the tasks.
use dsui.Prelude.{
  ℕ, ◌+◌, ◌≤◌, ◌<◌, ◌≡◌, refl, true, false, some, List, [], ◌∷◌, ◌++◌, arith, update, total,
  total-update,
}
use dsui.MBuffer.{BufferTask, Shared, Pc, p_run, p_push, c_push, c_run, step}
use dsui.MBuffer.Invariant.{in_p, in_c, in_hand, weight, sum, weighed, Locks}

module _ (k : ℕ) {n : ℕ} {m : Shared} {pc : ℕ → Pc} (inv : Locks n m pc) (i : ℕ) (lt : i < n) where
  open inv use {p_owner, p_owns, c_owner, c_owns}

  step-p_owner :
      (p : Pc) {m' : Shared} {p' : Pc}
      → pc i ≡ p
      → step k i m p ≡ some (m', p')
      → (j : ℕ) → in_p (update pc i p' j) ≡ true
      → m'.p_mutex ≡ some j
  unfolding step
  step-p_owner p at e j c = ground (arith, p_owner j, p_owner i)

  step-p_owns :
      (p : Pc) {m' : Shared} {p' : Pc}
      → pc i ≡ p
      → step k i m p ≡ some (m', p')
      → (j : ℕ) → m'.p_mutex ≡ some j
      → (in_p (update pc i p' j) ≡ true) × (j < n)
  unfolding step
  step-p_owns p at e j c = ground (arith, p_owns j, p_owner i)

  step-c_owner :
      (p : Pc) {m' : Shared} {p' : Pc}
      → pc i ≡ p
      → step k i m p ≡ some (m', p')
      → (j : ℕ) → in_c (update pc i p' j) ≡ true
      → m'.c_mutex ≡ some j
  unfolding step
  step-c_owner p at e j c = ground (arith, c_owner j, c_owner i)

  step-c_owns :
      (p : Pc) {m' : Shared} {p' : Pc}
      → pc i ≡ p
      → step k i m p ≡ some (m', p')
      → (j : ℕ) → m'.c_mutex ≡ some j
      → (in_c (update pc i p' j) ≡ true) × (j < n)
  unfolding step
  step-c_owns p at e j c = ground (arith, c_owns j, c_owner i)

  pub step-Locks :
      {m' : Shared} {p' : Pc} → step k i m (pc i) ≡ some (m', p') → Locks n m' (update pc i p')
  step-Locks e = record {
    p_owner = step-p_owner _ refl e;
    p_owns = step-p_owns _ refl e;
    c_owner = step-c_owner _ refl e;
    c_owns = step-c_owns _ refl e;
  }

pub sum-snoc :
    (w : BufferTask → ℕ) (ts : List BufferTask) (t : BufferTask)
    → sum w (ts ++ t ∷ []) ≡ sum w ts + w t
sum-snoc w [] t = omega arith
sum-snoc w (x ∷ ts) t = omega (arith, sum-snoc w ts t)

module _ (w : BufferTask → ℕ) (k n : ℕ) (m : Shared) (pc : ℕ → Pc) (i : ℕ) (lt : i < n) where
  hands :
      (p p' : Pc)
      → pc i ≡ p
      → total (λ q. weight w (in_hand q)) n (update pc i p') + weight w (in_hand p)
        ≡ total (λ q. weight w (in_hand q)) n pc + weight w (in_hand p')
  hands p p' at = ground (arith, total-update (λ q. weight w (in_hand q)) n pc i p' lt)

  pub step-weighed :
      ((t : BufferTask) → t.produce_task ≡ false → w t ≡ 0)
      → ((t : BufferTask) → t.consume_task ≡ false → w t ≡ 0)
      → (p : Pc) {m' : Shared} {p' : Pc} → pc i ≡ p
      → step k i m p ≡ some (m', p')
      → weighed w n m' (update pc i p') ≡ weighed w n m pc
  unfolding step
  step-weighed no_produce no_consume (p_run (some t)) {p' = p'} at e =
      ground (arith, hands (p_run (some t)) p' at, no_produce t)
  step-weighed no_produce no_consume (c_run (some t)) {p' = p'} at e =
      ground (arith, hands (c_run (some t)) p' at, no_consume t)
  step-weighed no_produce no_consume (p_push t) {p' = p'} at e =
      ground (arith, hands (p_push t) p' at, sum-snoc w m.c_queue t)
  step-weighed no_produce no_consume (c_push t) {p' = p'} at e =
      ground (arith, hands (c_push t) p' at, sum-snoc w m.p_queue t)
  step-weighed no_produce no_consume p {p' = p'} at e = ground (arith, hands p p' at)

  -- Whatever the callbacks, nothing is doubled.
  pub step-weighed_le :
      (p : Pc) {m' : Shared} {p' : Pc}
      → pc i ≡ p
      → step k i m p ≡ some (m', p')
      → weighed w n m' (update pc i p') ≤ weighed w n m pc
  unfolding step
  step-weighed_le (p_push t) {p' = p'} at e =
      ground (arith, hands (p_push t) p' at, sum-snoc w m.c_queue t)
  step-weighed_le (c_push t) {p' = p'} at e =
      ground (arith, hands (c_push t) p' at, sum-snoc w m.p_queue t)
  step-weighed_le p {p' = p'} at e = ground (arith, hands p p' at)
