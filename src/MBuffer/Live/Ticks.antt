-- ===== src/MBuffer/Live/Ticks.antt =====
-- What the ticking thread of m_buffer.cpp does up to the tick that a thread waits for.
use dsui.Prelude.{
  total-update, false, none, Bool-cases, ltb, ℕ, suc, zero, ◌+◌, ◌-◌, ◌<◌, ◌≤◌, ◌≡◌, ◌⊎◌, inl, inr,
  refl, some, arith, leb, ◌==◌, if◌then◌else◌, update,
}
use dsui.MBuffer.{sem_post, Shared, Pc, t_post, t_post_consumer, step}
use dsui.MBuffer.Order.{role}
use dsui.MBuffer.Invariant.{in_p, in_c, in_hand, weight, Locks}
use dsui.MBuffer.Live.{Live, complete, cost, pending}
use dsui.MBuffer.Live.Turns.{Shows, Shows-later}

-- How many statements of the ticking thread there are up to the `sem_post` for thread `i`.
abbrev to_post : ℕ → ℕ → Pc → ℕ
to_post k i (t_post j) = if leb j i then (i - j) + 2 else (k - j) + i + 5
to_post k i t_post_consumer = if i == k then 1 else i + 3
to_post k i p = 0

post_next :
    (k i j : ℕ) (m : Shared) (p : Pc)
    → i ≤ k
    → role p ≡ 2
    → (sems : ℕ → ℕ) × (p' : Pc) × (step k j m p ≡ some (record m { sems = sems }, p'))
      × (role p' ≡ 2)
      × ((0 < sems i) ⊎ (to_post k i p' < to_post k i p))
unfolding step
post_next k i j m (t_post l) le at = elim (Bool-cases (ltb l k)) [
  | inl below ↦ (
    update m.sems l (sem_post (m.sems l)),
    t_post (l + 1),
    rw (below, step) refl,
    refl,
    ground arith,
  )
  | inr above ↦ (m.sems, t_post_consumer, rw (above, step) refl, refl, ground arith)
]
post_next k i j m t_post_consumer le at = (_, _, refl, refl, ground arith)
post_next k i j m p le at = absurd (ground arith)

update_twice : (pc : ℕ → Pc) (j : ℕ) (p q : Pc) → update (update pc j p) j q ≡ update pc j q
update_twice pc j p q =
    let same : (l : ℕ) → update (update pc j p) j q l ≡ update pc j q l = λ l. ground arith in
    λ x l. same l x

update_same : (pc : ℕ → Pc) (j : ℕ) → update pc j (pc j) ≡ pc
update_same pc j =
    let same : (l : ℕ) → update pc j (pc j) l ≡ pc l = λ l. ground arith in λ x l. same l x

-- If a task can be shown once thread `i` has had its tick, whatever the ticking thread `j` has done
-- meanwhile, then one can be shown.
module _ (k n c i j : ℕ) (le : i ≤ k) (lt : j < n) (m : Shared) (pc : ℕ → Pc)
    (ready : (sems : ℕ → ℕ) (p : Pc)
      → role p ≡ 2
      → 0 < sems i
      → Shows k n c (record m { sems = sems }) (update pc j p)) where
  tick_until :
      (bound : ℕ) (sems : ℕ → ℕ) (p : Pc)
      → role p ≡ 2
      → to_post k i p < bound
      → Shows k n c (record m { sems = sems }) (update pc j p)
  tick_until zero sems p at far = absurd (omega arith)
  tick_until (suc bound) sems p at far =
      let (sems', p', e, at', posts) = post_next k i j (record m { sems = sems }) p le at in
      let there : update pc j p j ≡ p = ground arith in
      Shows-later k n c (record m { sems = sems }) (update pc j p) j
        {m' = record m { sems = sems' }} {p' = p'} lt (rw there e)
        (rw (update_twice pc j p p') (elim posts [
          | inl ticked ↦ ready sems' p' at' ticked
          | inr nearer ↦ tick_until bound sems' p' at' (omega (arith, nearer, far))
        ]))

  pub after_tick : role (pc j) ≡ 2 → Shows k n c m pc
  after_tick at =
      rw (update_same pc j) at
        (tick_until (suc (to_post k i (pc j))) m.sems (pc j) at (omega arith))

-- The ticking thread holds nothing.
ticking-idle :
    (p : Pc) → role p ≡ 2 → (in_p p ≡ false) × (in_c p ≡ false) × (in_hand p ≡ none) × (cost p ≡ 0)
ticking-idle p at = ground arith

module _ {k n j : ℕ} {m : Shared} {pc : ℕ → Pc} (inv : Live k n m pc) (lt : j < n)
    (ticking : role (pc j) ≡ 2) (sems : ℕ → ℕ) (p : Pc) (at : role p ≡ 2) where
  ticked-Locks : Locks n (record m { sems = sems }) (update pc j p)
  ticked-Locks = record {
    p_owner = λ l c. ground (arith, inv.locks.p_owner l, ticking-idle p at);
    p_owns = λ l c. ground (arith, inv.locks.p_owns l c, ticking-idle (pc j) ticking);
    c_owner = λ l c. ground (arith, inv.locks.c_owner l, ticking-idle p at);
    c_owns = λ l c. ground (arith, inv.locks.c_owns l c, ticking-idle (pc j) ticking);
  }

  pub ticked-Live : Live k n (record m { sems = sems }) (update pc j p)
  ticked-Live = record {
    locks = ticked-Locks;
    roles = λ l. ground (arith, inv.roles l, inv.roles j);
    kept = ground (
      arith,
      inv.kept,
      ticking-idle p at,
      ticking-idle (pc j) ticking,
      total-update (λ q. weight complete (in_hand q)) n pc j p lt,
    );
  }

  pub pending-ticked : pending n (record m { sems = sems }) (update pc j p) ≡ pending n m pc
  pending-ticked =
      ground (arith, ticking-idle p at, ticking-idle (pc j) ticking, total-update cost n pc j p lt)
