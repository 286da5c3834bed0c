-- ===== src/Program/Turns.antt =====
-- What the turns of the program keep.
use dsui.Prelude.{
  ℕ, ◌^◌, ◌<◌, ◌≤◌, ◌≡◌, ◌≢◌, refl, false, none, some, List, [], ◌∷◌, All, Bool-cases, Option-cases,
  inl, inr, ◌==◌, update, arith, le-total,
}
use native.Mathlib.Decide.{ℕ_discrete}
use dsui.Mouse.Unsigned
use dsui.MBuffer.{BufferTask, Shared, Pc, step, p_run, entry}
use dsui.MBuffer.Invariant.{in_hand, weight, weighed}
use dsui.MBuffer.Moves.{step-weighed_le}
use dsui.MBuffer.Safety.{two_hands}
use dsui.MBuffer.Order.{role}
use dsui.Frame.Color.{InTrend}
use dsui.Program.{Display, Running, ◌>>=◌, max_produce_thread_num, turn, run}
use dsui.Program.Away.{about, away-queue, away-hand, step-role, drawn_in_hand-weight}
use dsui.Program.Picture.{IsRow}
use dsui.Program.Effects.{effect_lem}
use dsui.Program.Ready.{Of-map, All-map, Of-if, After-Kept, drawn_in_hand, Of, step-Kept}
use dsui.Program.Shown.{IsSized, Drawn, Half, AllPictures, Elsewhere, Effect}

module _ (At : Unsigned.MousePos → Type 0) (width height : ℕ)
    (small : (width < 2 ^ 16) × (height < 2 ^ 16)) where
  -- What holds between any two turns of `n` threads.
  pub record Good (n : ℕ) (r : Running) : Type 0 where
    pub sized : IsSized At width height r.display.buf
    pub trend : InTrend r.display.trend
    pub queue : All (Drawn At width height r.display) r.threads.mem.c_queue
    pub hands :
        (j : ℕ) → j < n → Of (Drawn At width height r.display) (drawn_in_hand (r.threads.pc j))
    pub halves :
        (j : ℕ) (t : BufferTask) (h w : ℕ)
        → r.threads.pc j ≡ p_run (some t)
        → r.drawing j ≡ some (h, w)
        → Half At width height r.display t h w
    pub roles : (j : ℕ) → role (r.threads.pc j) ≡ role (entry max_produce_thread_num j)
    pub unique : (a : ℕ) → weighed (about a) n r.threads.mem r.threads.pc ≤ 1
    pub shown : AllPictures At width height r.display.world.shown

  module _ {n : ℕ} {r : Running} (good : Good n r) (i : ℕ) (lt : i < n) where
    away_from_queue : All (Elsewhere (r.threads.pc i)) r.threads.mem.c_queue
    away_from_queue = away-queue (r.threads.pc i) r.threads.mem.c_queue (λ t at. ground (
      arith,
      good.unique t.args,
      le-total (λ p. weight (about t.args) (in_hand p)) n r.threads.pc i lt,
    ))

    away_from_hand :
        (j : ℕ) → j < n → Of (Elsewhere (r.threads.pc i)) (drawn_in_hand (r.threads.pc j))
    away_from_hand j lt_j = away-hand (r.threads.pc i) (drawn_in_hand (r.threads.pc j)) (λ t at.
        elim (ℕ_discrete i j) [
          | yes same ↦ ground arith
          | no other ↦ ground (
            arith,
            good.unique t.args,
            two_hands (about t.args) n r.threads.pc i j lt lt_j other,
            drawn_in_hand-weight (about t.args) (r.threads.pc j),
          )
        ])

    -- No thread but the first one draws.
    draws_alone :
        (j : ℕ) (t : BufferTask)
        → r.threads.pc j ≡ p_run (some t)
        → (j == i) ≡ false
        → (t' : BufferTask) → r.threads.pc i ≢ p_run (some t')
    draws_alone j t at other t' at' = ground (arith, good.roles i, good.roles j)

    -- The step of a thread whose drawing, if it draws, has come to its end.
    advance-Good :
        (mouse : Unsigned.MousePos) {m : Shared} {p : Pc} (d' : Display)
        → step max_produce_thread_num i r.threads.mem (r.threads.pc i) ≡ some (m, p)
        → Effect At width height (r.threads.pc i) (record r.display { g_mp = mouse }) d' none
        → Good n (record {
          display = d';
          threads = record { mem = m; pc = update r.threads.pc i p };
          drawing = update r.drawing i none;
        })
    advance-Good mouse {m} {p} d' e eff =
        let queue = All-map r.threads.mem.c_queue eff.keeps away_from_queue good.queue in
        let hand =
          Of-map (drawn_in_hand (r.threads.pc i)) eff.keeps (away_from_hand i lt)
            (good.hands i lt) in
        let kept = After-Kept (Drawn At width height d') _ e (
          step-Kept (Drawn At width height d') max_produce_thread_num i r.threads.mem
            (r.threads.pc i) queue hand (eff.draws refl)) in
        record {
          sized = rw eff.same_bufs good.sized;
          trend = eff.trend;
          queue = kept.0;
          hands = λ j lt_j. Of-if (Drawn At width height d') (j == i) p (r.threads.pc j) kept.1 (
              Of-map (drawn_in_hand (r.threads.pc j)) eff.keeps (away_from_hand j lt_j)
                (good.hands j lt_j));
          halves = λ j t h w at go. elim (Bool-cases (j == i)) [
            | inl this ↦ absurd (ground (arith, this))
            | inr other ↦
                let was : r.threads.pc j ≡ p_run (some t) = ground (arith, other) in
                eff.keeps_half (draws_alone j t was other) t h w
                  (good.halves j t h w was (ground (arith, other)))
          ];
          roles = λ j. ground (arith, good.roles j, good.roles i, step-role i _ _ e);
          unique = λ a. omega (
            arith,
            good.unique a,
            step-weighed_le (about a) max_produce_thread_num n r.threads.mem r.threads.pc i lt
                (r.threads.pc i) refl e,
          );
          shown = eff.shows good.shown;
        }

    -- A thread that has drawn a pixel and goes on drawing.
    draw-Good :
        (mouse : Unsigned.MousePos) (d' : Display) (hw : ℕ × ℕ)
        → Effect At width height (r.threads.pc i) (record r.display { g_mp = mouse }) d' (some hw)
        → Good n
            (record { display = d'; threads = r.threads; drawing = update r.drawing i (some hw) })
    draw-Good mouse d' hw eff = record {
      sized = rw eff.same_bufs good.sized;
      trend = eff.trend;
      queue = All-map r.threads.mem.c_queue eff.keeps away_from_queue good.queue;
      hands = λ j lt_j.
          Of-map (drawn_in_hand (r.threads.pc j)) eff.keeps (away_from_hand j lt_j)
            (good.hands j lt_j);
      halves = λ j t h w at go. elim (Bool-cases (j == i)) [
        | inl this ↦ eff.goes_on t h w (ground (arith, this)) (ground (arith, this))
        | inr other ↦
            eff.keeps_half (draws_alone j t at other) t h w
              (good.halves j t h w at (ground (arith, other)))
      ];
      roles = good.roles;
      unique = good.unique;
      shown = eff.shows good.shown;
    }

  pub turn-Good :
      {n : ℕ} (r : Running) (i : ℕ) (mouse : Unsigned.MousePos)
      → i < n
      → At mouse
      → IsRow mouse.y
      → Good n r
      → (r' : Running) × (turn r (i, mouse) ≡ some r') × Good n r'
  unfolding turn
  turn-Good r i mouse lt here low good =
      elim (Option-cases (step max_produce_thread_num i r.threads.mem (r.threads.pc i))) [
        | inl n ↦ (r, rw (n, turn) refl, good)
        | inr ((m, p), e) ↦
            let (d', at', e', eff) =
              effect_lem At width height small (r.threads.pc i) (r.drawing i)
                (record r.display { g_mp = mouse }) good.sized good.trend here low (good.hands i lt)
                (λ t h w. good.halves i t h w) in
            elim (Option-cases at') [
              | inl ended ↦ (
                _,
                rw (e, turn, e', ended, ◌>>=◌) refl,
                advance-Good good i lt mouse d' e (rw ended at eff),
              )
              | inr (hw, goes_on) ↦ (
                _,
                rw (e, turn, e', goes_on, ◌>>=◌) refl,
                draw-Good good i lt mouse d' hw (rw goes_on at eff),
              )
            ]
      ]

  pub run-Good :
      {n : ℕ} (r : Running) (js : List (ℕ × Unsigned.MousePos))
      → All (λ j. (j.0 < n) × At j.1 × IsRow j.1.y) js
      → Good n r
      → (r' : Running) × (run r js ≡ some r') × Good n r'
  unfolding run
  run-Good r [] fair good = (r, refl, good)
  run-Good r ((i, mouse) ∷ js) ((lt, here, low), later) good =
      let (r1, e1, good1) = turn-Good r i mouse lt here low good in
      let (r2, e2, good2) = run-Good r1 js later good1 in (r2, rw (e1, ◌>>=◌) e2, good2)
