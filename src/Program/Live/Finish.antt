-- ===== src/Program/Live/Finish.antt =====
-- The turns of a thread of m_buffer_input_show_test.cpp from one statement of the multi-buffer model to the
-- next.
use dsui.Prelude.{
  ap, All-append, ◌∙◌, ℕ, zero, suc, ◌+◌, ◌*◌, ◌^◌, ◌<◌, ◌≡◌, refl, some, List, [], ◌∷◌, ◌++◌, All,
  arith, Option-cases, inl, inr,
}
use dsui.Mouse.Unsigned
use dsui.Threads
use dsui.MBuffer
use dsui.MBuffer.{BufferTask, Pc, p_run, c_run, step}
use dsui.Program.{Running, ◌>>=◌, max_produce_thread_num, turn, run}
use dsui.Program.Picture.{IsRow}
use dsui.Program.Turns.{Good, turn-Good}
use dsui.Program.Live.{behind, Inside, behind-le, turn-behind}

run-append :
    (r : Running) (js ks : List (ℕ × Unsigned.MousePos)) {r' : Running}
    → run r js ≡ some r'
    → run r (js ++ ks) ≡ run r' ks
unfolding run
run-append r [] ks {r'} e = ground arith
run-append r (j ∷ js) ks {r'} e = elim (Option-cases (turn r j)) [
  | inl stuck ↦ absurd (ground arith)
  | inr (r1, e1) ↦ rw (e1, ◌>>=◌) (run-append r1 js ks {r' = r'} (rw (e1, ◌>>=◌) at e))
]

module _ (width height : ℕ) (At : Unsigned.MousePos → Type 0)
    (small : (width < 2 ^ 16) × (height < 2 ^ 16)) (n : ℕ) (mouse : Unsigned.MousePos)
    (here : At mouse) (row : IsRow mouse.y) where
  -- What turns of a thread can bring about.
  abbrev pub Turned : Running → MBuffer.System → Type 0
  Turned r threads =
      (js : List (ℕ × Unsigned.MousePos)) × All (λ j. j.0 < n) js
      × (r' : Running) × (run r js ≡ some r')
      × Good At width height small n r'
      × (r'.threads ≡ threads)

  -- A turn of thread `i` is its turn in the multi-buffer model, or the next pixel.
  one_turn :
      (r : Running) (i : ℕ)
      → i < n
      → Good At width height small n r
      → ((r1 : Running)
          → Good At width height small n r1
          → r1.threads ≡ r.threads
          → behind width (r1.drawing i) ≡ behind width (r.drawing i) + 1
          → Inside width height (r1.drawing i)
          → Turned r1 (MBuffer.turn max_produce_thread_num r.threads i))
      → Turned r (MBuffer.turn max_produce_thread_num r.threads i)
  unfolding run
  one_turn r i lt good later =
      let (r1, e1, good1) = turn-Good At width height small r i mouse lt here row good in
      elim (turn-behind width height At r i mouse good.sized
        (λ t h w at go. (good.halves i t h w at go).2) e1) [
          | inl turned ↦ ((i, mouse) ∷ [], (lt, tt), r1, rw (e1, ◌>>=◌) refl, good1, turned)
          | inr (same, further, inside) ↦
              let (js, ok, r2, e2, good2, turned) = later r1 good1 same further inside in
              ((i, mouse) ∷ js, (lt, ok), r2, rw (e1, ◌>>=◌) e2, good2, turned)
        ]

  -- Turns of thread `i` until it has taken its turn in the multi-buffer model.
  finish :
      (bound : ℕ) (r : Running) (i : ℕ)
      → i < n
      → Good At width height small n r
      → height * width < behind width (r.drawing i) + bound
      → Turned r (MBuffer.turn max_produce_thread_num r.threads i)
  finish zero r i lt good far = one_turn r i lt good (λ r1 good1 same further inside.
      absurd (omega (arith, behind-le width height (r1.drawing i) inside, further, far)))
  finish (suc bound) r i lt good far = one_turn r i lt good (λ r1 good1 same further inside.
      rw (ap (λ s. MBuffer.turn max_produce_thread_num s i) same) at
        (finish bound r1 i lt good1 (omega (arith, further, far))))

  -- The turns that the multi-buffer model takes by a schedule.
  pub finish_statements :
      (r : Running) (is : List ℕ)
      → All (λ i. i < n) is
      → Good At width height small n r
      → Turned r (MBuffer.run max_produce_thread_num r.threads is)
  unfolding run Threads.run
  finish_statements r [] ok good = ([], tt, r, refl, good, refl)
  finish_statements r (i ∷ is) (lt, ok) good =
      let (js, below, r1, e1, good1, turned) =
        finish (suc (height * width)) r i lt good (omega arith) in
      let (ks, below', r2, e2, good2, turned') = finish_statements r1 is ok good1 in
      (
        js ++ ks,
        All-append (λ j. j.0 < n) js ks below below',
        r2,
        run-append r js ks e1 ∙ e2,
        good2,
        rw turned at turned',
      )
