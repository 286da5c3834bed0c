-- ===== src/Program/Moves.antt =====
-- The turns of the program as turns of the multi-buffer model.
use dsui.Prelude.{◌⊎◌, ℕ, ◌<◌, ◌≡◌, some, List, [], ◌∷◌, All, arith, Option-cases, inl, inr}
use dsui.Mouse.Unsigned
use dsui.Threads
use dsui.MBuffer
use dsui.MBuffer.{p_wait, c_wait, t_post, step, BufferTask}
use dsui.Program.{Running, ◌>>=◌, max_produce_thread_num, effect, turn, run}

-- A turn is one of the multi-buffer model, or leaves its threads as they are.
turn-threads :
    (r : Running) (i : ℕ) (mouse : Unsigned.MousePos) {r' : Running}
    → turn r (i, mouse) ≡ some r'
    → (r'.threads ≡ MBuffer.turn max_produce_thread_num r.threads i) ⊎ (r'.threads ≡ r.threads)
unfolding turn Threads.turn
turn-threads r i mouse {r'} e =
    elim (Option-cases (step max_produce_thread_num i r.threads.mem (r.threads.pc i))) [
      | inl n ↦ inr (ground arith)
      | inr ((m, p), s) ↦
          elim (Option-cases
            (effect (r.threads.pc i) (r.drawing i) (record r.display { g_mp = mouse }))) [
              | inl stuck ↦ absurd (ground arith)
              | inr ((d, at), done) ↦ elim (Option-cases at) [
                | inl ended ↦ inl (ground arith)
                | inr (hw, goes_on) ↦ inr (ground arith)
              ]
            ]
    ]

pub run-threads :
    (n : ℕ) (r : Running) (js : List (ℕ × Unsigned.MousePos)) {r' : Running}
    → All (λ j. j.0 < n) js
    → run r js ≡ some r'
    → (is : List ℕ) × All (λ i. i < n) is
      × (r'.threads ≡ MBuffer.run max_produce_thread_num r.threads is)
unfolding run Threads.run
run-threads n r [] {r'} fair e = ([], tt, ground arith)
run-threads n r ((i, mouse) ∷ js) {r'} (ok, later) e = elim (Option-cases (turn r (i, mouse))) [
  | inl stuck ↦ absurd (ground arith)
  | inr (r1, e1) ↦
      let (is, all, done) = run-threads n r1 js {r' = r'} later (rw (e1, ◌>>=◌) at e) in
      elim (turn-threads r i mouse e1) [
        | inl moved ↦ (i ∷ is, (ok, all), rw moved at done)
        | inr same ↦ (is, all, rw same at done)
      ]
]
