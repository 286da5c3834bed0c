-- ===== src/Program/Input/Together.antt =====
-- A schedule of m_buffer_input_show_test.cpp with its input thread, as one of its other threads that see
-- the pointer where the input thread has put it.
use dsui.Prelude.{ℕ, ◌≡◌, refl, Option, some, none, arith, List, [], ◌∷◌, Option-cases, inl, inr}
use dsui.Mouse.Unsigned
use dsui.MBuffer.{step, Pc, p_run, c_run}
use dsui.Program.{
  Display, Running, ◌>>=◌, max_produce_thread_num, produce_frame_buffer, consume_frame_buffer,
  effect, turn, run,
}
use dsui.Program.Input.{
  Statement, Whole, Turn, of_thread, of_input, with_mouse, whole_turn, whole_run, others,
}

-- The other threads leave the pointer.
effect-g_mp :
    (p : Pc) (at : Option (ℕ × ℕ)) (d : Display) {d' : Display} {at' : Option (ℕ × ℕ)}
    → effect p at d ≡ some (d', at')
    → d'.g_mp ≡ d.g_mp
unfolding effect produce_frame_buffer consume_frame_buffer
effect-g_mp (p_run (some t)) at d e = ground arith
effect-g_mp (c_run (some t)) at d e = ground arith
effect-g_mp (p_run none) at d e = ground arith
effect-g_mp (c_run none) at d e = ground arith
effect-g_mp p at d e = ground arith

turn-with_mouse :
    (r : Running) (i : ℕ) (mp : Unsigned.MousePos) {r' : Running}
    → turn r (i, mp) ≡ some r'
    → turn (with_mouse mp r) (i, mp) ≡ some (with_mouse mp r')
unfolding turn
turn-with_mouse r i mp {r'} e =
    elim (Option-cases (step max_produce_thread_num i r.threads.mem (r.threads.pc i))) [
      | inl n ↦ ground arith
      | inr ((m, p), s) ↦
          elim (Option-cases
            (effect (r.threads.pc i) (r.drawing i) (record r.display { g_mp = mp }))) [
              | inl stuck ↦ absurd (ground arith)
              | inr ((d, at), done) ↦
                  let kept = effect-g_mp (r.threads.pc i) (r.drawing i) _ done in
                  elim (Option-cases at) [
                    | inl ended ↦ ground arith
                    | inr (hw, goes_on) ↦ ground arith
                  ]
            ]
    ]

pub run-whole_run :
    (r : Running) (s : Statement) (mp : Unsigned.MousePos) (ts : List Turn) {r' : Running}
    → run r (others s mp ts) ≡ some r'
    → (w : Whole) × (mp' : Unsigned.MousePos) × (whole_run
          (record { rest = with_mouse mp r; input = s })
          ts
        ≡ some w)
      × (w.rest ≡ with_mouse mp' r')
unfolding whole_run whole_turn run
run-whole_run r s mp [] {r'} e = (_, mp, refl, ground arith)
run-whole_run r s mp (of_thread i ∷ ts) {r'} e = elim (Option-cases (turn r (i, mp))) [
  | inl stuck ↦ absurd (ground arith)
  | inr (r1, e1) ↦
      let (w, mp', runs, same) = run-whole_run r1 s mp ts {r' = r'} (rw (e1, ◌>>=◌) at e) in
      (w, mp', rw (turn-with_mouse r i mp e1, ◌>>=◌) runs, same)
]
run-whole_run r s mp (of_input event ∷ ts) {r'} e = run-whole_run r _ _ ts {r' = r'} e
