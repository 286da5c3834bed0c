-- ===== src/Program/Live/Shows.antt =====
-- How many frame buffers m_buffer_input_show_test.cpp has put on the screen, by the calls of
-- `consume_frame_buffer`.
use dsui.Prelude.{
  ℕ, zero, suc, ◌<◌, ◌≡◌, refl, sym, ap, ◌∙◌, Option, none, some, List, [], ◌∷◌, ◌++◌, All, arith,
  Option-cases, inl, inr, get_elem?, length, length-append, ltb, if◌then◌else◌, le-total,
}
use dsui.Mouse.Unsigned
use dsui.Threads.{run_keeps}
use dsui.MBuffer
use dsui.MBuffer.{BufferTask, Shared, Pc, p_run, c_run, step}
use dsui.MBuffer.Invariant.{in_hand, weight, sum, weighed}
use dsui.MBuffer.Moves.{step-weighed_le, sum-snoc}
use dsui.MBuffer.Safety.{init-weighed}
use dsui.Screen.Buffers.{Framebuffer}
use dsui.Program.{
  Display, Running, ◌>>=◌, max_produce_thread_num, buffer_task_size, produce_frame_buffer,
  consume_frame_buffer, effect, turn, run, make_tasks,
}
use dsui.Program.InOrder.{id_of, ids_of, shown_ids, InOrder, run-InOrder}

effect-buf :
    (p : Pc) (at : Option (ℕ × ℕ)) (d : Display) {d' : Display} {at' : Option (ℕ × ℕ)}
    → effect p at d ≡ some (d', at')
    → d'.buf ≡ d.buf
unfolding effect produce_frame_buffer consume_frame_buffer
effect-buf (p_run (some t)) at d e = ground arith
effect-buf (c_run (some t)) at d e = ground arith
effect-buf (p_run none) at d e = ground arith
effect-buf (c_run none) at d e = ground arith
effect-buf p at d e = ground arith

turn-buf :
    (r : Running) (i : ℕ) (mouse : Unsigned.MousePos) {r' : Running}
    → turn r (i, mouse) ≡ some r'
    → r'.display.buf ≡ r.display.buf
unfolding turn
turn-buf r i mouse {r'} e =
    elim (Option-cases (step max_produce_thread_num i r.threads.mem (r.threads.pc i))) [
      | inl n ↦ ground arith
      | inr ((m, p), s) ↦
          let d = record r.display { g_mp = mouse } in
          elim (Option-cases (effect (r.threads.pc i) (r.drawing i) d)) [
            | inl stuck ↦ absurd (ground arith)
            | inr ((d', at), done) ↦
                let same = effect-buf (r.threads.pc i) (r.drawing i) d done in
                elim (Option-cases at) [
                  | inl ended ↦ ground (arith, same)
                  | inr (hw, goes_on) ↦ ground (arith, same)
                ]
          ]
    ]

run-buf :
    (r : Running) (js : List (ℕ × Unsigned.MousePos)) {r' : Running}
    → run r js ≡ some r'
    → r'.display.buf ≡ r.display.buf
unfolding run
run-buf r [] {r'} e = ground arith
run-buf r ((i, mouse) ∷ js) {r'} e = elim (Option-cases (turn r (i, mouse))) [
  | inl stuck ↦ absurd (ground arith)
  | inr (r1, e1) ↦ run-buf r1 js {r' = r'} (rw (e1, ◌>>=◌) at e) ∙ turn-buf r i mouse e1
]

-- 1 for a task that is about none of the frame buffers.
abbrev pub astray : BufferTask → ℕ
astray t = if ltb t.args buffer_task_size then 0 else 1

-- No task is, and none has been shown.
abbrev pub AllFound : ℕ → Shared → (ℕ → Pc) → Type 0
AllFound n m pc = (weighed astray n m pc ≡ 0) × (sum astray m.consumed ≡ 0)

step-consumed_found :
    (k n i : ℕ) (m : Shared) (pc : ℕ → Pc) (p : Pc) {m' : Shared} {p' : Pc}
    → i < n
    → AllFound n m pc
    → pc i ≡ p
    → step k i m p ≡ some (m', p')
    → sum astray m'.consumed ≡ 0
unfolding step
step-consumed_found k n i m pc (c_run (some t)) lt found at e = ground (
  arith,
  found,
  sum-snoc astray m.consumed t,
  le-total (λ q. weight astray (in_hand q)) n pc i lt,
)
step-consumed_found k n i m pc p lt found at e = ground (arith, found)

pub run-AllFound :
    (k n : ℕ) (s : MBuffer.System) (is : List ℕ)
    → All (λ i. i < n) is
    → AllFound n s.mem s.pc
    → AllFound n (MBuffer.run k s is).mem (MBuffer.run k s is).pc
run-AllFound k n s is ok start =
    run_keeps (λ i. i) (step k) (λ i. i < n) (λ s. AllFound n s.mem s.pc)
      (λ s i lt found m p e. (
        omega (arith, found, step-weighed_le astray k n s.mem s.pc i lt (s.pc i) refl e),
        step-consumed_found k n i s.mem s.pc (s.pc i) lt found refl e,
      ))
      s is ok start

pub init-AllFound :
    (k n : ℕ)
    → AllFound n
        (MBuffer.init k (make_tasks 0 buffer_task_size)).mem
        (MBuffer.init k (make_tasks 0 buffer_task_size)).pc
unfolding make_tasks MBuffer.init
init-AllFound k n = (omega (arith, init-weighed astray n k (make_tasks 0 buffer_task_size)), refl)

found :
    (bufs : List Framebuffer) (k : ℕ)
    → k < length bufs
    → (b : Framebuffer) × (get_elem? bufs k ≡ some b)
found [] k lt = absurd (omega arith)
found (b ∷ bufs) zero lt = (b, refl)
found (b ∷ bufs) (suc k) lt = found bufs k (omega arith)

id_of-found :
    (bufs : List Framebuffer) (t : BufferTask) (b : Framebuffer)
    → get_elem? bufs t.args ≡ some b
    → id_of bufs t ≡ b.fb_id ∷ []
id_of-found bufs t b e = rw (e, id_of) refl

length-ids_of :
    (bufs : List Framebuffer) (ts : List BufferTask)
    → length bufs ≡ buffer_task_size
    → sum astray ts ≡ 0
    → length (ids_of bufs ts) ≡ length ts
length-ids_of bufs [] three none_astray = refl
length-ids_of bufs (t ∷ ts) three none_astray =
    let (b, e) = found bufs t.args (ground (arith, three, none_astray)) in
    let rest = length-ids_of bufs ts three (omega (arith, none_astray)) in
    ap (λ l. length (l ++ ids_of bufs ts)) (id_of-found bufs t b e) ∙ ap suc rest

length-shown_ids : (shown : List (ℕ × (ℕ → ℕ))) → length (shown_ids shown) ≡ length shown
length-shown_ids [] = refl
length-shown_ids (s ∷ ss) =
    omega (arith, length-append (shown_ids ss) (s.0 ∷ []), length-shown_ids ss)

-- As many frame buffers have been put on the screen as tasks were shown.
pub run-shown :
    (r : Running) (js : List (ℕ × Unsigned.MousePos)) (n : ℕ) {r' : Running}
    → run r js ≡ some r'
    → InOrder r
    → length r.display.buf ≡ buffer_task_size
    → AllFound n r'.threads.mem r'.threads.pc
    → InOrder r'
      × (length r'.display.buf ≡ buffer_task_size)
      × (length r'.display.world.shown ≡ length r'.threads.mem.consumed)
run-shown r js n {r'} e order three found =
    let order' = run-InOrder r js {r' = r'} e order in
    let three' = ap length (run-buf r js {r' = r'} e) ∙ three in
    (
      order',
      three',
      sym (length-shown_ids r'.display.world.shown)
          ∙ ap length order'
          ∙ length-ids_of r'.display.buf r'.threads.mem.consumed three' found.1,
    )
