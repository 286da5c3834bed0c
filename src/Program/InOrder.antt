-- ===== src/Program/InOrder.antt =====
-- The order in which the program puts its frame buffers on the screen.
use mathlib.Core.List.{append_assoc, append-nil}
use dsui.Prelude.{
  ℕ, ◌≡◌, refl, sym, ◌∙◌, ap, Option, some, none, List, [], ◌∷◌, ◌++◌, arith, Option-cases, inl,
  inr, get_elem?,
}
use dsui.Mouse.Unsigned
use dsui.MBuffer.{BufferTask, Shared, Pc, c_run, step}
use dsui.Screen.Buffers.{Framebuffer}
use dsui.Program.{Display, Running, ◌>>=◌, max_produce_thread_num, effect, turn, run}

-- The number of the frame buffer that a task is about.
abbrev pub id_of : List Framebuffer → BufferTask → List ℕ
id_of bufs t = elim (get_elem? bufs t.args) [ none ↦ [] | some b ↦ b.fb_id ∷ [] ]

abbrev pub ids_of : List Framebuffer → List BufferTask → List ℕ
ids_of bufs [] = []
ids_of bufs (t ∷ ts) = id_of bufs t ++ ids_of bufs ts

-- The numbers of the frame buffers that the screen has shown, the first one first.
abbrev pub shown_ids : List (ℕ × (ℕ → ℕ)) → List ℕ
shown_ids [] = []
shown_ids (s ∷ ss) = shown_ids ss ++ s.0 ∷ []

pub ids_of-append :
    (bufs : List Framebuffer) (ts us : List BufferTask)
    → ids_of bufs (ts ++ us) ≡ ids_of bufs ts ++ ids_of bufs us
ids_of-append bufs [] us = refl
ids_of-append bufs (t ∷ ts) us =
    ap (λ l. id_of bufs t ++ l) (ids_of-append bufs ts us)
    ∙ sym (append_assoc (id_of bufs t) (ids_of bufs ts) (ids_of bufs us))

-- While a thread draws, nothing is shown.
draw_shows :
    (p : Pc) (at : Option (ℕ × ℕ)) (d : Display) {d' : Display} {hw : ℕ × ℕ}
    → effect p at d ≡ some (d', some hw)
    → (d'.buf ≡ d.buf) × (d'.world.shown ≡ d.world.shown)
unfolding effect
draw_shows p at d e = ground arith

-- A statement that ends shows what it has made of `consumed`.
end_shows :
    (i : ℕ) (m : Shared) (p : Pc) (at : Option (ℕ × ℕ)) (d : Display) {m' : Shared} {p' : Pc}
    {d' : Display}
    → step max_produce_thread_num i m p ≡ some (m', p')
    → effect p at d ≡ some (d', none)
    → shown_ids d.world.shown ≡ ids_of d.buf m.consumed
    → (d'.buf ≡ d.buf) × (shown_ids d'.world.shown ≡ ids_of d'.buf m'.consumed)
unfolding effect step
end_shows i m (c_run (some t)) at d e f same = ground (
  arith,
  same,
  ids_of-append d.buf m.consumed (t ∷ []),
  append-nil (id_of d.buf t),
  append-nil (ids_of d.buf m.consumed),
)
end_shows i m p at d e f same = ground (arith, same)

-- What the screen has shown is what the threads have made of `consumed`.
abbrev pub InOrder : Running → Type 0
InOrder r = shown_ids r.display.world.shown ≡ ids_of r.display.buf r.threads.mem.consumed

turn-InOrder :
    (r : Running) (i : ℕ) (mouse : Unsigned.MousePos) {r' : Running}
    → turn r (i, mouse) ≡ some r'
    → InOrder r
    → InOrder r'
unfolding turn
turn-InOrder r i mouse {r'} e same =
    let p = r.threads.pc i in
    let d = record r.display { g_mp = mouse } in
    elim (Option-cases (step max_produce_thread_num i r.threads.mem p)) [
      | inl blocked ↦ ground (arith, same)
      | inr ((m, p'), s) ↦ elim (Option-cases (effect p (r.drawing i) d)) [
        | inl stuck ↦ absurd (ground arith)
        | inr ((d', at), f) ↦ elim (Option-cases at) [
          | inl ended ↦
              ground (arith, (end_shows i r.threads.mem p (r.drawing i) d s (rw ended at f) same).1)
          | inr (hw, goes_on) ↦ ground (arith, same, draw_shows p (r.drawing i) d (rw goes_on at f))
        ]
      ]
    ]

pub run-InOrder :
    (r : Running) (js : List (ℕ × Unsigned.MousePos)) {r' : Running}
    → run r js ≡ some r'
    → InOrder r
    → InOrder r'
unfolding run
run-InOrder r [] {r'} e same = ground (arith, same)
run-InOrder r ((i, mouse) ∷ js) {r'} e same = elim (Option-cases (turn r (i, mouse))) [
  | inl stuck ↦ absurd (ground arith)
  | inr (r1, e1) ↦
      run-InOrder r1 js {r' = r'} (rw (e1, ◌>>=◌) at e) (turn-InOrder r i mouse e1 same)
]
