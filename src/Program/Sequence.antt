-- ===== src/Program/Sequence.antt =====
-- What the screen shows of what is drawn, from `main` on.
use dsui.Prelude.{
  ◌∷◌, ℕ, ◌<◌, ◌≡◌, refl, sym, ◌∙◌, ap, some, none, List, [], ◌++◌, All, arith, Option-cases, inl,
  inr, get_elem?,
}
use dsui.Prelude.Int.{negsuc}
use dsui.Mouse.Unsigned
use dsui.MBuffer
use dsui.MBuffer.Order.{shown_in_order}
use dsui.Program.InOrder.{ids_of, ids_of-append, shown_ids, run-InOrder}
use dsui.Program.Moves.{run-threads}
use dsui.Screen.Drm.{Drm, World, log, open_card}
use dsui.Screen.{Setup, undefined, returned, ready, find_connector}
use dsui.Program.{
  Build, run, Running, ◌>>=◌, max_produce_thread_num, buffer_task_size, after_setup, main, running,
  make_tasks,
}

-- The program as `main` leaves it has its threads at their first statements, and has shown nothing new.
after_setup_lem :
    (build : Build) (drm : Drm) (s : Setup) (w : World) {r : Running}
    → after_setup build drm s w ≡ some (running r)
    → (r.threads ≡ MBuffer.init max_produce_thread_num (make_tasks 0 buffer_task_size))
      × (r.display.world.shown ≡ w.shown)
unfolding after_setup
after_setup_lem build drm undefined w e = absurd (ground arith)
after_setup_lem build drm (returned code) w e = absurd (ground arith)
after_setup_lem build drm (ready crtc conn c) w e = elim (Option-cases (get_elem? c.modes 0)) [
  | inl n ↦ absurd (ground arith)
  | inr (mode, first) ↦ ground arith
]

pub main_lem :
    (build : Build) (drm : Drm) (w : World) {r : Running}
    → main build drm w ≡ some (running r)
    → (r.threads ≡ MBuffer.init max_produce_thread_num (make_tasks 0 buffer_task_size))
      × (r.display.world.shown ≡ w.shown)
unfolding main
main_lem build drm w {r} e =
    elim (Option-cases (drm.resources (open_card (drm.card w.calls) ∷ w.calls))) [
      | inl n ↦ absurd (ground arith)
      | inr (res, got) ↦
          after_setup_lem build drm
            (find_connector 1 (returned (negsuc 0)) drm.connector res 0 res.count_connectors none)
            (log (open_card (drm.card w.calls)) w) (rw (got, ◌>>=◌) at e)
    ]

-- If nothing has been shown before and main of m_buffer_input_show_test.cpp gets to its threads, for
-- which m_buffer.cpp must be compiled for the one producer of this file (the Makefile compiles it for
-- ten) and functions that flow off their ends must go back to their callers, then after any schedule
-- that has run without a write outside a mapping, wherever the mouse was and also in the middle of
-- draws, the frame buffers that have been put on the screen are, in order, the first of those that
-- have been drawn to the end, each as often as it was drawn.
pub screen_in_order :
    (build : Build) (drm : Drm) (n : ℕ) (w : World) (r : Running)
    (js : List (ℕ × Unsigned.MousePos)) (r' : Running)
    → w.shown ≡ []
    → main build drm w ≡ some (running r)
    → All (λ j. j.0 < n) js
    → run r js ≡ some r'
    → (rest : List ℕ) × (ids_of r'.display.buf r'.threads.mem.produced
        ≡ shown_ids r'.display.world.shown ++ rest)
unfolding make_tasks MBuffer.init
screen_in_order build drm n w r js r' fresh started fair ran =
    let (at_start, unshown) = main_lem build drm w started in
    let (is, all, taken) = run-threads n r js fair ran in
    let state : r'.threads
        ≡ MBuffer.run max_produce_thread_num
            (MBuffer.init max_produce_thread_num (make_tasks 0 buffer_task_size)) is =
      rw⁻¹ at_start taken in
    let (rest, order) = shown_in_order n (make_tasks 0 buffer_task_size) is all refl in
    let drawn : r'.threads.mem.produced ≡ r'.threads.mem.consumed ++ rest = rw state order in
    let begun : shown_ids r.display.world.shown ≡ ids_of r.display.buf r.threads.mem.consumed =
      ground (arith, at_start, unshown, fresh) in
    let bufs = r'.display.buf in
    (
      ids_of bufs rest,
      ap (ids_of bufs) drawn
          ∙ ids_of-append bufs r'.threads.mem.consumed rest
          ∙ ap (λ l. l ++ ids_of bufs rest) (sym (run-InOrder r js ran begun)),
    )
