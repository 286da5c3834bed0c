-- ===== src/Program/Live/Always.antt =====
-- Whether m_buffer_input_show_test.cpp can come to a state after which its screen does not change.
use dsui.Prelude.{
  ◌≤◌, ◌*◌, true, ℕ, ◌^◌, ◌<◌, ◌≡◌, none, some, List, [], ◌∷◌, inl, All, arith, get_elem?, length,
}
use dsui.Prelude.Int.{negsuc}
use dsui.Mouse.Unsigned
use dsui.MBuffer
use dsui.MBuffer.Live.Always.{keeps_showing}
use dsui.Screen.Drm.{
  mappings, Drm, Calls, World, DrmModeModeInfo, DrmModeRes, DrmModeConnector, open_card,
}
use dsui.Screen.{returned, ready, find_connector}
use dsui.Program.{
  is_defined, Build, zero_pos, Running, max_produce_thread_num, buffer_task_size, run, main,
  running, make_tasks,
}
use dsui.Program.Picture.{IsRow}
use dsui.Program.Moves.{run-threads}
use dsui.Program.InOrder.{InOrder}
use dsui.Program.Sequence.{main_lem}
use dsui.MBuffer.Invariant.{sum}
use dsui.MBuffer.Live.{complete}
use dsui.Program.Turns.{run-Good}
use dsui.Program.Start.{main-Good}
use dsui.Program.Live.Finish.{finish_statements}
use dsui.Program.Live.Shows.{AllFound, run-AllFound, init-AllFound, run-shown}

abbrev Anywhere : Unsigned.MousePos → Type 0
Anywhere mp = Unit

seen_rows :
    (n : ℕ) (js : List (ℕ × Unsigned.MousePos))
    → All (λ j. (j.0 < n) × IsRow j.1.y) js
    → All (λ j. (j.0 < n) × Anywhere j.1 × IsRow j.1.y) js × All (λ j. j.0 < n) js
seen_rows n [] ok = (tt, tt)
seen_rows n (j ∷ js) ((lt, row), ok) =
    let (seen, below) = seen_rows n js ok in (((lt, tt, row), seen), (lt, below))

abbrev first_state : MBuffer.System
first_state = MBuffer.init max_produce_thread_num (make_tasks 0 buffer_task_size)

tasks-complete : 0 < sum complete (make_tasks 0 buffer_task_size)
unfolding make_tasks
tasks-complete = omega arith

main-InOrder :
    (build : Build) (drm : Drm) (w : World) {r : Running}
    → w.shown ≡ []
    → main build drm w ≡ some (running r)
    → InOrder r
unfolding MBuffer.init
main-InOrder build drm w fresh starts =
    let (at_start, unshown) = main_lem build drm w starts in
    ground (arith, at_start, unshown, fresh)

module _ (build : Build) (good : is_defined build ≡ true) (drm : Drm) (addr : Calls → ℕ → ℕ → ℕ)
    (mode : DrmModeModeInfo)
    (maps : (cs : Calls) (size offset : ℕ)
      → drm.address cs size offset ≡ some (addr cs size offset))
    (free : (cs : Calls) (size offset : ℕ) → mappings (addr cs size offset) cs ≡ 0)
    (small : (mode.hdisplay < 2 ^ 16) × (mode.vdisplay < 2 ^ 16))
    (room : (cs : Calls)
      → 4 * (mode.vdisplay * mode.hdisplay) ≤ (drm.dumb cs mode.hdisplay mode.vdisplay).2) where
  -- If m_buffer.cpp is compiled for the one producer of m_buffer_input_show_test.cpp (the Makefile
  -- compiles it for ten), functions that flow off their ends go back to their callers, every thread is
  -- created, the resources are there, the loop over the connectors ends with a connector whose first
  -- mode has less than 2^16 columns and rows, mmap works and gives an address where no mapping is, a
  -- buffer has room for four bytes a pixel, and nothing has been shown before, then main of
  -- m_buffer_input_show_test.cpp gets to its threads, and any schedule of at least three threads, with
  -- the pointer in rows whose distances to those of the picture are an `int`, runs without a write
  -- outside a mapping, to a state from which there is a schedule, to run so as well, after which more
  -- frame buffers have been put on the screen.
  pub screen_goes_on :
      (n crtc conn : ℕ) (c : DrmModeConnector) (res : DrmModeRes) (w : World)
      (js : List (ℕ × Unsigned.MousePos))
      → drm.resources (open_card (drm.card w.calls) ∷ w.calls) ≡ some res
      → find_connector 1 (returned (negsuc 0)) drm.connector res 0 res.count_connectors none
        ≡ ready crtc conn c
      → get_elem? c.modes 0 ≡ some mode
      → w.shown ≡ []
      → 2 < n
      → All (λ j. (j.0 < n) × IsRow j.1.y) js
      → (r : Running) × (r' : Running) × (ks : List (ℕ × Unsigned.MousePos)) × (r'' : Running)
        × (main build drm w ≡ some (running r))
        × (run r js ≡ some r')
        × (run r' ks ≡ some r'')
        × All (λ k. k.0 < n) ks
        × (length r'.display.world.shown < length r''.display.world.shown)
  screen_goes_on n crtc conn c res w js got found first fresh enough fair =
      let (seen, below) = seen_rows n js fair in
      let (r, starts, holds, at_start, three) =
        main-Good build good drm addr mode maps free small room Anywhere n crtc conn c res w got
          found first fresh in
      let (r', e', good') = run-Good Anywhere mode.hdisplay mode.vdisplay small r js seen holds in
      let (is, all, taken) = run-threads n r js below e' in
      let from_init : r'.threads ≡ MBuffer.run max_produce_thread_num first_state is =
        rw at_start at taken in
      let (ls, all', more) =
        keeps_showing max_produce_thread_num n (make_tasks 0 buffer_task_size) is (omega arith)
          (omega (arith, enough)) tasks-complete all in
      let (ks, below', r'', e'', good'', taken') =
        finish_statements mode.hdisplay mode.vdisplay Anywhere small n zero_pos tt
          (inl (omega arith)) r' ls all' good' in
      let found' : AllFound n r'.threads.mem r'.threads.pc = rw from_init (
        run-AllFound max_produce_thread_num n first_state is all
          (init-AllFound max_produce_thread_num n)) in
      let found'' : AllFound n r''.threads.mem r''.threads.pc =
        rw taken' (run-AllFound max_produce_thread_num n r'.threads ls all' found') in
      let (order', three', same') =
        run-shown r js n {r' = r'} e' (main-InOrder build drm w fresh starts) three found' in
      let (order'', three'', same'') = run-shown r' ks n {r' = r''} e'' order' three' found'' in
      let grows : length r'.threads.mem.consumed < length r''.threads.mem.consumed =
        rw (taken', from_init) more in
      (r, r', ks, r'', starts, e', e'', below', omega (arith, same', same'', grows))
