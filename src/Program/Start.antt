-- ===== src/Program/Start.antt =====
-- The program from its start: `main` and then the turns.
use dsui.Prelude.{
  ◌≤◌, ◌*◌, true, length, ◌≤◌, ltb, ◌==◌, false, ℕ, ◌^◌, ◌<◌, ◌≡◌, refl, none, some, List, [], ◌∷◌,
  All, arith, get_elem?,
}
use dsui.Prelude.Int.{negsuc}
use dsui.Mouse.Unsigned
use dsui.MBuffer
use dsui.MBuffer.Invariant.{sum}
use dsui.MBuffer.Safety.{init-weighed}
use dsui.MBuffer.{p_wait, c_wait, t_post, step, BufferTask}
use dsui.Screen.Drm.{
  mappings, mappings, Drm, Calls, World, log, DrmModeModeInfo, DrmModeRes, DrmModeConnector,
  open_card,
}
use dsui.Screen.{returned, ready, find_connector}
use dsui.Frame.Color.{InTrend}
use dsui.Program.{
  is_defined, Build, zero_pos, Display, Running, ◌>>=◌, max_produce_thread_num, buffer_task_size,
  run, after_setup, main, running, make_buffers, make_tasks,
}
use dsui.Program.Shown.{IsSized, Drawn, AllPictures}
use dsui.Program.Picture.{IsRow}
use dsui.Program.Moves.{run-threads}
use dsui.Program.Away.{about}
use dsui.Program.Buffers.{length-make_buffers, make_buffers-IsSized}
use dsui.Program.Ready.{Of-if}
use dsui.Program.Turns.{Good, run-Good}

pub only_threads :
    (n : ℕ) (At : Unsigned.MousePos → Type 0) (js : List (ℕ × Unsigned.MousePos))
    → All (λ j. (j.0 < n) × At j.1 × IsRow j.1.y) js
    → All (λ j. j.0 < n) js
only_threads n At [] fair = tt
only_threads n At (j ∷ js) (here, later) = (here.0, only_threads n At js later)

make_tasks-about : (a : ℕ) → sum (about a) (make_tasks 0 buffer_task_size) ≤ 1
unfolding make_tasks
make_tasks-about a = ground arith

module _ (build : Build) (good : is_defined build ≡ true) (drm : Drm) (addr : Calls → ℕ → ℕ → ℕ)
    (mode : DrmModeModeInfo)
    (maps : (cs : Calls) (size offset : ℕ)
      → drm.address cs size offset ≡ some (addr cs size offset))
    (free : (cs : Calls) (size offset : ℕ) → mappings (addr cs size offset) cs ≡ 0)
    (small : (mode.hdisplay < 2 ^ 16) × (mode.vdisplay < 2 ^ 16))
    (room : (cs : Calls)
      → 4 * (mode.vdisplay * mode.hdisplay) ≤ (drm.dumb cs mode.hdisplay mode.vdisplay).2) where
  init-Good :
      (At : Unsigned.MousePos → Type 0) (n : ℕ) (d : Display)
      → IsSized At mode.hdisplay mode.vdisplay d.buf
      → InTrend d.trend
      → d.world.shown ≡ []
      → Good At mode.hdisplay mode.vdisplay small n (record {
        display = d;
        threads = MBuffer.init max_produce_thread_num (make_tasks 0 buffer_task_size);
        drawing = λ i. none;
      })
  unfolding MBuffer.init
  init-Good At n d sized trend fresh = record {
    sized = sized;
    trend = trend;
    queue = tt;
    hands = λ j lt.
        let P = Drawn At mode.hdisplay mode.vdisplay d in
        Of-if P (ltb j max_produce_thread_num) p_wait _ tt
          (Of-if P (j == max_produce_thread_num) c_wait (t_post 0) tt tt);
    halves = λ j t h w at go. absurd cc;
    roles = λ j. refl;
    unique = λ a. omega (
      arith,
      init-weighed (about a) n max_produce_thread_num (make_tasks 0 buffer_task_size),
      make_tasks-about a,
    );
    shown = rw fresh tt;
  }

  -- `main` gets to its threads, which are at their first statements with three frame buffers.
  pub main-Good :
      (At : Unsigned.MousePos → Type 0) (n crtc conn : ℕ) (c : DrmModeConnector) (res : DrmModeRes)
      (w : World)
      → drm.resources (open_card (drm.card w.calls) ∷ w.calls) ≡ some res
      → find_connector 1 (returned (negsuc 0)) drm.connector res 0 res.count_connectors none
        ≡ ready crtc conn c
      → get_elem? c.modes 0 ≡ some mode
      → w.shown ≡ []
      → (r : Running) × (main build drm w ≡ some (running r))
        × Good At mode.hdisplay mode.vdisplay small n r
        × (r.threads ≡ MBuffer.init max_produce_thread_num (make_tasks 0 buffer_task_size))
        × (length r.display.buf ≡ buffer_task_size)
  unfolding main after_setup
  main-Good At n crtc conn c res w got found first fresh =
      let w1 = log (open_card (drm.card w.calls)) w in
      let (bufs, cs) = make_buffers drm mode buffer_task_size w1.calls in
      let d : Display = record {
        buf = bufs;
        crtc_id = crtc;
        conn_id = conn;
        mode = mode;
        trend = record { g_color = 0; trend_flag = false };
        g_mp =
            (Unsigned.init_mp 0 0 800 1280 (record { g_mp = zero_pos; g_last_mp = zero_pos })).g_mp;
        world = record w1 { calls = cs };
      } in
      let r : Running = record {
        display = d;
        threads = MBuffer.init max_produce_thread_num (make_tasks 0 buffer_task_size);
        drawing = λ i. none;
      } in
      let sized =
        make_buffers-IsSized drm addr mode maps free small room At buffer_task_size w1.calls in
      (
        r,
        rw (got, found, first, good, ◌>>=◌) refl,
        init-Good At n d sized (record { up = λ e. omega arith; down = λ e. cc }) fresh,
        refl,
        length-make_buffers drm mode buffer_task_size w1.calls,
      )

  -- If m_buffer.cpp is compiled for the one producer of m_buffer_input_show_test.cpp (the Makefile
  -- compiles it for ten), functions that flow off their ends go back to their callers, every thread is
  -- created, the resources are there, the loop over the connectors ends with a connector whose first
  -- mode has less than 2^16 columns and rows, mmap works and gives an address where no mapping is, a
  -- buffer has room for four bytes a pixel, nothing has been shown before, and at every turn the
  -- pointer is where `At` says and its row has a distance to each row of the picture that is an `int`,
  -- then main of m_buffer_input_show_test.cpp gets to its threads, and any schedule of them, in which
  -- other threads run and the mouse moves between two pixels of a draw, runs without a write outside a
  -- mapping; the threads are where a schedule of the multi-buffer model with one producer takes them,
  -- and every frame buffer had, when it was put on the screen, a whole picture in it: each pixel is
  -- white or of the picture's one colour of at most 0xf0, as it ought to be for the pointer at a place
  -- where `At` says.
  pub whole_pictures :
      (At : Unsigned.MousePos → Type 0) (n crtc conn : ℕ) (c : DrmModeConnector) (res : DrmModeRes)
      (w : World) (js : List (ℕ × Unsigned.MousePos))
      → drm.resources (open_card (drm.card w.calls) ∷ w.calls) ≡ some res
      → find_connector 1 (returned (negsuc 0)) drm.connector res 0 res.count_connectors none
        ≡ ready crtc conn c
      → get_elem? c.modes 0 ≡ some mode
      → w.shown ≡ []
      → All (λ j. (j.0 < n) × At j.1 × IsRow j.1.y) js
      → (r : Running) × (r' : Running) × (is : List ℕ) × (main build drm w ≡ some (running r))
        × (run r js ≡ some r')
        × All (λ i. i < n) is
        × (r'.threads
            ≡ MBuffer.run max_produce_thread_num
                (MBuffer.init max_produce_thread_num (make_tasks 0 buffer_task_size))
                is)
        × AllPictures At mode.hdisplay mode.vdisplay r'.display.world.shown
  whole_pictures At n crtc conn c res w js got found first fresh fair =
      let (r, starts, holds, at_start, three) =
        main-Good At n crtc conn c res w got found first fresh in
      let (r', e, good') = run-Good At mode.hdisplay mode.vdisplay small r js fair holds in
      let (is, all, taken) = run-threads n r js (only_threads n At js fair) e in
      (r, r', is, starts, e, all, rw at_start at taken, good'.shown)
