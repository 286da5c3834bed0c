-- ===== src/Screen/Show/Loop.antt =====
-- The endless loop of input_show.c from the start of the program.
use dsui.Prelude.{
  ℕ, ◌*◌, ◌^◌, ◌<◌, ◌≤◌, ◌≡◌, refl, none, some, List, [], ◌∷◌, All, arith, get_elem?,
}
use dsui.Prelude.Int.{pos, negsuc}
use dsui.Mouse.Signed.{MousePos, init_mp, init_mp-InBounds, init_mp_limits}
use dsui.Mouse.Midway.{IsPlace, Reached, Reached-IsPlace}
use dsui.Screen.Drm.{
  log, Drm, Calls, World, DrmModeModeInfo, DrmModeConnector, DrmModeRes, open_card, mmap,
}
use dsui.Screen.{returned, ready, find_connector}
use dsui.Screen.Buffers.{filled, registered}
use dsui.Screen.Show.{Ui, Seen, running, start_ui, after_setup, set_up, ◌>>=◌, ui_loop}
use dsui.Screen.Show.Pointer.{ShowsPointer, AllPlaces, IsDrawing, show_mouse-ShowsPointer}

ui_loop-IsDrawing :
    (mode : DrmModeModeInfo) (ui : Ui) (rounds : List Seen)
    → IsDrawing mode ui
    → All AllPlaces rounds
    → (ui' : Ui) × (ui_loop ui rounds ≡ some ui') × IsDrawing mode ui'
unfolding ui_loop
ui_loop-IsDrawing mode ui [] inv places = (ui, refl, inv)
ui_loop-IsDrawing mode ui (seen ∷ earlier) inv (here, before) =
    let (u, e, inv1) = ui_loop-IsDrawing mode ui earlier inv before in
    let (ui', e', shows, inv2) = show_mouse-ShowsPointer mode u inv1 seen here in
    (ui', rw e e', inv2)

module _ (drm : Drm) (addr : Calls → ℕ → ℕ → ℕ) (mode : DrmModeModeInfo)
    (maps : (cs : Calls) (size offset : ℕ)
      → drm.address cs size offset ≡ some (addr cs size offset))
    (small : (mode.hdisplay < 2 ^ 16) × (mode.vdisplay < 2 ^ 16))
    (room : (cs : Calls)
      → 4 * (mode.vdisplay * mode.hdisplay) ≤ (drm.dumb cs mode.hdisplay mode.vdisplay).2) where
  -- Wherever the events take the pointer from where `init_mp` puts it, it is at a place.
  on_places :
      (start : MousePos)
      → init_mp (pos 0) (pos 0) (pos mode.hdisplay) (pos mode.vdisplay) ≡ some start
      → (mp : MousePos) → Reached start mp
      → IsPlace mp.y × IsPlace mp.x
  on_places start at_start mp reached =
      let (mp1, e, inside) =
        init_mp-InBounds mode.hdisplay mode.vdisplay (omega (arith, small))
          (omega (arith, small)) in
      let same : mp1 ≡ start = ground (arith, e, at_start) in
      let (min_x, min_y, max_x, max_y) =
        init_mp_limits (pos 0) (pos 0) (pos mode.hdisplay) (pos mode.vdisplay) at_start in
      Reached-IsPlace start mp (rw same at inside) (min_x, min_y)
        (rw max_x (omega (arith, small)), rw max_y (omega (arith, small))) reached

  all_places :
      (start : MousePos)
      → init_mp (pos 0) (pos 0) (pos mode.hdisplay) (pos mode.vdisplay) ≡ some start
      → (rounds : List Seen) → All (λ s. (y x : ℕ) → Reached start (s y x)) rounds
      → All AllPlaces rounds
  all_places start at_start [] reached = tt
  all_places start at_start (seen ∷ earlier) (here, before) = (
    λ y x. on_places start at_start (seen y x) (here y x),
    all_places start at_start earlier before,
  )

  set_up-IsDrawing :
      (start : MousePos)
      → init_mp (pos 0) (pos 0) (pos mode.hdisplay) (pos mode.vdisplay) ≡ some start
      → (crtc conn : ℕ) (w : World)
      → (ui : Ui) × (set_up drm crtc conn mode w ≡ some (running ui))
        × (ui.g_mp ≡ start)
        × IsDrawing mode ui
  unfolding set_up
  set_up-IsDrawing start at_start crtc conn w =
      let create = filled drm mode.hdisplay mode.vdisplay w.calls in
      let (fb_id, offset, cs) = registered drm create w.calls in
      let a = addr cs create.size offset in
      (
        record {
          globals = record {
            width = mode.hdisplay;
            height = mode.vdisplay;
            create_size = create.size;
            create_handle = create.handle;
            new_fb_id = fb_id;
            mapped_at = some a;
          };
          g_mp = start;
          crtc_id = crtc;
          conn_id = conn;
          mode = mode;
          buf = record { size = 0; handle = 0; fb_id = 0; vaddr = none };
          world = record w { calls = mmap create.size offset (some a) ∷ cs };
        },
        rw (at_start, maps, ◌>>=◌) refl,
        refl,
        record {
          width = refl;
          height = refl;
          small = small;
          address = (a, refl);
          room = room w.calls;
        },
      )

  -- If the resources are there, the loop over the connectors ends with a connector whose first mode
  -- has less than 2^16 columns and rows, mmap works, a buffer has room for four bytes a pixel, and at
  -- each pixel of each round the pointer is where the events before, with values of less than 2^30 in
  -- size, have taken it, or in the middle of test_input_callback for the next such event, then main of
  -- input_show.c gets to its endless loop, and each round of it is done with no write outside the
  -- mapping. What has been put on the screen last holds, at row times columns plus column, a black
  -- pixel where the pointer was within MIW in both directions when the pixel was drawn, and a white
  -- one elsewhere.
  pub pointer_on_screen :
      (crtc conn : ℕ) (c : DrmModeConnector) (res : DrmModeRes) (w : World) (start : MousePos)
      (seen : Seen) (earlier : List Seen)
      → drm.resources (open_card (drm.card w.calls) ∷ w.calls) ≡ some res
      → find_connector 0 (returned (negsuc 0)) drm.connector res 0 res.count_connectors none
        ≡ ready crtc conn c
      → get_elem? c.modes 0 ≡ some mode
      → init_mp (pos 0) (pos 0) (pos mode.hdisplay) (pos mode.vdisplay) ≡ some start
      → All (λ s. (y x : ℕ) → Reached start (s y x)) (seen ∷ earlier)
      → (ui : Ui) × (ui' : Ui) × (start_ui drm w ≡ some (running ui))
        × (ui_loop ui (seen ∷ earlier) ≡ some ui')
        × (ui.g_mp ≡ start)
        × ShowsPointer mode seen ui'
  unfolding start_ui after_setup ui_loop
  pointer_on_screen crtc conn c res w start seen earlier got found first at_start (here, before) =
      let place = on_places start at_start in
      let (ui, e, begins, inv) =
        set_up-IsDrawing start at_start crtc conn (log (open_card (drm.card w.calls)) w) in
      let (u, e1, inv1) =
        ui_loop-IsDrawing mode ui earlier inv (all_places start at_start earlier before) in
      let (ui', e2, shows, inv2) =
        show_mouse-ShowsPointer mode u inv1 seen (λ y x. place (seen y x) (here y x)) in
      (ui, ui', rw (got, found, first, ◌>>=◌) e, rw e1 e2, begins, shows)
