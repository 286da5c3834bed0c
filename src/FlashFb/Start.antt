-- ===== src/FlashFb/Start.antt =====
-- `start_flash_buffer` and `main` of src/display/flash_fb.c: the threads that are made, and what they
-- do if the ticking one is not.
use dsui.Prelude.{
  ℕ, zero, suc, ◌+◌, ◌≡◌, refl, Bool, true, false, List, [], ◌∷◌, arith, All, update, ltb, ◌==◌,
  if◌then◌else◌,
}
use dsui.Prelude.Int.{ℤ, pos, negsuc}
use dsui.Threads
use dsui.FlashFb.{Shared, System, framebuffer_number, step, turn, run, entry, start}

-- The globals before the program runs: the boxes are zero.
abbrev pub zeros : Shared
zeros = record start { is_displayed = λ i. false }

unfoldable pub init_global_fb_info : Shared → Shared
init_global_fb_info m = record m { g_fb_serial = 0; g_ready_fb_serial = 0 }

-- The loop of `init_fb_boxes` from `i` on, `count` rounds. `box_id` is the index of the box.
unfoldable pub init_boxes_from : ℕ → ℕ → Shared → Shared
init_boxes_from i zero m = m
init_boxes_from i (suc count) m =
    init_boxes_from (i + 1) count
      (record m { is_displayed = update m.is_displayed i true; fb_serial = update m.fb_serial i 0 })

-- The value that it returns is 0.
unfoldable pub init_fb_boxes : Shared → ℕ × Shared
unfolding init_boxes_from
init_fb_boxes m = (0, init_boxes_from 0 framebuffer_number m)

-- `start_flash_buffer` returns, or waits in the first `pthread_join` for a thread that never ends.
pub data Started : Type 0 where
  returned : ℤ → Started
  joining : Started

-- `create k` says whether the `k`-th `pthread_create` succeeds; threads are numbered as in the
-- system: `made j` says whether thread `j` has been made.
module _ (create : ℕ → Bool) where
  -- The loop over the boxes from `i` on, `count` rounds: a thread that is not made is passed over.
  unfoldable pub create_fills : ℕ → ℕ → (ℕ → Bool) → ℕ → Bool
  create_fills i zero made = made
  create_fills i (suc count) made =
      create_fills (i + 1) count (if create (i + 1) then update made (i + 1) true else made)

  unfoldable pub start_flash_buffer : Shared → Started × (ℕ → Bool) × Shared
  unfolding init_global_fb_info init_fb_boxes create_fills
  start_flash_buffer m =
      let (ret, m1) = init_fb_boxes (init_global_fb_info m) in
      let fills = create_fills 0 framebuffer_number (update (λ j. false) 0 true) in
      if ret == 0
      then (if create 0
          then (if create (framebuffer_number + 1)
              then (joining, update fills (framebuffer_number + 1) true, m1)
              else (returned (negsuc 0), fills, m1))
          else (returned (negsuc 0), (λ j. false), m1))
      else (returned (negsuc 0), (λ j. false), m1)

-- `main` returns 0 whatever start_flash_buffer returns.
unfoldable pub main : (ℕ → Bool) → Shared → Started
unfolding start_flash_buffer
main create m = elim (start_flash_buffer create m).0 [
  | returned ret ↦ returned (pos 0)
  | joining ↦ joining
]

-- The threads as start_flash_buffer leaves them.
unfoldable pub launched : (ℕ → Bool) → System
unfolding start_flash_buffer
launched create = record { mem = (start_flash_buffer create zeros).2; pc = entry }

-- In a box that there is the globals are those of `start`.
pub launched_lem :
    (create : ℕ → Bool) (i : ℕ)
    → ltb i framebuffer_number ≡ true
    → ((launched create).mem.is_displayed i ≡ start.is_displayed i)
      × ((launched create).mem.fb_serial i ≡ start.fb_serial i)
unfolding launched
launched_lem create i lt = (ground arith, ground arith)

launched-empty :
    (create : ℕ → Bool)
    → ((launched create).mem.flash_semaphore ≡ 0) × ((launched create).mem.semaphore ≡ (λ i. 0))
unfolding launched
launched-empty create = (ground arith, ground arith)

-- Thread 4, which ticks, is the only one that does not wait at first.
turn-launched :
    (create : ℕ → Bool) (j : ℕ) → ltb j 4 ≡ true → turn (launched create) j ≡ launched create
unfolding Threads.turn step launched
turn-launched create j lt = ground (arith, launched-empty create)

made_lem :
    (create : ℕ → Bool) (j : ℕ)
    → (start_flash_buffer create zeros).0 ≡ returned (negsuc 0)
    → (start_flash_buffer create zeros).1 j ≡ true
    → ltb j 4 ≡ true
unfolding start_flash_buffer
made_lem create j failed made = ground arith

still :
    (create : ℕ → Bool) (js : List ℕ)
    → (start_flash_buffer create zeros).0 ≡ returned (negsuc 0)
    → All (λ j. (start_flash_buffer create zeros).1 j ≡ true) js
    → run (launched create) js ≡ launched create
unfolding Threads.run
still create [] failed made = refl
still create (j ∷ js) failed (made, later) =
    rw (turn-launched create j (made_lem create j failed made)) (still create js failed later)

-- If start_flash_buffer returns -1, then main returns 0, and under any schedule of the threads that
-- have been made none of them gets beyond its first statement.
pub stands_still :
    (create : ℕ → Bool) (js : List ℕ)
    → (start_flash_buffer create zeros).0 ≡ returned (negsuc 0)
    → All (λ j. (start_flash_buffer create zeros).1 j ≡ true) js
    → (main create zeros ≡ returned (pos 0)) × (run (launched create) js ≡ launched create)
unfolding main
stands_still create js failed made = (rw (failed, main) refl, still create js failed made)
