-- ===== src/FlashFb/Tests.antt =====
-- flash_fb.c on a schedule.
use dsui.Prelude.Int.{pos}
use dsui.FlashFb.Start.{zeros, returned, start_flash_buffer, launched, main, stands_still}
use dsui.Prelude.{ℕ, ◌≡◌, refl, false, List, [], ◌∷◌, ◌++◌, arith, replicate, if◌then◌else◌}
use dsui.Threads
use dsui.FlashFb.{step, ltb, Bool, run, init}
use dsui.Fifo.{Moves}
use dsui.FlashFb.Queue.{ends, box_is_a_queue}
use dsui.FlashFb.Frames.{drawn_then_shown}
use dsui.FlashFb.Stuck.{never_shown_again}

-- Box 0 is drawn and shown once; then boxes 0 and 1 are drawn by two threads that both read the same
-- value of g_ready_fb_serial, and box 0 is shown.
abbrev race : List ℕ
race =
    replicate 2 4
    ++ replicate 6 1
    ++ replicate 3 4
    ++ replicate 9 0
    ++ replicate 2 4
    ++ (1 ∷ 1 ∷ 2 ∷ 2 ∷ 1 ∷ 2 ∷ 1 ∷ 2 ∷ 1 ∷ 2 ∷ 1 ∷ 2 ∷ [])
    ++ replicate 6 0

race_outcome :
    ((run init race).mem.shown 0 ≡ 1 ∷ 2 ∷ [])
    × ((run init race).mem.drawn 1 ≡ 2 ∷ [])
    × ((run init race).mem.shown 1 ≡ [])
    × ((run init race).mem.g_fb_serial ≡ 2)
unfolding Threads.run Threads.turn step init
race_outcome = (refl, refl, refl, refl)

drawn_then_shown_example :
    (run init race).mem.drawn 1
    ≡ (run init race).mem.shown 1
      ++ (if (run init race).mem.is_displayed 1 then [] else (run init race).mem.fb_serial 1 ∷ [])
drawn_then_shown_example = drawn_then_shown race 1 (omega arith)

-- Box 1 is never shown.
never_shown_again_example :
    ((run (run init race) (replicate 50 0)).mem.is_displayed 1 ≡ false)
    × ((run (run init race) (replicate 50 0)).mem.shown 1 ≡ (run init race).mem.shown 1)
unfolding Threads.run Threads.turn step init
never_shown_again_example =
    never_shown_again race (replicate 50 0) 1 (omega arith) refl (omega arith) (omega arith)
      ((λ e. cc), (λ e. cc)) (omega arith)

-- Every thread is made but the ticking one.
abbrev no_ticks : ℕ → Bool
no_ticks k = ltb k 4

stands_still_example :
    (main no_ticks zeros ≡ returned (pos 0))
    × (run (launched no_ticks) (0 ∷ 2 ∷ 3 ∷ []) ≡ launched no_ticks)
unfolding start_flash_buffer
stands_still_example = stands_still no_ticks (0 ∷ 2 ∷ 3 ∷ []) refl (refl, (refl, (refl, tt)))

box_is_a_queue_example :
    Moves 1 (ends 0 (run init race).mem) (ends 0 (run (run init race) race).mem)
box_is_a_queue_example = box_is_a_queue race race 0 (omega arith)
