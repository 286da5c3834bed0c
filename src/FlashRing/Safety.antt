-- ===== src/FlashRing/Safety.antt =====
-- What every schedule of flash_buffer.c keeps.
use dsui.Prelude.{ℕ, ◌≡◌, some, List, arith}
use dsui.FlashRing.{run, init, t_post_back}
use dsui.FlashRing.Invariant.{holds, reached-Inv}

-- Under any schedule, two threads that hold the mutex of the same frame buffer are the same thread, so
-- none is drawn into while it is shown.
pub one_user :
    (js : List ℕ) (i j b : ℕ)
    → holds ((run init js).pc i) ≡ some b
    → holds ((run init js).pc j) ≡ some b
    → i ≡ j
one_user js i j b hi hj =
    let inv = reached-Inv js in ground (arith, inv.owner i b hi, inv.owner j b hj)

-- Under any schedule, when the ticking thread is about to let the back frame buffer be drawn, that is
-- also the front one.
pub pointers_coincide :
    (js : List ℕ)
    → (run init js).pc 4 ≡ t_post_back
    → (run init js).mem.g_back_fb ≡ (run init js).mem.g_front_fb
pointers_coincide js at = ground (arith, (reached-Inv js).pointers, at)
