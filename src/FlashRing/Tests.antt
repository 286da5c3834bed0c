-- ===== src/FlashRing/Tests.antt =====
-- flash_buffer.c on a schedule.
use dsui.Prelude.{ℕ, ◌≡◌, refl, List, ◌++◌, replicate}
use dsui.Threads
use dsui.FlashRing.{step, run, init, init_framebuffers, zeros}
use dsui.FlashRing.Safety.{one_user, pointers_coincide}

-- One tick; thread 3 draws into frame buffer 2.
abbrev tick : List ℕ
tick = replicate 4 4 ++ replicate 3 3

ring :
    ((init_framebuffers zeros).next 0 ≡ 1)
    × ((init_framebuffers zeros).next 1 ≡ 2)
    × ((init_framebuffers zeros).next 2 ≡ 0)
unfolding init_framebuffers
ring = (refl, refl, refl)

one_user_example : ◌≡◌ {A = ℕ} 3 3
unfolding Threads.run Threads.turn step init init_framebuffers
one_user_example = one_user tick 3 3 2 refl refl

-- The frame buffer that is shown is the one that was just to be drawn.
pointers_coincide_example : (run init tick).mem.g_back_fb ≡ (run init tick).mem.g_front_fb
unfolding Threads.run Threads.turn step init init_framebuffers
pointers_coincide_example = pointers_coincide tick refl
