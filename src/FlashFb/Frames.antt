-- ===== src/FlashFb/Frames.antt =====
-- What is drawn into a box of flash_fb.c and what is shown from it.
use dsui.Prelude.{ℕ, ◌<◌, ◌≡◌, List, [], ◌∷◌, ◌++◌, if◌then◌else◌}
use dsui.FlashFb.{framebuffer_number, run, init}
use dsui.FlashFb.Invariant.{reached-Inv}

-- Under any schedule the frames shown from a box are the frames drawn into it, in order, each once;
-- the last one drawn is missing exactly while the box is not displayed.
pub drawn_then_shown :
    (js : List ℕ) (i : ℕ)
    → i < framebuffer_number
    → (run init js).mem.drawn i
      ≡ (run init js).mem.shown i
        ++ (if (run init js).mem.is_displayed i then [] else (run init js).mem.fb_serial i ∷ [])
drawn_then_shown js i lt = (reached-Inv js).frames i lt
