-- ===== src/FlashFb/Invariant.antt =====
-- What holds between any two statements of flash_fb.c, whatever the schedule.
use mathlib.Core.List.{append-nil}
use dsui.Prelude.{
  ℕ, suc, ◌<◌, ◌≡◌, refl, Bool, true, false, some, List, [], ◌∷◌, ◌++◌, if◌then◌else◌, arith,
  update, ltb,
}
use dsui.Threads.{run_always_keeps}
use dsui.FlashFb.{
  run, init, Shared, Pc, f_show, w_wait, w_test, w_read, w_write, w_serial, w_draw, t_scan, t_flash,
  step, framebuffer_number,
}

-- The thread that executes a statement.
abbrev pub role : Pc → ℕ
role (w_wait i) = suc i
role (w_test i) = suc i
role (w_read i) = suc i
role (w_write i r) = suc i
role (w_serial i) = suc i
role (w_draw i) = suc i
role (t_scan i) = 4
role t_flash = 4
role _ = 0

-- Past the test of `is_displayed` and before draw_buffer.
abbrev pub filling : Pc → Bool
filling (w_read i) = true
filling (w_write i r) = true
filling (w_serial i) = true
filling (w_draw i) = true
filling _ = false

-- Drawn and not shown yet.
abbrev pub outstanding : Shared → ℕ → List ℕ
outstanding m i = if m.is_displayed i then [] else m.fb_serial i ∷ []

pub record Inv (m : Shared) (pc : ℕ → Pc) : Type 0 where
  pub roles : (j : ℕ) → role (pc j) ≡ (if ltb j 4 then j else 4)
  pub fills :
      (i : ℕ) → i < framebuffer_number → filling (pc (suc i)) ≡ true → m.is_displayed i ≡ true
  pub shows : (i : ℕ) → pc 0 ≡ f_show i → m.is_displayed i ≡ false
  pub frames : (i : ℕ) → i < framebuffer_number → m.drawn i ≡ m.shown i ++ outstanding m i

module _ {m : Shared} {pc : ℕ → Pc} (inv : Inv m pc) (j : ℕ) where
  open inv use {roles, fills, shows, frames}

  step-roles :
      (p : Pc) {m' : Shared} {p' : Pc}
      → pc j ≡ p
      → step m p ≡ some (m', p')
      → (k : ℕ) → role (update pc j p' k) ≡ (if ltb k 4 then k else 4)
  unfolding step
  step-roles p at e k = ground (arith, roles k, roles j)

  step-fills :
      (p : Pc) {m' : Shared} {p' : Pc}
      → pc j ≡ p
      → step m p ≡ some (m', p')
      → (i : ℕ) → i < framebuffer_number
      → filling (update pc j p' (suc i)) ≡ true
      → m'.is_displayed i ≡ true
  unfolding step
  step-fills p at e i lt c = ground (arith, fills i lt, roles j, roles (suc i))

  step-shows :
      (p : Pc) {m' : Shared} {p' : Pc}
      → pc j ≡ p
      → step m p ≡ some (m', p')
      → (i : ℕ) → update pc j p' 0 ≡ f_show i
      → m'.is_displayed i ≡ false
  unfolding step
  step-shows p at e i c = ground (arith, shows i, roles j, roles 0)

  step-frames :
      (p : Pc) {m' : Shared} {p' : Pc}
      → pc j ≡ p
      → step m p ≡ some (m', p')
      → (i : ℕ) → i < framebuffer_number
      → m'.drawn i ≡ m'.shown i ++ outstanding m' i
  unfolding step
  step-frames (f_show k) at e i lt =
      ground (arith, frames i lt, shows k, roles j, append-nil (m.shown i ++ m.fb_serial i ∷ []))
  step-frames (w_draw k) at e i lt =
      ground (arith, frames i lt, fills i lt, roles j, append-nil (m.shown i))
  step-frames (w_serial k) at e i lt = ground (arith, frames i lt, fills i lt, roles j)
  step-frames p at e i lt = ground (arith, frames i lt)

  pub step-Inv : {m' : Shared} {p' : Pc} → step m (pc j) ≡ some (m', p') → Inv m' (update pc j p')
  step-Inv e = record {
    roles = step-roles _ refl e;
    fills = step-fills _ refl e;
    shows = step-shows _ refl e;
    frames = step-frames _ refl e;
  }

init-Inv : Inv init.mem init.pc
unfolding init
init-Inv = record {
  roles = λ j. ground arith;
  fills = λ i lt c. refl;
  shows = λ i c. cc;
  frames = λ i lt. refl;
}

pub reached-Inv : (js : List ℕ) → Inv (run init js).mem (run init js).pc
reached-Inv js =
    run_always_keeps (λ j. j) (λ j. step) (λ s. Inv s.mem s.pc) (λ s j inv m p e. step-Inv inv j e)
      init js init-Inv
