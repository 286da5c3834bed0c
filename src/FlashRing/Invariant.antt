-- ===== src/FlashRing/Invariant.antt =====
-- What holds between any two statements of flash_buffer.c, whatever the schedule.
use dsui.Prelude.{ℕ, ◌≡◌, refl, Bool, true, false, Option, some, none, List, arith, update, ◌==◌}
use dsui.Threads.{run_always_keeps}
use dsui.FlashRing.{
  Shared, Pc, f_show, f_unlock, w_number, w_count, w_add, w_unlock, t_post_back, t_back,
  t_post_flash, t_front, step, run, init, init_framebuffers,
}

-- The frame buffer whose mutex a thread holds.
abbrev pub holds : Pc → Option ℕ
holds (f_show b) = some b
holds (f_unlock b) = some b
holds (w_number b) = some b
holds (w_count b) = some b
holds (w_add b num) = some b
holds (w_unlock b) = some b
holds _ = none

-- Whether a statement is one of the ticking thread.
abbrev pub ticking : Pc → Bool
ticking t_post_back = true
ticking t_back = true
ticking t_post_flash = true
ticking t_front = true
ticking _ = false

-- Where `g_back_fb` stands: the ticking thread moves it first.
abbrev pub back : Shared → Pc → ℕ
back m t_post_flash = m.next m.g_front_fb
back m t_front = m.next m.g_front_fb
back m _ = m.g_front_fb

pub record Inv (m : Shared) (pc : ℕ → Pc) : Type 0 where
  pub owner : (j b : ℕ) → holds (pc j) ≡ some b → m.mutex_lock b ≡ some j
  pub owns : (j b : ℕ) → m.mutex_lock b ≡ some j → holds (pc j) ≡ some b
  pub ticker : (j : ℕ) → ticking (pc j) ≡ (j == 4)
  pub pointers : m.g_back_fb ≡ back m (pc 4)

module _ {m : Shared} {pc : ℕ → Pc} (inv : Inv m pc) (i : ℕ) where
  open inv use {owner, owns, ticker, pointers}

  step-owner :
      (p : Pc) {m' : Shared} {p' : Pc}
      → pc i ≡ p
      → step i m p ≡ some (m', p')
      → (j b : ℕ) → holds (update pc i p' j) ≡ some b
      → m'.mutex_lock b ≡ some j
  unfolding step
  step-owner p at e j b c = ground (arith, owner j b, owner i b)

  step-owns :
      (p : Pc) {m' : Shared} {p' : Pc}
      → pc i ≡ p
      → step i m p ≡ some (m', p')
      → (j b : ℕ) → m'.mutex_lock b ≡ some j
      → holds (update pc i p' j) ≡ some b
  unfolding step
  step-owns p at e j b c = ground (arith, owns j b, owner i b)

  step-ticker :
      (p : Pc) {m' : Shared} {p' : Pc}
      → pc i ≡ p
      → step i m p ≡ some (m', p')
      → (j : ℕ) → ticking (update pc i p' j) ≡ (j == 4)
  unfolding step
  step-ticker p at e j = ground (arith, ticker j, ticker i)

  step-pointers :
      (p : Pc) {m' : Shared} {p' : Pc}
      → pc i ≡ p
      → step i m p ≡ some (m', p')
      → m'.g_back_fb ≡ back m' (update pc i p' 4)
  unfolding step
  step-pointers p at e = ground (arith, pointers, ticker i)

  step-Inv : {m' : Shared} {p' : Pc} → step i m (pc i) ≡ some (m', p') → Inv m' (update pc i p')
  step-Inv e = record {
    owner = step-owner _ refl e;
    owns = step-owns _ refl e;
    ticker = step-ticker _ refl e;
    pointers = step-pointers _ refl e;
  }

init-Inv : Inv init.mem init.pc
unfolding init init_framebuffers
init-Inv = record {
  owner = λ j b c. ground arith;
  owns = λ j b c. cc;
  ticker = λ j. ground arith;
  pointers = refl;
}

pub reached-Inv : (js : List ℕ) → Inv (run init js).mem (run init js).pc
reached-Inv js =
    run_always_keeps (λ j. j) step (λ s. Inv s.mem s.pc) (λ s j inv m p e. step-Inv inv j e) init js
      init-Inv
