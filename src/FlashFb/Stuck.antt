-- ===== src/FlashFb/Stuck.antt =====
-- A box of flash_fb.c whose serial number is passed: `g_ready_fb_serial++` is executed by several
-- threads without a lock, so two boxes can have the same number.
use dsui.Prelude.{
  List, [], ◌∷◌, length, refl, ℕ, suc, ◌+◌, ◌^◌, ◌<◌, ◌≤◌, ◌≡◌, ◌≢◌, false, some, arith, update,
  ltb, if◌then◌else◌,
}
use dsui.Threads
use dsui.FlashFb.{
  System, turn, run, init, framebuffer_number, Shared, Pc, f_displayed, f_show, w_serial, step,
}
use dsui.FlashFb.Invariant.{reached-Inv, role, filling}

-- Box `i` waits to be shown, flash_buffer is not about to show it, and its number is not above the
-- number of frames shown, which is at most `bound`. `seen` is what has been shown from the box.
pub record IsPassed (i : ℕ) (seen : List ℕ) (bound : ℕ) (m : Shared) (pc : ℕ → Pc) : Type 0 where
  pub box : i < framebuffer_number
  pub unseen : m.shown i ≡ seen
  pub roles : (j : ℕ) → role (pc j) ≡ (if ltb j 4 then j else 4)
  pub idle : filling (pc (suc i)) ≡ false
  pub hidden : m.is_displayed i ≡ false
  pub numbered : 0 < m.fb_serial i
  pub passed : m.fb_serial i ≤ m.g_fb_serial
  pub bounded : m.g_fb_serial ≤ bound
  pub away : (pc 0 ≢ f_displayed i) × (pc 0 ≢ f_show i)

module _ {i : ℕ} {seen : List ℕ} {bound : ℕ} {m : Shared} {pc : ℕ → Pc}
    (inv : IsPassed i seen bound m pc) (j : ℕ) (small : bound + 1 < 2 ^ 64) where
  open inv use {box, unseen, roles, idle, hidden, numbered, passed, bounded, away}

  step-roles :
      (p : Pc) {m' : Shared} {p' : Pc}
      → pc j ≡ p
      → step m p ≡ some (m', p')
      → (k : ℕ) → role (update pc j p' k) ≡ (if ltb k 4 then k else 4)
  unfolding step
  step-roles p at e k = ground (arith, roles k, roles j)

  step-idle :
      (p : Pc) {m' : Shared} {p' : Pc}
      → pc j ≡ p
      → step m p ≡ some (m', p')
      → filling (update pc j p' (suc i)) ≡ false
  unfolding step
  step-idle p at e = ground (arith, box, roles j, roles (suc i), idle)

  step-hidden :
      (p : Pc) {m' : Shared} {p' : Pc}
      → pc j ≡ p
      → step m p ≡ some (m', p')
      → m'.is_displayed i ≡ false
  unfolding step
  step-hidden p at e = ground (arith, box, roles j, away)

  step-numbers :
      (p : Pc) {m' : Shared} {p' : Pc}
      → pc j ≡ p
      → step m p ≡ some (m', p')
      → (m'.fb_serial i ≡ m.fb_serial i)
        × (m.g_fb_serial ≤ m'.g_fb_serial)
        × (m'.g_fb_serial ≤ bound + 1)
  unfolding step
  step-numbers (w_serial k) at e = ground (arith, box, roles j, roles (suc i), idle, bounded)
  step-numbers p at e = ground (arith, bounded)

  step-away :
      (p : Pc) {m' : Shared} {p' : Pc}
      → pc j ≡ p
      → step m p ≡ some (m', p')
      → (update pc j p' 0 ≢ f_displayed i) × (update pc j p' 0 ≢ f_show i)
  unfolding step
  step-away p at e = ground (arith, roles j, away)

  step-unseen :
      (p : Pc) {m' : Shared} {p' : Pc} → pc j ≡ p → step m p ≡ some (m', p') → m'.shown i ≡ seen
  unfolding step
  step-unseen p at e = ground (arith, unseen, roles j, away)

  step-IsPassed :
      {m' : Shared} {p' : Pc}
      → step m (pc j) ≡ some (m', p')
      → IsPassed i seen (bound + 1) m' (update pc j p')
  step-IsPassed e =
      let (same, up, le) = step-numbers _ refl e in
      record {
        box = box;
        unseen = step-unseen _ refl e;
        roles = step-roles _ refl e;
        idle = step-idle _ refl e;
        hidden = step-hidden _ refl e;
        numbered = omega arith;
        passed = omega arith;
        bounded = le;
        away = step-away _ refl e;
      }

  -- A blocked thread changes nothing.
  idle-IsPassed : IsPassed i seen (bound + 1) m pc
  idle-IsPassed = record {
    box = box;
    unseen = unseen;
    roles = roles;
    idle = idle;
    hidden = hidden;
    numbered = numbered;
    passed = passed;
    bounded = omega (arith, bounded);
    away = away;
  }

turn-IsPassed :
    {i : ℕ} {seen : List ℕ} {bound : ℕ} (s : System) (j : ℕ)
    → bound + 1 < 2 ^ 64
    → IsPassed i seen bound s.mem s.pc
    → IsPassed i seen (bound + 1) (turn s j).mem (turn s j).pc
turn-IsPassed {i} {seen} {bound} s j small inv =
    Threads.turn_cases (λ j. j) (λ j. step) (λ s'. IsPassed i seen (bound + 1) s'.mem s'.pc) s j
      (idle-IsPassed inv j small) (λ m p e. step-IsPassed inv j small e)

run-hidden :
    {i : ℕ} {seen : List ℕ} (bound : ℕ) (s : System) (js : List ℕ)
    → bound + length js < 2 ^ 64
    → IsPassed i seen bound s.mem s.pc
    → ((run s js).mem.is_displayed i ≡ false) × ((run s js).mem.shown i ≡ seen)
unfolding Threads.run
run-hidden bound s [] small inv = (inv.hidden, inv.unseen)
run-hidden bound s (j ∷ js) small inv =
    run-hidden (bound + 1) (turn s j) js (omega (arith, small))
      (turn-IsPassed s j (omega (arith, small)) inv)

-- If after some schedule box `i` waits to be shown with a number above 0 that is not above
-- g_fb_serial, and flash_buffer is not between its tests of that box and show_buffer, then the box is
-- not shown in any continuation whose length and g_fb_serial add up to less than 2^64.
pub never_shown_again :
    (js ks : List ℕ) (i : ℕ)
    → i < framebuffer_number
    → (run init js).mem.is_displayed i ≡ false
    → 0 < (run init js).mem.fb_serial i
    → (run init js).mem.fb_serial i ≤ (run init js).mem.g_fb_serial
    → ((run init js).pc 0 ≢ f_displayed i) × ((run init js).pc 0 ≢ f_show i)
    → (run init js).mem.g_fb_serial + length ks < 2 ^ 64
    → ((run (run init js) ks).mem.is_displayed i ≡ false)
      × ((run (run init js) ks).mem.shown i ≡ (run init js).mem.shown i)
never_shown_again js ks i lt hidden numbered passed away small =
    let inv = reached-Inv js in
    run-hidden (run init js).mem.g_fb_serial (run init js) ks small (record {
      box = lt;
      unseen = refl;
      roles = inv.roles;
      idle = ground (arith, inv.fills i lt);
      hidden = hidden;
      numbered = numbered;
      passed = passed;
      bounded = omega arith;
      away = away;
    })
