-- ===== src/FlashRing/Start.antt =====
-- `start_flash_buffer` and `main` of src/examples/input_show/flash_buffer.c: the threads that are made,
-- and what they do if the ticking one is not.
use dsui.Prelude.{
  Bool-cases, inl, inr, ℕ, zero, suc, ◌+◌, ◌≡◌, refl, Bool, true, false, List, [], ◌∷◌, arith, All,
  update, ltb, if◌then◌else◌,
}
use dsui.Prelude.Int.{ℤ, pos, negsuc}
use dsui.Threads
use dsui.FlashRing.{
  Shared, System, framebuffer_number, init_framebuffers, step, turn, run, entry, zeros,
}

-- `start_flash_buffer` returns, or waits in the first `pthread_join` for a thread that never ends.
pub data Started : Type 0 where
  returned : ℤ → Started
  joining : Started

-- `create k` says whether the `k`-th `pthread_create` succeeds; threads are numbered as in the
-- system: `made j` says whether thread `j` has been made.
module _ (create : ℕ → Bool) where
  -- The loop over the frame buffers from `i` on, `count` rounds: a thread that is not made is passed
  -- over.
  unfoldable pub create_fills : ℕ → ℕ → (ℕ → Bool) → ℕ → Bool
  create_fills i zero made = made
  create_fills i (suc count) made =
      create_fills (i + 1) count (if create (i + 1) then update made (i + 1) true else made)

  -- init_framebuffers always gives 0.
  unfoldable pub start_flash_buffer : Shared → Started × (ℕ → Bool) × Shared
  unfolding create_fills
  start_flash_buffer m =
      let fills = create_fills 0 framebuffer_number (update (λ j. false) 0 true) in
      if create 0
      then (if create (framebuffer_number + 1)
          then (joining, update fills (framebuffer_number + 1) true, init_framebuffers m)
          else (returned (negsuc 0), fills, init_framebuffers m))
      else (returned (negsuc 0), (λ j. false), init_framebuffers m)

-- `main` returns 0 whatever start_flash_buffer returns.
unfoldable pub main : (ℕ → Bool) → Shared → Started
unfolding start_flash_buffer
main create m = elim (start_flash_buffer create m).0 [
  | returned ret ↦ returned (pos 0)
  | joining ↦ joining
]

-- The threads as start_flash_buffer leaves them.
unfoldable pub launched : (ℕ → Bool) → System
unfolding start_flash_buffer
launched create = record { mem = (start_flash_buffer create zeros).2; pc = entry }

launched-empty :
    (create : ℕ → Bool)
    → ((launched create).mem.flash_semaphore ≡ 0) × ((launched create).mem.semaphore ≡ (λ b. 0))
unfolding launched init_framebuffers
launched-empty create = (ground arith, ground arith)

-- Thread 4, which ticks, is the only one that does not wait at first.
turn-launched :
    (create : ℕ → Bool) (j : ℕ) → ltb j 4 ≡ true → turn (launched create) j ≡ launched create
unfolding Threads.turn step launched
turn-launched create j lt = ground (arith, launched-empty create)

create_fills_lem :
    (create : ℕ → Bool) (i count : ℕ) (made : ℕ → Bool) (j : ℕ)
    → ltb (i + count) 4 ≡ true
    → (made j ≡ true → ltb j 4 ≡ true)
    → create_fills create i count made j ≡ true
    → ltb j 4 ≡ true
unfolding create_fills
create_fills_lem create i zero made j few small is_made = small is_made
create_fills_lem create i (suc count) made j few small is_made =
    create_fills_lem create (i + 1) count _ j (ground arith) (λ e. ground (arith, small)) is_made

made_lem :
    (create : ℕ → Bool) (j : ℕ)
    → (start_flash_buffer create zeros).0 ≡ returned (negsuc 0)
    → (start_flash_buffer create zeros).1 j ≡ true
    → ltb j 4 ≡ true
unfolding start_flash_buffer
made_lem create j failed made =
    let fills =
      create_fills_lem create 0 framebuffer_number (update (λ j. false) 0 true) j refl
        (λ e. ground arith) in
    elim (Bool-cases (create 0)) [
      | inr none_made ↦ ground arith
      | inl shows ↦ elim (Bool-cases (create 4)) [
        | inl ticks ↦ ground arith
        | inr no_ticks ↦ fills (rw (shows, no_ticks) at made)
      ]
    ]

still :
    (create : ℕ → Bool) (js : List ℕ)
    → (start_flash_buffer create zeros).0 ≡ returned (negsuc 0)
    → All (λ j. (start_flash_buffer create zeros).1 j ≡ true) js
    → run (launched create) js ≡ launched create
unfolding Threads.run
still create [] failed made = refl
still create (j ∷ js) failed (made, later) =
    rw (turn-launched create j (made_lem create j failed made)) (still create js failed later)

-- If start_flash_buffer returns -1, then main returns 0, and under any schedule of the threads that
-- have been made none of them gets beyond its first statement.
ring_stands_still :
    (create : ℕ → Bool) (js : List ℕ)
    → (start_flash_buffer create zeros).0 ≡ returned (negsuc 0)
    → All (λ j. (start_flash_buffer create zeros).1 j ≡ true) js
    → (main create zeros ≡ returned (pos 0)) × (run (launched create) js ≡ launched create)
unfolding main
ring_stands_still create js failed made = (rw (failed, main) refl, still create js failed made)
