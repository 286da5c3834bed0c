-- ===== src/CondBuffer/Bounds.antt =====
-- What every schedule of triple_buffer_model.c keeps. Its `consumer` never counts `count` down.
use dsui.Prelude.{
  ℕ, ◌≤◌, ◌≡◌, refl, ap, Bool, true, none, List, arith, length, length-append, length-take,
  prefix_of_take, take,
}
use mathlib.Core.List.{append-nil}
use dsui.Threads.{run_always_keeps}
use dsui.CondBuffer.{buffer_size, by_turn, System, run, init}
use dsui.CondBuffer.Invariant.{critical, position, unseen, Inv}
use dsui.CondBuffer.Moves.{step-Inv, length-produced-le}

init-Inv : (b : ℕ → Bool) → Inv (init b).mem (init b).pc
unfolding init
init-Inv b = record {
  owner = λ j c. ground arith;
  owns = λ j c. cc;
  size = refl;
  bounded = omega arith;
  counted = refl;
  contents = refl;
  tested = tt;
  reading = λ j. ground arith;
}

module _ (b : ℕ → Bool) (ts : List (ℕ × ℕ)) where
  abbrev pub after : System
  after = run (init b) ts

  pub after-Inv : Inv after.mem after.pc
  after-Inv =
      run_always_keeps (λ t. t.0) by_turn (λ s. Inv s.mem s.pc)
        (λ s (i, r) inv m p e. step-Inv inv i r e) (init b) ts (init-Inv b)

  -- For any threads and any schedule, two threads that are both between taking and giving back the
  -- mutex are the same thread.
  exclusive : (i j : ℕ) → critical (after.pc i) ≡ true → critical (after.pc j) ≡ true → i ≡ j
  exclusive i j ci cj = ground (arith, after-Inv.owner i ci, after-Inv.owner j cj)

  -- For any threads, any schedule and any random numbers, all the producers together print at most
  -- BUFFER_SIZE items, and each consumer prints at most as many, however long the program runs.
  pub output_stops :
      (j : ℕ)
      → (length after.mem.produced ≤ buffer_size) × (length (after.mem.consumed j) ≤ buffer_size)
  output_stops j = (
    length-produced-le after-Inv,
    omega (
      arith,
      length-produced-le after-Inv,
      after-Inv.reading j,
      ap length (after-Inv.reading j).1,
      length-append (after.mem.consumed j) (unseen (after.pc j)),
      length-take (position (after.pc j)) after.mem.produced,
    ),
  )

  -- For any threads and any schedule, what a consumer has printed is, in order, the first items that
  -- the producers have printed.
  pub consumer_in_order :
      (j : ℕ) → after.mem.consumed j ≡ take (length (after.mem.consumed j)) after.mem.produced
  consumer_in_order j =
      prefix_of_take (position (after.pc j)) (after.mem.consumed j) (unseen (after.pc j))
        after.mem.produced (after-Inv.reading j).1

  -- While no thread holds the mutex, `count`, `prod_count` and the number of printed items agree, and
  -- the first `count` slots of the buffer hold those items in order.
  pub counters_agree :
      after.mem.mutex ≡ none
      → (after.mem.count ≡ length after.mem.produced)
        × (after.mem.prod_count ≡ length after.mem.produced)
        × (take after.mem.count after.mem.buffer ≡ after.mem.produced)
  counters_agree free = ground (
    arith,
    after-Inv.counted,
    after-Inv.contents,
    after-Inv.size,
    after-Inv.bounded,
    length-take after.mem.count after.mem.buffer,
    append-nil after.mem.produced,
  )
