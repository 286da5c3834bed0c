-- ===== src/BoundedBuffer/Tests.antt =====
-- product_consume_model.c with the threads of `main`, run on a schedule.
use dsui.Prelude.{
  ℕ, ◌+◌, ◌*◌, ◌%◌, ◌≤◌, ◌≡◌, refl, List, [], ◌∷◌, ◌++◌, arith, length, replicate, All-replicate,
}
use dsui.Threads
use dsui.BoundedBuffer.{step, run, init, main_threads, main_producer, buffer_size, p_store}
use dsui.Fifo.{Moves}
use dsui.BoundedBuffer.Queue.{is_a_queue}
use dsui.BoundedBuffer.Safety.{ends, count_when_unlocked}
use dsui.BoundedBuffer.Fair.{Round, run_rounds, keeps_consuming}

-- Producer 0 puts an item, producer 1 puts one, the consumer takes one.
abbrev round : List ℕ
round = replicate 7 0 ++ replicate 7 1 ++ replicate 7 3

-- Producer 2 is inside, and the others wait for the mutex.
abbrev crowd : List ℕ
crowd = 2 ∷ 0 ∷ 1 ∷ 2 ∷ 0 ∷ 1 ∷ 0 ∷ []

round_output :
    ((run (init main_producer) round).mem.produced ≡ 1 ∷ 1 ∷ [])
    × ((run (init main_producer) round).mem.consumed ≡ 1 ∷ [])
unfolding Threads.run Threads.turn step init
round_output = (refl, refl)

crowd_inside : (run (init main_producer) crowd).pc 2 ≡ p_store 1
unfolding Threads.run Threads.turn step init
crowd_inside = refl

count_when_unlocked_example :
    (length (run (init main_producer) round).mem.produced
      ≡ length (run (init main_producer) round).mem.consumed
        + (run (init main_producer) round).mem.count)
    × ((run (init main_producer) round).mem.count ≤ buffer_size)
    × ((run (init main_producer) round).mem.inp
        ≡ ((run (init main_producer) round).mem.out + (run (init main_producer) round).mem.count)
          % buffer_size)
unfolding Threads.run Threads.turn step init
count_when_unlocked_example =
    count_when_unlocked main_threads main_producer round (omega arith) refl

-- A round in which the consumer has one turn, and the producers have several.
abbrev slow_round : List ℕ
slow_round = 0 ∷ 0 ∷ 2 ∷ 2 ∷ 1 ∷ 1 ∷ 0 ∷ 3 ∷ []

slow_round-Round : Round main_threads slow_round
slow_round-Round = (omega arith, λ k lt. ground arith)

abbrev rounds : List (List ℕ)
rounds = replicate 200 slow_round

keeps_consuming_example :
    length rounds + 14 * length (run (init main_producer) crowd).mem.consumed
    ≤ 14 * length (run_rounds (run (init main_producer) crowd) rounds).mem.consumed
      + 6 * main_threads
      + 70
keeps_consuming_example =
    keeps_consuming main_threads main_producer crowd (omega arith) 0 3 (omega arith) (omega arith)
      refl refl rounds (All-replicate (Round main_threads) 200 slow_round slow_round-Round)

is_a_queue_example :
    Moves buffer_size
      (ends (run (init main_producer) crowd).mem)
      (ends (run (run (init main_producer) crowd) round).mem)
is_a_queue_example = is_a_queue main_threads main_producer crowd round (omega arith) (omega arith)
