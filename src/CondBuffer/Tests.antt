-- ===== src/CondBuffer/Tests.antt =====
-- triple_buffer_model.c with the threads of `main`, run on schedules.
use dsui.Prelude.{ℕ, zero, suc, ◌≤◌, ◌≡◌, refl, List, [], ◌∷◌, ◌++◌, length, take, replicate}
use dsui.Threads
use dsui.CondBuffer.{step, run, init, buffer_size, main_producer}
use dsui.CondBuffer.Bounds.{output_stops, consumer_in_order, counters_agree}

abbrev times : ℕ → List (ℕ × ℕ) → List (ℕ × ℕ)
times zero ts = []
times (suc n) ts = ts ++ times n ts

-- Producer 0 puts 142 % 100, and the consumer takes it.
abbrev round : List (ℕ × ℕ)
round = replicate 9 (0, 142) ++ replicate 7 (3, 0)

-- Twelve such rounds: the last two find the buffer full.
abbrev long : List (ℕ × ℕ)
long = times 12 round

round_output :
    ((run (init main_producer) round).mem.produced ≡ 42 ∷ [])
    × ((run (init main_producer) round).mem.consumed 3 ≡ 42 ∷ [])
unfolding Threads.run Threads.turn step init
round_output = (refl, refl)

-- The run ends with every item consumed, and with both sides waiting.
long_output :
    (length (run (init main_producer) long).mem.produced ≡ buffer_size)
    × (length ((run (init main_producer) long).mem.consumed 3) ≡ buffer_size)
unfolding Threads.run Threads.turn step init
long_output = (refl, refl)

output_stops_example :
    (length (run (init main_producer) long).mem.produced ≤ buffer_size)
    × (length ((run (init main_producer) long).mem.consumed 3) ≤ buffer_size)
output_stops_example = output_stops main_producer long 3

consumer_in_order_example :
    (run (init main_producer) long).mem.consumed 3
    ≡ take
        (length ((run (init main_producer) long).mem.consumed 3))
        (run (init main_producer) long).mem.produced
consumer_in_order_example = consumer_in_order main_producer long 3

counters_agree_example :
    ((run (init main_producer) round).mem.count
      ≡ length (run (init main_producer) round).mem.produced)
    × ((run (init main_producer) round).mem.prod_count
        ≡ length (run (init main_producer) round).mem.produced)
    × (take (run (init main_producer) round).mem.count (run (init main_producer) round).mem.buffer
        ≡ (run (init main_producer) round).mem.produced)
unfolding Threads.run Threads.turn step init
counters_agree_example = counters_agree main_producer round refl
