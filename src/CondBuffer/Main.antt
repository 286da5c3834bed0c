-- ===== src/CondBuffer/Main.antt =====
-- `main` of src/examples/input_show/triple_buffer_model.c: it starts the threads, whatever `pthread_create` returns,
-- and waits for them.
use dsui.Prelude.{ℕ, zero, suc, ◌+◌, ◌≡◌, refl, Bool, true, false, List, if◌then◌else◌}
use dsui.CondBuffer.{Pc, System, run, init, main_producer}

-- Where `main` is: it joins a thread that has not been made, waits for a thread, or returns 0.
pub data Main : Type 0 where
  undefined : Main
  waiting_for : ℕ → Main
  returned_0 : Main

-- No statement is the end of a thread: both functions loop for ever.
unfoldable pub has_ended : Pc → Bool
has_ended p = false

-- `create k` says whether the `k`-th `pthread_create` succeeds.
module _ (create : ℕ → Bool) (s : System) where
  -- The joins from thread `k` on, `count` of them.
  unfoldable pub join_all : ℕ → ℕ → Main
  unfolding has_ended
  join_all k zero = returned_0
  join_all k (suc count) =
      let later = join_all (k + 1) count in
      if create k then (if has_ended (s.pc k) then later else waiting_for k) else undefined

  -- Behind the joins `main` returns.
  unfoldable pub main : Main
  unfolding join_all
  main = join_all 0 4

-- After any schedule main waits for the first producer, if that has been made.
main-waits :
    (create : ℕ → Bool) (js : List (ℕ × ℕ))
    → create 0 ≡ true
    → main create (run (init main_producer) js) ≡ waiting_for 0
unfolding main
main-waits create js made = rw made refl
