-- ===== src/BoundedBuffer/Safety.antt =====
-- What every schedule of product_consume_model.c keeps.
use dsui.Prelude.{
  ℕ, ◌+◌, ◌%◌, ◌≤◌, ◌<◌, ◌≡◌, refl, ap, Bool, true, none, List, ◌++◌, arith, All, length,
  length-append, total, total-eq_zero,
}
use dsui.Fifo.{Ends, IsQueue}
use dsui.Threads.{run_keeps}
use dsui.BoundedBuffer.{buffer_size, Shared, step, System, init, run, entry}
use dsui.BoundedBuffer.Pending.{pending, length-pending}
use dsui.BoundedBuffer.Invariant.{critical, token, stored, out_lag, owner_pc, held, Inv}
use dsui.BoundedBuffer.Moves.{step-Inv, held-le}

init-Inv : (n : ℕ) (b : ℕ → Bool) → Inv n (init b).mem (init b).pc
unfolding init
init-Inv n b =
    let t : total token n (λ i. entry (b i)) ≡ 0 = total-eq_zero token n _ (λ i. ground arith) in
    let s : total stored n (λ i. entry (b i)) ≡ 0 = total-eq_zero stored n _ (λ i. ground arith) in
    record {
      owner = λ j c. ground arith;
      owns = λ j c. cc;
      slots = omega arith;
      size = refl;
      in_range = omega arith;
      input = ground arith;
      counted = ground arith;
      fifo = rw s refl;
    }

-- What the producers and the consumers have printed.
abbrev pub ends : Shared → Ends ℕ
ends m = record { entered = m.produced; left = m.consumed }

pub Inv-IsQueue : {n : ℕ} (s : System) → Inv n s.mem s.pc → IsQueue buffer_size (ends s.mem)
Inv-IsQueue {n} s inv = record {
  waiting = _;
  in_order = inv.fifo;
  bounded = omega (
    arith,
    length-pending s.mem.buffer ((s.mem.out + out_lag (owner_pc s.mem.mutex s.pc)) % buffer_size)
        (held n s.mem s.pc),
    held-le inv,
  );
}

module _ (n : ℕ) (b : ℕ → Bool) (is : List ℕ) (threads : All (λ i. i < n) is) where
  abbrev pub after : System
  after = run (init b) is

  pub after-Inv : Inv n after.mem after.pc
  after-Inv =
      run_keeps (λ i. i) step (λ i. i < n) (λ s. Inv n s.mem s.pc)
        (λ s i lt inv m p e. step-Inv inv i lt e) (init b) is threads (init-Inv n b)

  -- For any number of producers and consumers and any schedule, two threads that are both between
  -- pthread_mutex_lock and pthread_mutex_unlock are the same thread.
  mutual_exclusion : (i j : ℕ) → critical (after.pc i) ≡ true → critical (after.pc j) ≡ true → i ≡ j
  mutual_exclusion i j ci cj = ground (arith, after-Inv.owner i ci, after-Inv.owner j cj)

  -- For any number of producers and consumers and any schedule, the items printed as consumed are,
  -- in order, the first of those printed as produced, and at most BUFFER_SIZE are outstanding.
  consumed_in_order :
      (rest : List ℕ) × (after.mem.produced ≡ after.mem.consumed ++ rest)
      × (length rest ≤ buffer_size)
  consumed_in_order = let q = Inv-IsQueue after after-Inv in (q.waiting, q.in_order, q.bounded)

  -- While no thread holds the mutex, `count` is the number of items produced and not consumed, it is
  -- at most BUFFER_SIZE, and `in` is `count` slots ahead of `out`, modulo BUFFER_SIZE.
  pub count_when_unlocked :
      after.mem.mutex ≡ none
      → (length after.mem.produced ≡ length after.mem.consumed + after.mem.count)
        × (after.mem.count ≤ buffer_size)
        × (after.mem.inp ≡ (after.mem.out + after.mem.count) % buffer_size)
  count_when_unlocked free = ground (
    arith,
    after-Inv.counted,
    after-Inv.input,
    after-Inv.in_range,
    held-le after-Inv,
    ap length after-Inv.fifo,
    length-append after.mem.consumed
        (pending after.mem.buffer (after.mem.out % buffer_size) (held n after.mem after.pc)),
    length-pending after.mem.buffer (after.mem.out % buffer_size) (held n after.mem after.pc),
  )
