-- ===== src/MBuffer/Start/Threads.antt =====
-- `start_m_buffer_thread` of `M_buffer` (src/display/m_buffer.cpp).
use dsui.Prelude.{
  ℕ, zero, suc, ◌+◌, ◌≡◌, ◌↔◌, ◌⊎◌, inl, refl, Bool, false, List, [], ◌∷◌, ◌++◌, if◌then◌else◌,
  arith,
}
use dsui.MBuffer.{BufferTask}
use dsui.MBuffer.Start.{max_produce_thread_num}

-- The threads of the object.
pub data Thread : Type 0 where
  consumer ticker : Thread
  producer : ℕ → Thread

-- 255 is the -1 that a `uint8_t` takes; on success control falls off the end.
pub data StartResult : Type 0 where
  returned_255 no_return : StartResult

-- `create k` says whether the `k`-th `pthread_create` succeeds. A producer that is not created is
-- passed over.
module _ (create : ℕ → Bool) where
  create_producers : ℕ → ℕ → List Thread
  create_producers i zero = []
  create_producers i (suc count) =
      let rest = create_producers (i + 1) count in
      if create (i + 1) then producer i ∷ rest else rest

  unfoldable pub start_m_buffer_thread : List BufferTask → StartResult × List Thread
  unfolding create_producers
  start_m_buffer_thread [] = (returned_255, [])
  start_m_buffer_thread (t ∷ ts) =
      let producers = create_producers 0 max_produce_thread_num in
      if create 0
      then (if create (max_produce_thread_num + 1)
          then (no_return, consumer ∷ producers ++ ticker ∷ [])
          else (returned_255, consumer ∷ producers))
      else (returned_255, [])

-- start_m_buffer_thread returns 255 exactly if there is no task or the consumer or the ticking thread
-- cannot be created; otherwise it ends without a return value.
start_returns :
    (create : ℕ → Bool) (tasks : List BufferTask)
    → ((start_m_buffer_thread create tasks).0 ≡ returned_255)
      ↔ ((tasks ≡ []) ⊎ (create 0 ≡ false) ⊎ (create (max_produce_thread_num + 1) ≡ false))
unfolding start_m_buffer_thread
start_returns create [] = ((λ e. inl refl), (λ h. refl))
start_returns create (t ∷ ts) = ((λ e. ground arith), (λ h. ground arith))
