-- ===== src/InputReader/Listener/Records/Loop.antt =====
-- What the loop over the bytes of a buffer does with the records that are in it.
use mathlib.Core.List.{append_assoc, append-nil}
use dsui.Prelude.{
  ◌%◌, ℕ, zero, suc, ◌+◌, ◌^◌, ◌≤◌, ◌<◌, ◌≡◌, ◌≢◌, refl, ap, ◌∙◌, true, false, Option, none, some,
  List, [], ◌∷◌, ◌++◌, arith, if◌then◌else◌, ltb, lt→ltb, ◌==◌, inl, inr, Bool-cases, Option-cases,
  length, length-append, drop, drop-append, All,
}
use dsui.InputReader.Kernel.{Sys}
use dsui.InputReader.Table.{State}
use dsui.InputReader.Listener.{
  buf_size, CallbackFunc, u32_at, c_str, event_size, Outcome, finished, undefined, ◌>>=◌,
  handle_event, handle_record, event_loop,
}
use dsui.InputReader.Listener.Records.{
  u32_at-append, InotifyRecord, name_len, encode, encode_all, IsRecord, mask-encode, len-encode,
  name-encode, length-encode, length-le-bytes,
}

abbrev pub checked : ℕ → State → Option (State × ℕ)
checked j s = let i = j % 2 ^ 32 in if ltb i (2 ^ 31) then some (s, i) else none

abbrev resume : ℕ → State → Option (State × ℕ)
resume i s = some (s, i)

advance : (o : Option State) (i j : ℕ) → i < 2 ^ 31 → i ≡ j → (o >>= checked i) ≡ (o >>= resume j)
advance none i j h e = refl
advance (some s) i j h e = ground arith

module _ (sys : Sys) (epoll_fd : Option ℕ) (cf : Option CallbackFunc) where
  -- What the loop is to do with one record: nothing if it has no name.
  abbrev pub apply_record : InotifyRecord → State → Option State
  apply_record r s =
      if name_len r == 0 then some s else handle_event sys epoll_fd cf r.mask (some r.name) s

  abbrev pub apply_records : List InotifyRecord → State → Option State
  apply_records [] s = some s
  apply_records (r ∷ rs) s = apply_record r s >>= apply_records rs

  abbrev pub outcome : Option State → Outcome
  outcome none = undefined
  outcome (some s) = finished s

  handle_record-encode :
      (before rest : List ℕ) (r : InotifyRecord) (s : State)
      → IsRecord r
      → length before + length (encode r) < 2 ^ 31
      → handle_record sys epoll_fd cf (before ++ (encode r ++ rest)) (length before) s
        ≡ (apply_record r s >>= resume (length (before ++ encode r)))
  unfolding handle_record
  handle_record-encode before rest r s v fits =
      rw (mask_read, len_read, handle_record)
        (elim (Bool-cases (name_len r == 0)) [
          | inl no_name ↦ rw no_name (advance (some s) _ (length (before ++ encode r)) within next)
          | inr named ↦
              rw (named, name_read (ground arith))
                (advance (handle_event sys epoll_fd cf r.mask (some r.name) s) _
                  (length (before ++ encode r)) within next)
        ])
    where
      mask_read : u32_at (before ++ (encode r ++ rest)) (length before + 4) ≡ some r.mask
      mask_read = u32_at-append before (encode r ++ rest) 4 ∙ mask-encode r rest v.mask_fits

      len_read : u32_at (before ++ (encode r ++ rest)) (length before + 12) ≡ some (name_len r)
      len_read =
          u32_at-append before (encode r ++ rest) 12 ∙ len-encode r rest (omega (arith, v.len_fits))

      name_read :
          name_len r ≢ 0
          → c_str (drop (length before + event_size) (before ++ (encode r ++ rest))) ≡ some r.name
      name_read ne = ap c_str (drop-append before (encode r ++ rest) 16) ∙ name-encode r rest v ne

      within : length before + event_size + name_len r < 2 ^ 31
      within = omega (arith, length-encode r, fits)

      next : length before + event_size + name_len r ≡ length (before ++ encode r)
      next = omega (arith, length-encode r, length-append before (encode r))

  -- The loop over a buffer of whole records from one of them on, with fuel for them all.
  event_loop-encode :
      (fuel : ℕ) (before : List ℕ) (rs : List InotifyRecord) (s : State)
      → All IsRecord rs
      → length rs < fuel
      → length before + length (encode_all rs) < 2 ^ 31
      → event_loop sys epoll_fd cf fuel (before ++ encode_all rs) (length before) s
        ≡ outcome (apply_records rs s)
  unfolding event_loop
  event_loop-encode zero before rs s v h fits = absurd (omega arith)
  event_loop-encode (suc fuel) before [] s v h fits =
      let size : length (before ++ []) ≡ length before = ap length (append-nil before) in
      let done : ltb (length before) (length (before ++ [])) ≡ false = ground arith in
      rw (done, event_loop)
  event_loop-encode (suc fuel) before (r ∷ rs) s v h fits =
      rw (more, first, event_loop)
        (elim (Option-cases (apply_record r s)) [
          | inl bad ↦ rw (bad, event_loop)
          | inr (s', good) ↦
              let ih =
                event_loop-encode fuel (before ++ encode r) rs s' v.1 (omega arith)
                  (omega (arith, size, length-append before (encode r), fits)) in
              rw (good, event_loop) (rw (append_assoc before (encode r) (encode_all rs)) at ih)
        ])
    where
      size : length (encode r ++ encode_all rs) ≡ length (encode r) + length (encode_all rs)
      size = length-append (encode r) (encode_all rs)

      more : ltb (length before) (length (before ++ (encode r ++ encode_all rs))) ≡ true
      more =
          lt→ltb _ _
            (omega (arith, length-append before (encode r ++ encode_all rs), size, length-encode r))

      first :
          handle_record sys epoll_fd cf (before ++ (encode r ++ encode_all rs)) (length before) s
          ≡ (apply_record r s >>= resume (length (before ++ encode r)))
      first = handle_record-encode before (encode_all rs) r s v.0 (omega (arith, size, fits))

  -- For any whole records that the kernel writes into one buffer of less than 2^31 bytes, the loop
  -- over the bytes handles each record once, in order, as apply_record says, and then ends.
  pub event_loop_reads :
      (rs : List InotifyRecord) (s : State)
      → All IsRecord rs
      → length (encode_all rs) < 2 ^ 31
      → event_loop sys epoll_fd cf (suc (length (encode_all rs))) (encode_all rs) 0 s
        ≡ outcome (apply_records rs s)
  event_loop_reads rs s v fits =
      event_loop-encode (suc (length (encode_all rs))) [] rs s v (omega (arith, length-le-bytes rs))
        (omega (arith, fits))

  -- A read gives at most BUF_SIZE bytes.
  event_loop_reads_buffer :
      (rs : List InotifyRecord) (s : State)
      → All IsRecord rs
      → length (encode_all rs) ≤ buf_size
      → event_loop sys epoll_fd cf (suc (length (encode_all rs))) (encode_all rs) 0 s
        ≡ outcome (apply_records rs s)
  event_loop_reads_buffer rs s v fits = event_loop_reads rs s v (omega (arith, fits))
