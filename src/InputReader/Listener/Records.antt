-- ===== src/InputReader/Listener/Records.antt =====
-- The records that inotify writes, as bytes.
pub mod Loop
use mathlib.Core.List.{append_assoc, append-nil}
use dsui.Prelude.{
  ℕ, zero, suc, ◌+◌, ◌/◌, ◌%◌, ◌^◌, ◌≤◌, ◌<◌, ◌≡◌, ◌≢◌, refl, ap, ◌∙◌, true, false, Option, none,
  some, List, [], ◌∷◌, ◌++◌, arith, if◌then◌else◌, ltb, lt→ltb, ◌==◌, inl, inr, Bool-cases,
  Option-cases, length, length-append, length-replicate, get_elem?-append, drop, drop-append,
  replicate, All,
}
use dsui.InputReader.Kernel.{Sys}
use dsui.InputReader.Table.{State}
use dsui.InputReader.Listener.{
  buf_size, CallbackFunc, u32_at, c_str, event_size, Outcome, finished, undefined, ◌>>=◌,
  handle_event, handle_record, event_loop,
}

-- `struct inotify_event` with its name, and the number of zero bytes that follow the name.
pub record InotifyRecord : Type 0 where
  pub wd : ℕ
  pub mask : ℕ
  pub cookie : ℕ
  pub name : List ℕ
  pub padding : ℕ

-- The field `len`.
abbrev pub name_len : InotifyRecord → ℕ
name_len r = length r.name + r.padding

abbrev le32 : ℕ → List ℕ
le32 n = n % 256 ∷ n / 256 % 256 ∷ n / 65536 % 256 ∷ n / 16777216 % 256 ∷ []

unfoldable pub encode : InotifyRecord → List ℕ
encode r =
    le32 r.wd
    ++ (le32 r.mask ++ (le32 r.cookie ++ (le32 (name_len r) ++ (r.name ++ replicate r.padding 0))))

abbrev pub encode_all : List InotifyRecord → List ℕ
encode_all [] = []
encode_all (r ∷ rs) = encode r ++ encode_all rs

-- What the kernel writes: a name without zero bytes, with its terminator, unless `len` is 0.
pub record IsRecord (r : InotifyRecord) : Type 0 where
  pub mask_fits : r.mask < 2 ^ 32
  pub len_fits : name_len r < 2 ^ 16
  pub no_zero : All (λ b. b ≢ 0) r.name
  pub terminated : name_len r ≢ 0 → 0 < r.padding

u32_at-append : (xs ys : List ℕ) (k : ℕ) → u32_at (xs ++ ys) (length xs + k) ≡ u32_at ys k
u32_at-append xs ys k =
    let e1 : length xs + k + 1 ≡ length xs + (k + 1) = omega arith in
    let e2 : length xs + k + 2 ≡ length xs + (k + 2) = omega arith in
    let e3 : length xs + k + 3 ≡ length xs + (k + 3) = omega arith in
    rw (
      e1,
      e2,
      e3,
      get_elem?-append xs ys k,
      get_elem?-append xs ys (k + 1),
      get_elem?-append xs ys (k + 2),
      get_elem?-append xs ys (k + 3),
    )

c_str-padded :
    (name rest : List ℕ) (n : ℕ)
    → All (λ b. b ≢ 0) name
    → 0 < n
    → c_str (name ++ (replicate n 0 ++ rest)) ≡ some name
c_str-padded [] rest zero h lt = absurd (omega arith)
c_str-padded [] rest (suc n) h lt = refl
c_str-padded (b ∷ name) rest n h lt =
    let ih = c_str-padded name rest n h.1 lt in ground (arith, h.0)

length-encode : (r : InotifyRecord) → length (encode r) ≡ event_size + name_len r
unfolding encode
length-encode r =
    omega
      (arith, length-append r.name (replicate r.padding 0), length-replicate {A = ℕ} r.padding 0)

length-le-bytes : (rs : List InotifyRecord) → length rs ≤ length (encode_all rs)
length-le-bytes [] = omega arith
length-le-bytes (r ∷ rs) =
    omega (arith, length-le-bytes rs, length-encode r, length-append (encode r) (encode_all rs))

mask-encode :
    (r : InotifyRecord) (rest : List ℕ)
    → r.mask < 2 ^ 32
    → u32_at (encode r ++ rest) 4 ≡ some r.mask
unfolding encode
mask-encode r rest h = ap some (omega arith)

len-encode :
    (r : InotifyRecord) (rest : List ℕ)
    → name_len r < 2 ^ 32
    → u32_at (encode r ++ rest) 12 ≡ some (name_len r)
unfolding encode
len-encode r rest h = ap some (omega arith)

name-encode :
    (r : InotifyRecord) (rest : List ℕ)
    → IsRecord r
    → name_len r ≢ 0
    → c_str (drop 16 (encode r ++ rest)) ≡ some r.name
unfolding encode
name-encode r rest v ne =
    rw (append_assoc r.name (replicate r.padding 0) rest)
      (c_str-padded r.name rest r.padding v.no_zero (v.terminated ne))
