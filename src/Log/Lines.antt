-- ===== src/Log/Lines.antt =====
-- The lines of the log read back.
use dsui.Prelude.{
  map, inl, inr, Bool-cases, ℕ, zero, suc, ◌+◌, ◌-◌, ◌*◌, ◌/◌, ◌%◌, ◌<◌, ◌≡◌, ◌≢◌, refl, Option,
  none, some, List, [], ◌∷◌, ◌++◌, ltb, leb, ◌==◌, if◌then◌else◌, arith, All, length, drop,
}
use dsui.Log.{
  Level, verbose, debug, info, warning, error, number, letter, Message, digits, decimal, line_of,
  dslog, printed,
}

infixl 5 ◌>>=◌
abbrev ◌>>=◌ : {A B : Type 0} → Option A → (A → Option B) → Option B
none >>= f = none
some a >>= f = f a

-- The number that the digits stand for.
value : ℕ → List ℕ → ℕ
value n [] = n
value n (d ∷ ds) = value (10 * n + (d - b'0')) ds

-- What stands before and behind the first `c`.
split : ℕ → List ℕ → Option (List ℕ × List ℕ)
split c [] = none
split c (x ∷ xs) =
    let rest : Option (List ℕ × List ℕ) = do
      (before, behind) ← split c xs
      some (x ∷ before, behind)
    in if x == c then some ([], xs) else rest

level_of : ℕ → Option Level
level_of c =
    if c == b'V'
    then some verbose
    else (if c == b'D'
        then some debug
        else (if c == b'I'
            then some info
            else (if c == b'W' then some warning else (if c == b'E' then some error else none))))

-- A line is a letter, a slash, the tag, a bracket, the function, a space, the line's number, a bracket,
-- a colon and the text.
pub parse : List ℕ → List ℕ → Option Message
unfolding value split level_of
parse tag [] = none
parse tag (c ∷ s) = do
  level ← level_of c
  (func, s1) ← split b' ' (drop (suc (suc (length tag))) s)
  (line, s2) ← split b')' s1
  some (record { level = level; func = func; line = value 0 line; text = drop 1 s2 })

level_of-letter : (l : Level) → level_of (letter l) ≡ some l
unfolding level_of
level_of-letter verbose = refl
level_of-letter debug = refl
level_of-letter info = refl
level_of-letter warning = refl
level_of-letter error = refl

split_lem : (c : ℕ) (xs ys : List ℕ) → All (λ x. x ≢ c) xs → split c (xs ++ c ∷ ys) ≡ some (xs, ys)
unfolding split
split_lem c [] ys other = ground arith
split_lem c (x ∷ xs) ys (ne, other) = ground (arith, split_lem c xs ys other)

All-append : (P : ℕ → Type 0) (xs ys : List ℕ) → All P xs → All P ys → All P (xs ++ ys)
All-append P [] ys p q = q
All-append P (x ∷ xs) ys (p, ps) q = (p, All-append P xs ys ps q)

digits-ne-bracket : (fuel n : ℕ) → All (λ d. d ≢ b')') (digits fuel n)
unfolding digits
digits-ne-bracket zero n = tt
digits-ne-bracket (suc fuel) n = elim (Bool-cases (ltb n 10)) [
  | inl last ↦ rw (last, digits) ((λ e. omega arith), tt)
  | inr more ↦
      let before = digits-ne-bracket fuel (n / 10) in
      rw (more, digits) (All-append _ (digits fuel (n / 10)) _ before ((λ e. omega arith), tt))
]

value-append : (n : ℕ) (xs ys : List ℕ) → value n (xs ++ ys) ≡ value (value n xs) ys
unfolding value
value-append n [] ys = refl
value-append n (x ∷ xs) ys = value-append (10 * n + (x - b'0')) xs ys

value-digits : (fuel n : ℕ) → n < fuel → value 0 (digits fuel n) ≡ n
unfolding value digits
value-digits zero n lt = absurd (omega arith)
value-digits (suc fuel) n lt = ground (
  arith,
  value-digits fuel (n / 10),
  value-append 0 (digits fuel (n / 10)) ((b'0' + n % 10) ∷ []),
)

drop-header : (tag rest : List ℕ) (c : ℕ) → drop (suc (length tag)) (tag ++ c ∷ rest) ≡ rest
drop-header [] rest c = refl
drop-header (x ∷ tag) rest c = drop-header tag rest c

parse-line_of :
    (tag : List ℕ) (m : Message) → All (λ c. c ≢ b' ') m.func → parse tag (line_of tag m) ≡ some m
unfolding parse line_of decimal
parse-line_of tag m no_space =
    let behind = decimal m.line ++ (b')' ∷ b':' ∷ m.text) in
    let header : drop (suc (suc (length tag)))
          (b'/' ∷ (tag ++ (b'(' ∷ (m.func ++ (b' ' ∷ behind)))))
        ≡ m.func ++ (b' ' ∷ behind) =
      drop-header tag (m.func ++ (b' ' ∷ behind)) b'(' in
    rw
      (
        level_of-letter m.level,
        header,
        split_lem b' ' m.func behind no_space,
        split_lem b')' (decimal m.line) (b':' ∷ m.text) (digits-ne-bracket (suc m.line) m.line),
        value-digits (suc m.line) m.line (omega arith),
        ◌>>=◌,
      )
      refl

-- The messages of a level that is at most `dslog_level`.
pub kept : ℕ → List Message → List Message
kept dslog_level [] = []
kept dslog_level (m ∷ ms) =
    let rest = kept dslog_level ms in if leb (number m.level) dslog_level then m ∷ rest else rest

-- Whatever the level is when compiling, and for a tag without a %, the lines that a sequence of messages
-- prints, from functions without a space in their names, give back the messages whose level is at most
-- DSLOG_LEVEL, each once and in order: the macro, the function, the line's number and the text.
pub parse-printed :
    (dslog_level : ℕ) (tag : List ℕ) (ms : List Message)
    → All (λ c. c ≢ b'%') tag
    → All (λ m. All (λ c. c ≢ b' ') m.func) ms
    → map (parse tag) (printed dslog_level tag ms) ≡ map some (kept dslog_level ms)
unfolding printed dslog kept
parse-printed dslog_level tag [] plain no_space = refl
parse-printed dslog_level tag (m ∷ ms) plain (no_space, later) =
    ground (arith, parse-line_of tag m no_space, parse-printed dslog_level tag ms plain later)
