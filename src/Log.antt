-- ===== src/Log.antt =====
-- src/includes/ds_log.h: the macros that print a message if the level fixed when compiling is high
-- enough. A C string is the list of its bytes.
pub mod Lines
mod Tests
use Prim.Native.Char.{code}
use Prim.Native.String.{String}
use dsui.Prelude.{ℕ, zero, suc, ◌+◌, ◌/◌, ◌%◌, List, [], ◌∷◌, ◌++◌, ltb, leb, if◌then◌else◌}

-- The bytes of an ASCII text. `String` has its own `[]` and `∷`.
abbrev pub bytes : String → List ℕ
bytes String.[] = []
bytes (String.◌∷◌ c s) = code c ∷ bytes s

-- DSLOG_LEVEL_V to DSLOG_LEVEL_E
pub data Level : Type 0 where
  verbose debug info warning error : Level

abbrev pub number : Level → ℕ
number verbose = 5
number debug = 4
number info = 3
number warning = 2
number error = 1

abbrev pub default_level : ℕ
default_level = number verbose

abbrev pub default_tag : List ℕ
default_tag = bytes "DSLOG"

abbrev pub letter : Level → ℕ
letter verbose = b'V'
letter debug = b'D'
letter info = b'I'
letter warning = b'W'
letter error = b'E'

-- The digits that `%d` gives for a number that is not negative, the first `fuel` of them.
unfoldable pub digits : ℕ → ℕ → List ℕ
digits zero n = []
digits (suc fuel) n =
    let before = digits fuel (n / 10) in
    if ltb n 10 then (b'0' + n) ∷ [] else before ++ (b'0' + n % 10) ∷ []

unfoldable pub decimal : ℕ → List ℕ
unfolding digits
decimal n = digits (suc n) n

-- A use of one of the macros: which of them, `__func__`, `__LINE__` and the message as formatted.
pub record Message : Type 0 where
  pub level : Level
  pub func : List ℕ
  pub line : ℕ
  pub text : List ℕ

-- What `printf` makes of a message. The tag stands in its format, so this is for a tag without `%`, of
-- which `printf` copies each byte: a `%` there would begin a conversion.
unfoldable pub line_of : List ℕ → Message → List ℕ
unfolding decimal
line_of tag m =
    let place = m.func ++ (b' ' ∷ (decimal m.line ++ (b')' ∷ b':' ∷ m.text))) in
    letter m.level ∷ b'/' ∷ (tag ++ (b'(' ∷ place))

-- DSLOGV, DSLOGD, DSLOGI, DSLOGW and DSLOGE: the lines printed.
unfoldable pub dslog : ℕ → List ℕ → Message → List (List ℕ)
unfolding line_of
dslog dslog_level tag m = if leb (number m.level) dslog_level then line_of tag m ∷ [] else []

-- What a sequence of messages prints.
unfoldable pub printed : ℕ → List ℕ → List Message → List (List ℕ)
unfolding dslog
printed dslog_level tag [] = []
printed dslog_level tag (m ∷ ms) = dslog dslog_level tag m ++ printed dslog_level tag ms
