-- ===== src/Log/Tests.antt =====
-- A message of the input reader's copy.
use dsui.Log.Lines.{parse, kept, parse-printed}
use dsui.Prelude.{◌≢◌, All, some, map, arith, ◌≡◌, refl, [], ◌∷◌}
use dsui.Log.{Message, error, debug, printed, default_tag, default_level, dslog, digits}

abbrev message : Message
message = record { level = error; func = b'f' ∷ []; line = 41; text = b'x' ∷ [] }

printed_line :
    dslog default_level default_tag message
    ≡ (b'E' ∷ b'/' ∷ b'D' ∷ b'S' ∷ b'L' ∷ b'O' ∷ b'G' ∷ b'(' ∷ b'f' ∷ b' ' ∷ b'4' ∷ b'1' ∷ b')'
        ∷ b':' ∷ b'x' ∷ [])
      ∷ []
unfolding dslog digits
printed_line = refl

abbrev note : Message
note = record { level = debug; func = b'g' ∷ []; line = 7; text = [] }

default_tag-plain : All (λ c. c ≢ b'%') default_tag
default_tag-plain = (
  (λ e. omega arith),
  ((λ e. omega arith), ((λ e. omega arith), ((λ e. omega arith), ((λ e. omega arith), tt)))),
)

parse-printed_example :
    map (parse default_tag) (printed 1 default_tag (note ∷ message ∷ []))
    ≡ map some (kept 1 (note ∷ message ∷ []))
parse-printed_example =
    parse-printed 1 default_tag (note ∷ message ∷ []) default_tag-plain
      (((λ e. omega arith), tt), (((λ e. omega arith), tt), tt))
