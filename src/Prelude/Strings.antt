-- ===== src/Prelude/Strings.antt =====
-- What the code uses of Rust's string functions, on lists of bytes.
use Prim.Native.Nat.{ℕ, zero, suc, ◌+◌, ◌-◌, ◌*◌, ◌^◌}
use Prim.Native.Char.{code}
use Prim.Native.String.{String}
use mathlib.Core.Bool.{Bool, true, false, ◌&&◌, ◌||◌, not}
use mathlib.Core.List.{List, [], ◌∷◌, reverse}
use mathlib.Core.Option.{Option, none, some}
use fwdelta.Prelude.Tests.{ltb, leb, ◌==◌}
use fwdelta.Prelude.Lists.{any}
use fwdelta.Prelude.Text.{Text, text_eq}

-- A literal as the list of its bytes.
abbrev pub codes : String → Text
codes String.[] = []
codes (String.◌∷◌ c s) = code c ∷ codes s

-- The text is the literal.
abbrev pub is_literal : String → Text → Bool
is_literal s t = text_eq (codes s) t

-- `matches!(t, "a" | "b" | ...)`
abbrev pub is_one_of : List String → Text → Bool
is_one_of ss t = any (λ s. is_literal s t) ss

-- The characters of the Unicode property White_Space, by their bytes in UTF-8: those of one byte, of
-- two and of three.
abbrev is_blank : ℕ → Bool
is_blank a = a == 32 || leb 9 a && leb a 13

abbrev is_blank2 : ℕ → ℕ → Bool
is_blank2 a b = a == 194 && (b == 133 || b == 160)

abbrev is_blank3 : ℕ → ℕ → ℕ → Bool
is_blank3 a b c =
    a == 225 && b == 154 && c == 128
    || a == 226 && b == 128 && (leb 128 c && leb c 138 || c == 168 || c == 169 || c == 175)
    || a == 226 && b == 129 && c == 159
    || a == 227 && b == 128 && c == 128

-- The tests of two and of three bytes, the bytes in the order of the text.
abbrev Blanks : Type 0
Blanks = (ℕ → ℕ → Bool) × (ℕ → ℕ → ℕ → Bool)

-- The text without its leading white space.
unfoldable pub drop_blanks : Blanks → Text → Text
drop_blanks t [] = []
drop_blanks t (a ∷ []) = elim (is_blank a) [ true ↦ [] | false ↦ a ∷ [] ]
drop_blanks t (a ∷ b ∷ []) = elim (is_blank a) [
  | true ↦ drop_blanks t (b ∷ [])
  | false ↦ elim (t.0 a b) [ true ↦ [] | false ↦ a ∷ b ∷ [] ]
]
drop_blanks t (a ∷ b ∷ c ∷ cs) = elim (is_blank a) [
  | true ↦ drop_blanks t (b ∷ c ∷ cs)
  | false ↦ elim (t.0 a b) [
    | true ↦ drop_blanks t (c ∷ cs)
    | false ↦ elim (t.1 a b c) [ true ↦ drop_blanks t cs | false ↦ a ∷ b ∷ c ∷ cs ]
  ]
]

unfoldable pub trim_start : Text → Text
unfolding drop_blanks
trim_start t = drop_blanks (is_blank2, is_blank3) t

-- Backwards, the last byte of a character comes first.
unfoldable pub trim_end : Text → Text
unfolding drop_blanks
trim_end t = reverse (drop_blanks ((λ b a. is_blank2 a b), (λ c b a. is_blank3 a b c)) (reverse t))

-- `str::trim`
unfoldable pub trim : Text → Text
unfolding trim_start trim_end
trim t = trim_end (trim_start t)

abbrev continues_character : ℕ → Bool
continues_character c = leb 128 c && leb c 191

-- The text ends at the index, or it has a byte there that does not continue a character.
abbrev starts_character : Text → ℕ → Bool
starts_character [] zero = true
starts_character [] (suc i) = false
starts_character (c ∷ cs) zero = not (continues_character c)
starts_character (c ∷ cs) (suc i) = starts_character cs i

-- `str::is_char_boundary`
abbrev pub is_char_boundary : Text → ℕ → Bool
is_char_boundary t zero = true
is_char_boundary t (suc i) = starts_character t (suc i)

-- `str::split_once`
unfoldable pub split_once : ℕ → Text → Option (Text × Text)
split_once sep [] = none
split_once sep (c ∷ cs) = elim (c == sep) [
  | true ↦ some ([], cs)
  | false ↦ elim (split_once sep cs) [ none ↦ none | some (a, b) ↦ some (c ∷ a, b) ]
]

abbrev pub push_head : ℕ → List Text → List Text
push_head c [] = (c ∷ []) ∷ []
push_head c (t ∷ ts) = (c ∷ t) ∷ ts

-- `str::split`
unfoldable pub split : ℕ → Text → List Text
split sep [] = [] ∷ []
split sep (c ∷ cs) = elim (c == sep) [
  | true ↦ [] ∷ split sep cs
  | false ↦ push_head c (split sep cs)
]

-- The digits of `str::parse`, refused where they reach `limit`.
unfoldable pub parse_digits : ℕ → Text → ℕ → Option ℕ
parse_digits limit [] n = some n
parse_digits limit (c ∷ cs) n = elim (leb 48 c && (leb c 57 && ltb (n * 10 + (c - 48)) limit)) [
  | true ↦ parse_digits limit cs (n * 10 + (c - 48))
  | false ↦ none
]

-- `str::parse` to an unsigned integer below `limit`, which takes one leading `+`.
unfoldable pub parse_below : ℕ → Text → Option ℕ
unfolding parse_digits
parse_below limit [] = none
parse_below limit (c ∷ []) = parse_digits limit (c ∷ []) 0
parse_below limit (c ∷ d ∷ cs) = elim (c == 43) [
  | true ↦ parse_digits limit (d ∷ cs) 0
  | false ↦ parse_digits limit (c ∷ d ∷ cs) 0
]

abbrev pub parse_u32 : Text → Option ℕ
parse_u32 t = parse_below (2 ^ 32) t

abbrev pub parse_u64 : Text → Option ℕ
parse_u64 t = parse_below (2 ^ 64) t

abbrev starts_line_feed : Text → Bool
starts_line_feed [] = false
starts_line_feed (c ∷ cs) = c == 10

-- `str::lines`, without their ends.
unfoldable pub lines : Text → List Text
lines [] = []
lines (c ∷ cs) = elim (c == 10) [
  | true ↦ [] ∷ lines cs
  | false ↦ elim (c == 13 && starts_line_feed cs) [
    | true ↦ lines cs
    | false ↦ push_head c (lines cs)
  ]
]
