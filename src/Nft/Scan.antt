-- ===== src/Nft/Scan.antt =====
-- The tokens of crates/nft/src/lex.rs and the loops that scan one. The state is the bytes from the
-- current position on, with the line and the column; the loop over octets has fuel.
pub mod Progress
pub mod Ordinary
use fwdelta.Prelude.{
  ℕ, zero, suc, ◌+◌, ◌-◌, ◌*◌, ◌/◌, ◌%◌, not, Bool, true, false, ◌&&◌, ◌||◌, List, [], ◌∷◌, ◌++◌,
  Option, none, some, ltb, leb, ◌==◌, length, get_elem?, any, if◌then◌else◌,
}
use fwdelta.Prelude.Text.{Text}
use fwdelta.Ir.Intervals.{u64_max}
use fwdelta.Nft.Token.{Tok, Token, word, str, num, ip, sym, break, eof}
use fwdelta.Nft.Error.{
  ParseError, Message, syntax, unterminated_string, number_too_large, expected_a_number,
  unexpected_character, wrong_parts, large_octet,
}
use fwdelta.Nft.Error

pub record Lexer : Type 0 where
  pub src : List ℕ
  pub line : ℕ
  pub col : ℕ

-- The outcome of a part of the tokeniser: a value with the state after it, an error, or no fuel.
pub data Lexed {ℓ} (A : Type ℓ) : Type ℓ where
  done : A → Lexer → Lexed A
  failed : ParseError → Lexed A
  no_fuel : Lexed A

abbrev pub and_then {ℓ κ} : {A : Type ℓ} {B : Type κ} → Lexed A → (A → Lexer → Lexed B) → Lexed B
and_then (done a lx) f = f a lx
and_then (failed e) f = failed e
and_then no_fuel f = no_fuel

abbrev pub peek_at : List ℕ → ℕ → Option ℕ
peek_at src n = get_elem? src n

abbrev pub state : List ℕ → ℕ → ℕ → Lexer
state src line col = record { src = src; line = line; col = col }

-- The state after the byte `c`, with `rest` to come.
unfoldable pub bump : ℕ → List ℕ → ℕ → ℕ → Lexer
bump c rest line col = if c == 10 then state rest (line + 1) 1 else state rest line (col + 1)

-- `Lexer::err`
abbrev pub err : Text → ℕ → ℕ → Message → ParseError
err file line col message = Error.new file line col syntax message

abbrev pub is_digit : ℕ → Bool
is_digit c = leb 48 c && leb c 57

abbrev pub is_alpha : ℕ → Bool
is_alpha c = leb 65 c && leb c 90 || leb 97 c && leb c 122

-- A test of a byte that may be missing.
abbrev pub is_some_and : Option ℕ → (ℕ → Bool) → Bool
is_some_and none p = false
is_some_and (some c) p = p c

-- Where the loop over whitespace stands: between bytes, in a comment, or behind the `\` of a line
-- continuation, whose newline it has seen.
pub data Skipping : Type 0 where
  plain comment continuation : Skipping

unfoldable pub skip : Skipping → List ℕ → ℕ → ℕ → Lexer
skip mode [] line col = state [] line col
skip plain (c ∷ cs) line col = elim (c == 32 || (c == 9 || c == 13)) [
  | true ↦ skip plain cs line (col + 1)
  | false ↦ elim (c == 35) [
    | true ↦ skip comment cs line (col + 1)
    | false ↦ elim (c == 92 && is_some_and (peek_at cs 0) (λ n. n == 10)) [
      | true ↦ skip continuation cs line (col + 1)
      | false ↦ state (c ∷ cs) line col
    ]
  ]
]
skip comment (c ∷ cs) line col = elim (c == 10) [
  | true ↦ state (c ∷ cs) line col
  | false ↦ skip comment cs line (col + 1)
]
skip continuation (c ∷ cs) line col = skip plain cs (line + 1) 1

-- `scan_u64` after its first `n` digits; `seen` is the flag `any`.
unfoldable pub digits : (Message → ParseError) → List ℕ → ℕ → ℕ → ℕ → Bool → Lexed ℕ
digits fail [] line col n seen =
    if seen then done n (state [] line col) else failed (fail expected_a_number)
digits fail (c ∷ cs) line col n seen = elim (is_digit c) [
  | true ↦ elim (leb (n * 10 + (c - 48)) u64_max) [
    | true ↦ digits fail cs line (col + 1) (n * 10 + (c - 48)) true
    | false ↦ failed (fail number_too_large)
  ]
  | false ↦ if seen then done n (state (c ∷ cs) line col) else failed (fail expected_a_number)
]

unfoldable pub scan_u64 : (Message → ParseError) → Lexer → Lexed ℕ
unfolding digits
scan_u64 fail lx = digits fail lx.src lx.line lx.col 0 false

-- A dot with a digit after it.
abbrev pub dot_digit : List ℕ → Bool
dot_digit src = is_some_and (peek_at src 0) (λ c. c == 46) && is_some_and (peek_at src 1) is_digit

abbrev pub tail : List ℕ → List ℕ
tail [] = []
tail (c ∷ cs) = cs

-- The loop over the octets after the first.
unfoldable pub scan_octets : ℕ → (Message → ParseError) → Lexer → List ℕ → Lexed (List ℕ)
scan_octets zero fail lx octets = no_fuel
scan_octets (suc fuel) fail lx octets = elim (dot_digit lx.src) [
  | true ↦
      and_then (scan_u64 fail (state (tail lx.src) lx.line (lx.col + 1)))
        (λ o lx'. scan_octets fuel fail lx' (octets ++ o ∷ []))
  | false ↦ done octets lx
]

-- The loop that packs the octets.
unfoldable pub pack : (Message → ParseError) → List ℕ → ℕ → Lexer → Lexed Tok
pack fail [] v lx = done (ip v) lx
pack fail (o ∷ os) v lx = elim (ltb 255 o) [
  | true ↦ failed (fail (large_octet o))
  | false ↦ pack fail os (v * 256 + o) lx
]

unfoldable pub quad : (Message → ParseError) → List ℕ → Lexer → Lexed Tok
unfolding pack
quad fail octets lx = elim (length octets == 4) [
  | true ↦ pack fail octets 0 lx
  | false ↦ failed (fail (wrong_parts (length octets)))
]

unfoldable pub scan_number_or_ip : (Message → ParseError) → Lexer → Lexed Tok
unfolding scan_u64 scan_octets quad
scan_number_or_ip fail lx = and_then (scan_u64 fail lx) (λ first lx'. elim (dot_digit lx'.src) [
  | true ↦ and_then (scan_octets (suc (length lx'.src)) fail lx' (first ∷ [])) (quad fail)
  | false ↦ done (num first) lx'
])

-- `s.push(c as char)`: the byte is a code point, and a string is kept as the bytes of its UTF-8 form.
abbrev pub push_char : Text → ℕ → Text
push_char s c = if ltb c 128 then s ++ c ∷ [] else s ++ (192 + c / 64) ∷ (128 + c % 64) ∷ []

-- The loop over a string's body; `escaped` is set behind a `\`.
unfoldable pub string_body : ParseError → Bool → List ℕ → ℕ → ℕ → Text → Lexed Tok
unfolding bump
string_body unterminated escaped [] line col s = failed unterminated
string_body unterminated true (c ∷ cs) line col s =
    let after = bump c cs line col in
    string_body unterminated false cs after.line after.col (push_char s c)
string_body unterminated false (c ∷ cs) line col s =
    let after = bump c cs line col in
    elim (c == 34) [
      | true ↦ done (str s) after
      | false ↦ elim (c == 92) [
        | true ↦ string_body unterminated true cs after.line after.col s
        | false ↦ string_body unterminated false cs after.line after.col (push_char s c)
      ]
    ]

abbrev pub in_word : ℕ → Bool
in_word c = (is_alpha c || is_digit c) || (c == 95 || (c == 45 || c == 46))

abbrev pub goes_on : ℕ → List ℕ → Bool
goes_on c cs = in_word c && not (c == 45 && is_some_and (peek_at cs 0) is_digit)

-- The loop over a word, which stops at a `-` before a digit.
unfoldable pub word_body : List ℕ → ℕ → ℕ → Text → Lexed Tok
word_body [] line col w = done (word w) (state [] line col)
word_body (c ∷ cs) line col w = elim (goes_on c cs) [
  | true ↦ word_body cs line (col + 1) (w ++ c ∷ [])
  | false ↦ done (word w) (state (c ∷ cs) line col)
]

-- `{ } , / - ! = @ * ( )`
abbrev pub is_symbol : ℕ → Bool
is_symbol c = any (λ s. s == c) (123 ∷ 125 ∷ 44 ∷ 47 ∷ 45 ∷ 33 ∷ 61 ∷ 64 ∷ 42 ∷ 40 ∷ 41 ∷ [])

-- The token that starts with the byte `c`, which is no separator.
unfoldable pub scan_token : (Message → ParseError) → ℕ → List ℕ → ℕ → ℕ → Lexed Tok
unfolding string_body word_body scan_number_or_ip bump
scan_token fail c cs line col = elim (c == 34) [
  | true ↦ string_body (fail unterminated_string) false cs line (col + 1) []
  | false ↦ elim (is_digit c) [
    | true ↦ scan_number_or_ip fail (state (c ∷ cs) line col)
    | false ↦ elim (is_alpha c || c == 95) [
      | true ↦ word_body (c ∷ cs) line col []
      | false ↦ elim (is_symbol c) [
        | true ↦ done (sym c) (bump c cs line col)
        | false ↦ failed (fail (unexpected_character c))
      ]
    ]
  ]
]
