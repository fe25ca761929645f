-- ===== src/Nft/Cursor.antt =====
-- The parser of crates/nft/src/parse.rs as a monad, and its primitives. The state is the tokens from
-- the current position on; the last one is the end of file, and the position stays there. A loop
-- that is not structural on the tokens has fuel.
pub mod Post
pub mod Sound
use fwdelta.Prelude.{
  ℕ, ◌+◌, ◌-◌, Bool, true, false, List, [], ◌∷◌, Option, none, some, ◌==◌, if◌then◌else◌, get_elem?,
  length, String,
}
use fwdelta.Prelude.Text.{Text}
use fwdelta.Prelude.Strings.{lines, is_literal}
use fwdelta.Nft.Token.{Tok, Token, word, str, num, ip, sym, break, eof, is_break}
use fwdelta.Nft.Error.{
  ParseError, Cause, Message, syntax, unimplemented, expected_symbol, expected_name,
  expected_number, named_sets,
}
use fwdelta.Nft.Error

abbrev pub Tokens : Type 0
Tokens = List Token

-- A value with the tokens after it, an error, no fuel, or a panic.
pub data Parsed {ℓ} (A : Type ℓ) : Type ℓ where
  ok : A → Tokens → Parsed A
  failed : ParseError → Parsed A
  no_fuel panicked : Parsed A

abbrev pub Parser {ℓ} : Type ℓ → Type ℓ
Parser A = Tokens → Parsed A

unfoldable pub bind {ℓ κ} : {A : Type ℓ} {B : Type κ} → Parsed A → (A → Parser B) → Parsed B
bind (ok a ts) f = f a ts
bind (failed e) f = failed e
bind no_fuel f = no_fuel
bind panicked f = panicked

module _ {ℓ κ} {A : Type ℓ} {B : Type κ} where
  infixl 1 ◌>>=◌ ◌>>◌
  abbrev pub ◌>>=◌ : Parser A → (A → Parser B) → Parser B
  p >>= f = λ ts. bind (p ts) f

  abbrev pub ◌>>◌ : Parser A → Parser B → Parser B
  p >> q = p >>= λ _. q

abbrev pub pure {ℓ} : {A : Type ℓ} → A → Parser A
pure a ts = ok a ts

-- `Parser::peek`
abbrev pub next : Tokens → Tok
next [] = eof
next (t ∷ ts) = t.tok

abbrev pub peek : Parser Tok
peek ts = ok (next ts) ts

-- A line and a column.
abbrev pub Place : Type 0
Place = ℕ × ℕ

abbrev pub place : Tokens → Place
place [] = (0, 0)
place (t ∷ ts) = (t.line, t.column)

-- `Parser::at`
abbrev pub at : Parser Place
at ts = ok (place ts) ts

-- The tokens after the first, which stays if it is the last.
unfoldable pub advance : Tokens → Tokens
advance [] = []
advance (t ∷ []) = t ∷ []
advance (t ∷ u ∷ ts) = u ∷ ts

-- `Parser::bump`
unfoldable pub bump : Parser Tok
unfolding advance
bump ts = ok (next ts) (advance ts)

abbrev pub is_sym : ℕ → Tok → Bool
is_sym c (sym d) = d == c
is_sym c _ = false

abbrev pub is_word : String → Tok → Bool
is_word w (word x) = is_literal w x
is_word w _ = false

abbrev pub eat_if : Bool → Parser Bool
eat_if true ts = ok true (advance ts)
eat_if false ts = ok false ts

unfoldable pub eat_sym : ℕ → Parser Bool
unfolding advance
eat_sym c ts = eat_if (is_sym c (next ts)) ts

unfoldable pub eat_word : String → Parser Bool
unfolding advance
eat_word w ts = eat_if (is_word w (next ts)) ts

-- The loop of `skip_breaks`. The last token is no break.
unfoldable pub drop_breaks : Tokens → Tokens
drop_breaks [] = []
drop_breaks (t ∷ []) = t ∷ []
drop_breaks (t ∷ u ∷ ts) = elim (is_break t.tok) [
  | true ↦ drop_breaks (u ∷ ts)
  | false ↦ t ∷ u ∷ ts
]

unfoldable pub skip_breaks : Parser (Unit {0})
unfolding drop_breaks
skip_breaks ts = ok tt (drop_breaks ts)

-- `source.lines().nth(line.saturating_sub(1)).unwrap_or("")`
abbrev or_empty : Option Text → Text
or_empty none = []
or_empty (some t) = t

unfoldable pub source_line : Text → ℕ → Text
unfolding lines
source_line src line = or_empty (get_elem? (lines src) (line - 1))

module _ (file src : Text) where
  -- `Parser::err_at`, with the line of the source attached.
  unfoldable pub err_at {ℓ} : {A : Type ℓ} → Place → Cause → Message → Parser A
  unfolding source_line
  err_at (line, column) cause message ts =
      failed (record (Error.new file line column cause message) { snippet = source_line src line })

  -- `Parser::err`
  unfoldable pub err {ℓ} : {A : Type ℓ} → Cause → Message → Parser A
  unfolding err_at
  err cause message ts = err_at (place ts) cause message ts

  unfoldable pub expect_sym : ℕ → Parser (Unit {0})
  unfolding eat_sym err
  expect_sym c = do
    eaten ← eat_sym c
    found ← peek
    if eaten then pure tt else err syntax (expected_symbol c found)

  -- The arms of `expect_word` and `expect_num`, behind the token: an error has the place after it.
  unfoldable pub word_of : Tok → Parser Text
  unfolding err
  word_of (word w) = pure w
  word_of found = err syntax (expected_name found)

  unfoldable pub num_of : Tok → Parser ℕ
  unfolding err
  num_of (num n) = pure n
  num_of found = err syntax (expected_number found)

  unfoldable pub expect_word : Parser Text
  unfolding bump word_of
  expect_word = do found ← bump; word_of found

  unfoldable pub expect_num : Parser ℕ
  unfolding bump num_of
  expect_num = do found ← bump; num_of found

  unfoldable pub reject_named_set : Parser (Unit {0})
  unfolding err
  reject_named_set = do
    found ← peek
    if is_sym b'@' found then err unimplemented named_sets else pure tt

-- `[!=]`
unfoldable pub negation_arm : Bool → Parser Bool
unfolding bump eat_sym
negation_arm true = do bump; eat_sym b'='; pure true
negation_arm false = pure false

unfoldable pub negation : Parser Bool
unfolding negation_arm
negation = do found ← peek; negation_arm (is_sym b'!' found)
