-- ===== src/Nft/Token.antt =====
-- The tokens of crates/nft/src/lex.rs.
use fwdelta.Prelude.{ℕ, ◌<◌, ◌^◌, Bool, true, false}
use fwdelta.Prelude.Text.{Text}

pub data Tok : Type 0 where
  word str : Text → Tok
  num ip sym : ℕ → Tok
  break eof : Tok

pub record Token : Type 0 where
  pub tok : Tok
  pub line : ℕ
  pub column : ℕ

abbrev pub is_break : Tok → Bool
is_break break = true
is_break _ = false

abbrev pub is_eof : Tok → Bool
is_eof eof = true
is_eof _ = false

-- An address fits 32 bits.
abbrev pub InBounds : Tok → Type 0
InBounds (ip v) = v < 2 ^ 32
InBounds _ = Unit
