-- ===== src/Policy/Toml.antt =====
-- The TOML library that crates/policy/src/parse.rs calls, as the interface that the loader uses.
use fwdelta.Prelude.{ℕ, ◌≡◌, true, List, Option, some, length, min}
use fwdelta.Prelude.Text.{Text}
use fwdelta.Prelude.Strings.{is_char_boundary}

-- An `i64`.
pub data ℤ : Type 0 where
  pos negsuc : ℕ → ℤ

-- What the loader distinguishes of a value.
pub data View {ℓ} (V : Type ℓ) : Type ℓ where
  integer : ℤ → View V
  string : Text → View V
  array : List V → View V
  table : List (Text × V) → View V
  other : View V

-- What `from_str` returns: a table, or a message with the start of the span if there is one.
pub data Document {ℓ} (V : Type ℓ) : Type ℓ where
  document : List (Text × V) → Document V
  malformed : Text → Option ℕ → Document V

-- The library with its one law: a span is a range of bytes between characters of the source.
pub record TomlLib : Type 1 where
  pub Value : Type 0
  pub view : Value → View Value
  pub display : Value → Text
  pub from_str : Text → Document Value
  pub span_start :
      (source message : Text) (start : ℕ)
      → from_str source ≡ malformed message (some start)
      → is_char_boundary source (min start (length source)) ≡ true
