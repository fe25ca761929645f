-- ===== src/Nft/Skip.antt =====
-- What crates/nft/src/parse.rs passes over in a rule: counters, logging, and the reason of a reject.
pub mod Sound
use fwdelta.Prelude.{ℕ, zero, suc, Bool, true, false, List, [], ◌∷◌, ◌==◌, length}
use fwdelta.Prelude.Strings.{is_one_of}
use fwdelta.Nft.Token.{Tok, Token, word, str, num, break, eof, sym}
use fwdelta.Nft.Cursor.{
  Tokens, Parser, Parsed, ok, no_fuel, bind, ◌>>=◌, ◌>>◌, pure, next, advance, bump, eat_if,
  eat_word,
}

-- `let _ = self.expect_num()` takes a token and forgets an error.
unfoldable pub skip_number : Parser (Unit {0})
unfolding bump
skip_number = do bump; pure tt

unfoldable pub counter_bytes : Bool → Parser (Unit {0})
unfolding skip_number
counter_bytes true = skip_number
counter_bytes false = pure tt

unfoldable pub counter_packets : Bool → Parser (Unit {0})
unfolding skip_number eat_word counter_bytes
counter_packets true = do skip_number; more ← eat_word "bytes"; counter_bytes more
counter_packets false = pure tt

unfoldable pub skip_counter : Parser (Unit {0})
unfolding eat_word counter_packets
skip_counter = do more ← eat_word "packets"; counter_packets more

abbrev is_log_option : Tok → Bool
is_log_option (word w) =
    is_one_of ("prefix" ∷ "level" ∷ "flags" ∷ "group" ∷ "snaplen" ∷ "queue-threshold" ∷ []) w
is_log_option _ = false

abbrev is_value : Tok → Bool
is_value (str s) = true
is_value (word w) = true
is_value (num n) = true
is_value _ = false

-- The loop of `skip_log`.
unfoldable pub skip_options : ℕ → Parser (Unit {0})
unfolding bump
skip_options zero ts = no_fuel
skip_options (suc fuel) ts = elim (is_log_option (next ts)) [
  | true ↦
      bind (bump ts) λ _ ts1. bind (eat_if (is_value (next ts1)) ts1) λ _ ts2. skip_options fuel ts2
  | false ↦ ok tt ts
]

unfoldable pub skip_log : Parser (Unit {0})
unfolding skip_options
skip_log ts = skip_options (suc (length ts)) ts

abbrev pub ends_statement : Tok → Bool
ends_statement break = true
ends_statement eof = true
ends_statement (sym c) = c == b'}'
ends_statement _ = false

-- The loop over what follows `reject with`.
unfoldable pub drop_reason : Tokens → Tokens
drop_reason [] = []
drop_reason (t ∷ []) = t ∷ []
drop_reason (t ∷ u ∷ ts) = elim (ends_statement t.tok) [
  | true ↦ t ∷ u ∷ ts
  | false ↦ drop_reason (u ∷ ts)
]

unfoldable pub reason_arm : Bool → Parser (Unit {0})
unfolding drop_reason
reason_arm true ts = ok tt (drop_reason ts)
reason_arm false ts = ok tt ts
