-- ===== src/Nft/Rule.antt =====
-- A rule of crates/nft/src/parse.rs: the loop over its statements and the soundness checks.
pub mod Transport
pub mod Accepts
use fwdelta.Prelude.{
  ℕ, zero, suc, ◌-◌, Bool, true, false, ◌&&◌, List, [], ◌∷◌, ◌++◌, Option, none, some, leb, ◌==◌,
  if◌then◌else◌, length, any, all,
}
use fwdelta.Prelude.Text.{Text}
use fwdelta.Prelude.Strings.{is_literal, is_one_of, trim}
use fwdelta.Ir.Field.{proto}
use fwdelta.Ir.Intervals.{IntervalSet, Span, is_full}
use fwdelta.Ir.Rule.{
  Action, accept, drop, Match, any_match, packet_dim, is_unsatisfiable, Origin, Hook, input, output,
  forward, Chain, new_chain, push, Ruleset,
}
use fwdelta.Nft.Token.{Tok, Token, word, str, num, break, eof, sym, is_eof}
use fwdelta.Nft.Error.{
  ParseError, syntax, out_of_scope, unimplemented, soundness, named_sets, no_verdict, never_matches,
  ports_without_protocol, unexpected_token, expected_table, expected_chain, unsupported_item,
  unsupported_declaration, unsupported_family, unknown_family, regular_chain, chain_type,
  unsupported_hook, unknown_hook, wrong_policy, nat_table, expected_hook, expected_priority,
  expected_priority_value, end_in_table, end_in_chain,
}
use fwdelta.Nft.Scan.{Lexed, done, failed, no_fuel}
use fwdelta.Nft.Lex.{lex}
use fwdelta.Nft.Cursor.{
  Tokens, Parser, Parsed, Place, bind, ◌>>=◌, ◌>>◌, pure, next, peek, at, bump, eat_sym, eat_word,
  skip_breaks, source_line, err, err_at, expect_word, expect_sym,
}
use fwdelta.Nft.Cursor
use fwdelta.Nft.Statement.{RuleState, statement_of, statement}

-- What `rule` returns.
abbrev pub ParsedRule : Type 0
ParsedRule = Match × Action × Origin

-- `PORT_BEARING`
abbrev pub port_bearing : ℕ → Bool
port_bearing p = any (λ q. q == p) (6 ∷ 17 ∷ 132 ∷ [])

-- `(lo..=hi).all(..)`, over `n` numbers.
unfoldable pub all_from : ℕ → ℕ → (ℕ → Bool) → Bool
all_from zero lo p = true
all_from (suc n) lo p = p lo && all_from n (suc lo) p

unfoldable pub all_in : Span → (ℕ → Bool) → Bool
unfolding all_from
all_in (lo, hi) p = all_from (suc hi - lo) lo p

unfoldable pub all_port_bearing : IntervalSet → Bool
unfolding all_in
all_port_bearing s = if is_full s then false else all (λ r. all_in r port_bearing) s.ranges

-- The state at the start of a rule.
abbrev pub start_state : RuleState
start_state = record { matches = any_match; action = none; ports = false }

module _ (file src : Text) where
  -- The test of the protocols; `packet_dim` panics on no packet dimension.
  unfoldable pub check_ports : Place → Option IntervalSet → Parser (Unit {0})
  unfolding all_port_bearing err_at
  check_ports start none ts = Parsed.panicked
  check_ports start (some s) ts =
      (if all_port_bearing s
          then pure tt
          else err_at file src start soundness ports_without_protocol)
        ts

  unfoldable pub check_soundness : Match → Bool → Place → Parser (Unit {0})
  unfolding check_ports err_at
  check_soundness m ports start =
      if is_unsatisfiable m
      then err_at file src start soundness never_matches
      else if ports
      then check_ports start (packet_dim m proto)
      else pure tt

  -- One round of the loop of `rule`, with what the rounds after it do.
  unfoldable pub rule_step :
      (RuleState → Parser RuleState) → Hook → RuleState → Tok → Parser RuleState
  unfolding bump statement statement_of err
  rule_step go hook st break = pure st
  rule_step go hook st eof = pure st
  rule_step go hook st (word w) = do
    start ← at
    bump
    st' ← statement file src hook start w (statement_of w) st
    go st'
  rule_step go hook st (sym c) =
      if c == b'}'
      then pure st
      else if c == b'@'
      then err file src unimplemented named_sets
      else err file src syntax (unexpected_token (sym c))
  rule_step go hook st found = err file src syntax (unexpected_token found)

  unfoldable pub rule_loop : ℕ → Hook → RuleState → Parser RuleState
  unfolding rule_step
  rule_loop zero hook st ts = Parsed.no_fuel
  rule_loop (suc fuel) hook st ts = rule_step (rule_loop fuel hook) hook st (next ts) ts

  abbrev origin_at : Place → Origin
  origin_at (line, column) = record {
    file = file;
    line = line;
    column = column;
    text = trim (source_line src line);
  }

  -- What `rule` does behind its loop.
  unfoldable pub finish_rule : Place → RuleState → Option Action → Parser ParsedRule
  unfolding check_soundness err_at trim source_line
  finish_rule start st none = err_at file src start out_of_scope no_verdict
  finish_rule start st (some a) = do
    check_soundness st.matches st.ports start
    pure (st.matches, a, origin_at start)

  unfoldable pub rule : Hook → Parser ParsedRule
  unfolding rule_loop finish_rule
  rule hook ts =
      bind (rule_loop (suc (length ts)) hook start_state ts)
        λ st. finish_rule (Cursor.place ts) st st.action
