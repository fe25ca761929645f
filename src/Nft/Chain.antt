-- ===== src/Nft/Chain.antt =====
-- A chain of crates/nft/src/parse.rs: its declaration and its rules.
pub mod Accepts
use fwdelta.Prelude.{
  ℕ, zero, suc, ◌-◌, Bool, true, false, ◌&&◌, List, [], ◌∷◌, ◌++◌, Option, none, some, leb, ◌==◌,
  if◌then◌else◌, length, any, all,
}
use fwdelta.Prelude.Text.{Text}
use fwdelta.Prelude.Strings.{is_literal, is_one_of, trim}
use fwdelta.Ir.Field.{proto}
use fwdelta.Ir.Intervals.{IntervalSet, Span, is_full}
use fwdelta.Ir.Rule.{
  Action, accept, drop, Match, any_match, packet_dim, is_unsatisfiable, Origin, Hook, input, output,
  forward, Chain, new_chain, push, Ruleset,
}
use fwdelta.Nft.Token.{Tok, Token, word, str, num, break, eof, sym, is_eof}
use fwdelta.Nft.Error.{
  ParseError, syntax, out_of_scope, unimplemented, soundness, named_sets, no_verdict, never_matches,
  ports_without_protocol, unexpected_token, expected_table, expected_chain, unsupported_item,
  unsupported_declaration, unsupported_family, unknown_family, regular_chain, chain_type,
  unsupported_hook, unknown_hook, wrong_policy, nat_table, expected_hook, expected_priority,
  expected_priority_value, end_in_table, end_in_chain,
}
use fwdelta.Nft.Scan.{Lexed, done, failed, no_fuel}
use fwdelta.Nft.Lex.{lex}
use fwdelta.Nft.Cursor.{
  Tokens, Parser, Parsed, Place, bind, ◌>>=◌, ◌>>◌, pure, next, peek, at, bump, eat_sym, eat_word,
  skip_breaks, source_line, err, err_at, expect_word, expect_sym,
}
use fwdelta.Nft.Cursor
use fwdelta.Nft.Statement.{RuleState, statement_of, statement}
use fwdelta.Nft.Rule.{ParsedRule, rule}

module _ (file src : Text) where
  -- The loop over the rules of a chain.
  unfoldable pub rules_loop : ℕ → Chain → Parser Chain
  unfolding skip_breaks eat_sym err rule
  rules_loop zero c ts = Parsed.no_fuel
  rules_loop (suc fuel) c ts = bind (skip_breaks ts) λ _ ts1. bind (eat_sym b'}' ts1) λ closed ts2.
      elim closed [
        | true ↦ pure c ts2
        | false ↦ elim (is_eof (next ts2)) [
          | true ↦ err file src syntax end_in_chain ts2
          | false ↦
              bind (rule file src c.hook ts2) λ r ts3. rules_loop fuel (push c r.0 r.1 r.2) ts3
        ]
      ]

  unfoldable pub chain_type_of : Place → Text → Parser (Unit {0})
  unfolding err_at
  chain_type_of start kind =
      if is_literal "filter" kind
      then pure tt
      else if is_literal "nat" kind
      then err_at file src start out_of_scope nat_table
      else err_at file src start out_of_scope (chain_type kind)

  unfoldable pub hook_of : Place → Text → Parser Hook
  unfolding err_at
  hook_of start name =
      if is_literal "input" name
      then pure input
      else if is_literal "output" name
      then pure output
      else if is_literal "forward" name
      then pure forward
      else if is_one_of ("prerouting" ∷ "postrouting" ∷ []) name
      then err_at file src start out_of_scope (unsupported_hook name)
      else err_at file src start syntax (unknown_hook name)

  unfoldable pub policy_of : Place → Text → Parser Action
  unfolding err_at
  policy_of start v =
      if is_literal "accept" v
      then pure accept
      else if is_literal "drop" v
      then pure drop
      else err_at file src start syntax (wrong_policy v)

  -- A word that has to be there, and what is done where one is.
  abbrev pub required : Bool → Parser (Unit {0}) → Parser (Unit {0})
  required true refuse = pure tt
  required false refuse = refuse

  abbrev pub optional : Bool → Parser (Unit {0}) → Parser (Unit {0})
  optional true take = take
  optional false take = pure tt

  unfoldable pub priority_value : Tok → Parser (Unit {0})
  unfolding bump err
  priority_value (num n) = do bump; pure tt
  priority_value (word w) = do bump; pure tt
  priority_value _ = err file src syntax expected_priority_value

  unfoldable pub chain_policy : Bool → Parser Action
  unfolding expect_word policy_of skip_breaks
  chain_policy true = do
    start ← at
    v ← expect_word file src
    policy ← policy_of start v
    skip_breaks
    pure policy
  chain_policy false = pure accept

  -- The declaration of a base chain, down to its policy.
  unfoldable pub chain_header : Parser Chain
  unfolding expect_word expect_sym skip_breaks eat_word err_at err chain_type_of hook_of bump
      eat_sym priority_value chain_policy
  chain_header = do
    name_place ← at
    name ← expect_word file src
    expect_sym file src b'{'
    skip_breaks
    typed ← eat_word "type"
    required typed (err_at file src name_place out_of_scope (regular_chain name))
    type_place ← at
    kind ← expect_word file src
    chain_type_of type_place kind
    hooked ← eat_word "hook"
    required hooked (err file src syntax expected_hook)
    hook_place ← at
    hook_name ← expect_word file src
    hook ← hook_of hook_place hook_name
    on_device ← eat_word "device"
    optional on_device (do bump; pure tt)
    has_priority ← eat_word "priority"
    required has_priority (err file src syntax expected_priority)
    eat_sym b'-'
    found ← peek
    priority_value found
    skip_breaks
    has_policy ← eat_word "policy"
    policy ← chain_policy has_policy
    pure (new_chain name hook policy)

  unfoldable pub chain : Parser Chain
  unfolding chain_header rules_loop
  chain ts = bind (chain_header ts) λ c ts'. rules_loop (suc (length ts')) c ts'
