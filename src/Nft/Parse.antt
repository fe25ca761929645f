-- ===== src/Nft/Parse.antt =====
-- Tables and files in crates/nft/src/parse.rs.
pub mod Accepted
use fwdelta.Prelude.{
  ℕ, zero, suc, ◌-◌, Bool, true, false, ◌&&◌, List, [], ◌∷◌, ◌++◌, Option, none, some, leb, ◌==◌,
  if◌then◌else◌, length, any, all,
}
use fwdelta.Prelude.Text.{Text}
use fwdelta.Prelude.Strings.{is_literal, is_one_of, trim}
use fwdelta.Ir.Field.{proto}
use fwdelta.Ir.Intervals.{IntervalSet, Span, is_full}
use fwdelta.Ir.Rule.{
  Action, accept, drop, Match, any_match, packet_dim, is_unsatisfiable, Origin, Hook, input, output,
  forward, Chain, new_chain, push, Ruleset,
}
use fwdelta.Nft.Token.{Tok, Token, word, str, num, break, eof, sym, is_eof}
use fwdelta.Nft.Error.{
  ParseError, syntax, out_of_scope, unimplemented, soundness, named_sets, no_verdict, never_matches,
  ports_without_protocol, unexpected_token, expected_table, expected_chain, unsupported_item,
  unsupported_declaration, unsupported_family, unknown_family, regular_chain, chain_type,
  unsupported_hook, unknown_hook, wrong_policy, nat_table, expected_hook, expected_priority,
  expected_priority_value, end_in_table, end_in_chain,
}
use fwdelta.Nft.Scan.{Lexed, done, failed, no_fuel}
use fwdelta.Nft.Lex.{lex}
use fwdelta.Nft.Cursor.{
  Tokens, Parser, Parsed, Place, bind, ◌>>=◌, ◌>>◌, pure, next, peek, at, bump, eat_sym, eat_word,
  skip_breaks, source_line, err, err_at, expect_word, expect_sym,
}
use fwdelta.Nft.Cursor
use fwdelta.Nft.Statement.{RuleState, statement_of, statement}
use fwdelta.Nft.Chain.{chain}

module _ (file src : Text) where
  unfoldable pub family_of : Place → Text → Parser (Unit {0})
  unfolding err_at
  family_of start family =
      if is_literal "ip" family
      then pure tt
      else if is_one_of ("ip6" ∷ "inet" ∷ "arp" ∷ "bridge" ∷ "netdev" ∷ []) family
      then err_at file src start out_of_scope (unsupported_family family)
      else err_at file src start syntax (unknown_family family)

  -- The item of a table that starts with the token `found`.
  unfoldable pub table_item : Place → Tok → Parser Chain
  unfolding chain err_at err
  table_item start (word w) =
      if is_literal "chain" w
      then chain file src
      else if is_one_of ("set" ∷ "map" ∷ "element" ∷ "counter" ∷ "quota" ∷ []) w
      then err_at file src start unimplemented (unsupported_declaration w)
      else err_at file src start syntax (expected_chain (word w))
  table_item start eof = err file src syntax end_in_table
  table_item start found = err_at file src start syntax (expected_chain found)

  unfoldable pub chains_loop : ℕ → List Chain → Parser (List Chain)
  unfolding skip_breaks eat_sym bump table_item
  chains_loop zero chains ts = Parsed.no_fuel
  chains_loop (suc fuel) chains ts = bind (skip_breaks ts) λ _ ts1.
      bind (eat_sym b'}' ts1) λ closed ts2. elim closed [
        | true ↦ pure chains ts2
        | false ↦ bind (bump ts2) λ found ts3.
            bind (table_item (Cursor.place ts2) found ts3) λ c. chains_loop fuel (chains ++ c ∷ [])
      ]

  unfoldable pub table : Parser (List Chain)
  unfolding expect_word family_of expect_sym chains_loop
  table = do
    start ← at
    family ← expect_word file src
    family_of start family
    expect_word file src
    expect_sym file src b'{'
    λ ts. chains_loop (suc (length ts)) [] ts

  -- An item of a file.
  unfoldable pub file_item : Place → Tok → Parser (List Chain)
  unfolding table err_at
  file_item start (word w) =
      if is_literal "table" w
      then table
      else if is_one_of ("include" ∷ "define" ∷ "set" ∷ "map" ∷ "element" ∷ []) w
      then err_at file src start unimplemented (unsupported_item w)
      else err_at file src start syntax (expected_table (word w))
  file_item start found = err_at file src start syntax (expected_table found)

  unfoldable pub tables_loop : ℕ → List Chain → Parser (List Chain)
  unfolding bump file_item skip_breaks
  tables_loop zero chains ts = Parsed.no_fuel
  tables_loop (suc fuel) chains ts = elim (is_eof (next ts)) [
    | true ↦ pure chains ts
    | false ↦ bind (bump ts) λ found ts1.
        bind (file_item (Cursor.place ts) found ts1)
          λ more ts2. bind (skip_breaks ts2) λ _ ts3. tables_loop fuel (chains ++ more) ts3
  ]

  -- `Parser::parse`
  unfoldable pub parse_tokens : Parser Ruleset
  unfolding skip_breaks tables_loop
  parse_tokens ts = bind (skip_breaks ts) λ _ ts1.
      bind (tables_loop (suc (length ts1)) [] ts1)
        λ chains. pure (record { label = file; chains = chains })

  -- `Parser::new`: the tokens, or the tokeniser's error with its line of the source.
  unfoldable pub parse_lexed : Lexed (List Token) → Parsed Ruleset
  unfolding parse_tokens source_line
  parse_lexed (done ts lx) = parse_tokens ts
  parse_lexed (failed e) = Parsed.failed (record e { snippet = source_line src e.line })
  parse_lexed no_fuel = Parsed.no_fuel

-- `parse`
unfoldable pub parse : Text → Text → Parsed Ruleset
unfolding parse_lexed
parse file src = parse_lexed file src (lex file src)
