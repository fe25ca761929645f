-- ===== src/Tests/Parsing.antt =====
-- The parser of crates/nft on small files, and what follows for their chains.
use fwdelta.Prelude.{
  ℕ, ◌<◌, ◌^◌, ◌≡◌, refl, List, [], ◌∷◌, map, Option, some, none, arith, ◌&&◌, not, get_elem?,
}
use fwdelta.Prelude.Text.{Text, cmp}
use fwdelta.Prelude.Strings.{codes}
use fwdelta.Ir.Field.{is_interface, src_addr, dst_addr, src_port, dst_port, proto, if_in, if_out}
use fwdelta.Ir.Intervals.{
  Span, is_empty, intersect, union, coalesce, sort, clamp, retain, insert, coalesce_from,
  domain_max, complement, prefix, prefix_range, range, is_full,
}
use fwdelta.Ir.Rule.{
  Action, accept, drop, input, Rule, Chain, new_chain, Ruleset, constrain, is_unsatisfiable,
  dim_is_empty, packet_dim, push,
}
use fwdelta.Nft.Lex.{lex}
use fwdelta.Nft.Cursor.{bind, Parsed, ok, Tokens}
use fwdelta.Nft.Parse.{parse}
use fwdelta.Nft.Parse.Accepted.{IsSettled, parse-IsSettled}
use fwdelta.Engine.Header.{field_major, new}
use fwdelta.Engine.Header.Encode.{InRange, encode}
use fwdelta.Engine.Header.Matches.{Values}
use fwdelta.Engine.Accept.{analyse}
use fwdelta.Engine.Accept.Semantics.{permitted}
use fwdelta.Engine.Diff.{diff}
use fwdelta.Pipeline.Accepted.{parsed-delta_exact}
use fwdelta.Pipeline.Ports.{SameButPorts, parsed-ports_irrelevant}
use fwdelta.Engine.Bdd.TreeLib.{tree_lib}
use fwdelta.Tests.Engine.{knock, knock-InRange, no_names, sample_key}

abbrev pub sample : Text
sample =
    codes
      "table ip t {\n chain c {\n type filter hook input priority 0; policy drop;\n tcp dport { 80, 443-445 } accept; ip saddr != 10.0.0.0/8 drop\n }\n}\n"

abbrev rule_facts : Rule → ℕ × Action × List Span × List Span
rule_facts r = (r.number, r.action, r.matches.dst_port_set.ranges, r.matches.src_addr_set.ranges)

abbrev chain_facts : Chain → List (ℕ × Action × List Span × List Span)
chain_facts c = map rule_facts c.rules

abbrev facts : Parsed Ruleset → Option (List (List (ℕ × Action × List Span × List Span)))
facts (ok r ts) = some (map chain_facts r.chains)
facts _ = none

sample_parsed :
    facts (parse [] sample)
    ≡ some (
        ((1, accept, (80, 80) ∷ (443, 445) ∷ [], (0, 4294967295) ∷ [])
          ∷ (2, drop, (0, 65535) ∷ [], (0, 167772159) ∷ (184549376, 4294967295) ∷ [])
          ∷ [])
        ∷ [])
unfolding parse bind lex cmp constrain is_unsatisfiable is_interface dim_is_empty packet_dim
    is_empty intersect union coalesce sort clamp retain insert coalesce_from domain_max complement
    prefix prefix_range range push is_full
sample_parsed = refl

-- The same file without its first rule.
abbrev older : Text
older =
    codes
      "table ip t {\n chain c {\n type filter hook input priority 0; policy drop;\n ip saddr != 10.0.0.0/8 drop\n }\n}\n"

abbrev pub ruleset_of : Parsed Ruleset → Ruleset
ruleset_of (ok r ts) = r
ruleset_of _ = record { label = []; chains = [] }

abbrev pub rest_of : Parsed Ruleset → Tokens
rest_of (ok r ts) = ts
rest_of _ = []

abbrev first_of : List Chain → Chain
first_of (c ∷ cs) = c
first_of [] = new_chain [] input drop

abbrev pub chain_of : Text → Chain
chain_of text = first_of (ruleset_of (parse [] text)).chains

pub sample_ok : parse [] sample ≡ ok (ruleset_of (parse [] sample)) (rest_of (parse [] sample))
unfolding parse bind lex cmp is_unsatisfiable is_interface dim_is_empty packet_dim is_empty
    intersect union coalesce sort clamp retain insert coalesce_from domain_max complement prefix
    prefix_range range is_full constrain
sample_ok = refl

older_ok : parse [] older ≡ ok (ruleset_of (parse [] older)) (rest_of (parse [] older))
unfolding parse bind lex cmp is_unsatisfiable is_interface dim_is_empty packet_dim is_empty
    intersect union coalesce sort clamp retain insert coalesce_from domain_max complement prefix
    prefix_range range is_full constrain
older_ok = refl

pub sample_chain : get_elem? (ruleset_of (parse [] sample)).chains 0 ≡ some (chain_of sample)
unfolding parse bind lex cmp is_unsatisfiable is_interface dim_is_empty packet_dim is_empty
    intersect union coalesce sort clamp retain insert coalesce_from domain_max complement prefix
    prefix_range range is_full constrain
sample_chain = refl

older_chain : get_elem? (ruleset_of (parse [] older)).chains 0 ≡ some (chain_of older)
unfolding parse bind lex cmp is_unsatisfiable is_interface dim_is_empty packet_dim is_empty
    intersect union coalesce sort clamp retain insert coalesce_from domain_max complement prefix
    prefix_range range is_full constrain
older_chain = refl

parse-IsSettled_example : IsSettled (parse [] sample)
parse-IsSettled_example = parse-IsSettled [] sample

parsed-delta_exact_example :
    (tree_lib.eval
        (diff
          (analyse (new field_major) no_names sample_key (chain_of older))
          (analyse (new field_major) no_names sample_key (chain_of sample))).newly_allowed
        (encode field_major knock)
      ≡ (permitted no_names (chain_of sample) knock
          && not (permitted no_names (chain_of older) knock)))
    × (tree_lib.eval
          (diff
            (analyse (new field_major) no_names sample_key (chain_of older))
            (analyse (new field_major) no_names sample_key (chain_of sample))).newly_blocked
          (encode field_major knock)
        ≡ (permitted no_names (chain_of older) knock
            && not (permitted no_names (chain_of sample) knock)))
parsed-delta_exact_example =
    parsed-delta_exact field_major no_names sample_key [] older [] sample
      (ruleset_of (parse [] older)) (ruleset_of (parse [] sample)) (rest_of (parse [] older))
      (rest_of (parse [] sample)) 0 0 (chain_of older) (chain_of sample) knock older_ok sample_ok
      older_chain sample_chain knock-InRange

-- A ping, with the ports that the model gives it.
abbrev ping : ℕ → Values
ping port src_addr = 167772161
ping port dst_addr = 167772162
ping port src_port = 0
ping port dst_port = port
ping port proto = 1
ping port if_in = 0
ping port if_out = 0

ping-InRange : (port : ℕ) → port < 2 ^ 16 → InRange (ping port)
ping-InRange port h src_addr = omega arith
ping-InRange port h dst_addr = omega arith
ping-InRange port h src_port = omega arith
ping-InRange port h dst_port = h
ping-InRange port h proto = omega arith
ping-InRange port h if_in = omega arith
ping-InRange port h if_out = omega arith

pings : SameButPorts (ping 80) (ping 22)
pings = record {
  same_src = refl;
  same_dst = refl;
  same_proto = refl;
  same_in = refl;
  same_out = refl;
}

parsed-ports_irrelevant_example :
    permitted no_names (chain_of sample) (ping 80) ≡ permitted no_names (chain_of sample) (ping 22)
parsed-ports_irrelevant_example =
    parsed-ports_irrelevant [] sample (ruleset_of (parse [] sample)) (rest_of (parse [] sample)) 0
      (chain_of sample) no_names (ping 80) (ping 22) sample_ok sample_chain pings refl
      (ping-InRange 80 (omega arith)) (ping-InRange 22 (omega arith))
