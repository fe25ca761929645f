-- ===== src/Tests/Loading.antt =====
-- The loader of crates/policy on a small document, and the check of its assertion.
use fwdelta.Prelude.{
  ℕ, zero, suc, ◌≡◌, refl, true, length, min, List, [], ◌∷◌, some, none, get_elem?,
}
use fwdelta.Prelude.Text.{Text, cmp}
use fwdelta.Prelude.Strings.{codes, is_char_boundary}
use fwdelta.Ir.Intervals.{
  empty, union, coalesce, sort, clamp, retain, prefix, prefix_range, insert, coalesce_from,
}
use fwdelta.Engine.Bdd.TreeLib.{tree_lib}
use fwdelta.Engine.Header.{field_major, new}
use fwdelta.Engine.Accept.{analyse}
use fwdelta.Policy.Toml.{
  pos, View, integer, string, array, table, Document, document, malformed, TomlLib,
}
use fwdelta.Policy.Assertion.{
  isolation, Assertion, Policy, Result, ok, refused, panicked, located, at_line, toml_error,
  parse_addr,
}
use fwdelta.Policy.Assertion.Gives.{Gives}
use fwdelta.Nft.Parse
use fwdelta.Policy.Load.{parse, malformed_at}
use fwdelta.Policy.Load.Loaded.{IsLoaded}
use fwdelta.Policy.Load.Checked.{parse-IsLoaded}
use fwdelta.Policy.Eval.{Report, check}
use fwdelta.Policy.Eval.Meaning.{concerns}
use fwdelta.Policy.Eval.Outcomes.{Established}
use fwdelta.Pipeline.Policies.{loaded-check_exact}
use fwdelta.Tests.Engine.{no_names, sample_key}
use fwdelta.Tests.Parsing.{sample, chain_of, ruleset_of, rest_of, sample_ok, sample_chain}

-- The values of the document.
data Node : Type 0 where
  office_value zones_value name_value kind_value from_value proto_value port_value assertion_value
        asserts_value :
      Node

abbrev sample_view : Node → View Node
sample_view office_value = string (codes "10.1.0.0/16")
sample_view zones_value = table ((codes "office", office_value) ∷ [])
sample_view name_value = string (codes "no telnet")
sample_view kind_value = string (codes "isolation")
sample_view from_value = string (codes "office")
sample_view proto_value = string (codes "tcp")
sample_view port_value = integer (pos 23)
sample_view assertion_value = table (
    (codes "name", name_value)
    ∷ (codes "kind", kind_value)
    ∷ (codes "from", from_value)
    ∷ (codes "proto", proto_value)
    ∷ (codes "dport", port_value)
    ∷ [])
sample_view asserts_value = array (assertion_value ∷ [])

-- A library that reads one document from every text but the empty one.
abbrev sample_from_str : Text → Document Node
sample_from_str [] = malformed (codes "empty") (some 0)
sample_from_str (c ∷ cs) =
    document ((codes "zones", zones_value) ∷ (codes "assert", asserts_value) ∷ [])

sample_span :
    (source message : Text) (start : ℕ)
    → sample_from_str source ≡ malformed message (some start)
    → is_char_boundary source (min start (length source)) ≡ true
sample_span [] message zero h = refl
sample_span [] message (suc start) h = absurd (cc (h))
sample_span (c ∷ cs) message start h = absurd (cc (h))

abbrev sample_toml : TomlLib
sample_toml = record {
  Value = Node;
  view = sample_view;
  display = λ n. codes "23";
  from_str = sample_from_str;
  span_start = sample_span;
}

abbrev policy_in : Result Policy → Policy
policy_in (ok p) = p
policy_in _ = record { zones = []; assertions = [] }

abbrev sample_policy : Policy
sample_policy = policy_in (parse ⦃lib = sample_toml⦄ (codes "x"))

abbrev no_assertion : Assertion
no_assertion = record {
  name = [];
  kind = isolation;
  from = none;
  to = none;
  proto = none;
  sport = none;
  dport = none;
  iif = none;
  oif = none;
  chain = none;
  summary = [];
}

abbrev first_of : List Assertion → Assertion
first_of [] = no_assertion
first_of (a ∷ as') = a

abbrev telnet : Assertion
telnet = first_of sample_policy.assertions

sample_loads : parse ⦃lib = sample_toml⦄ (codes "x") ≡ ok sample_policy
unfolding parse cmp parse_addr union coalesce sort clamp retain prefix prefix_range insert
    coalesce_from
sample_loads = refl

telnet_there : get_elem? sample_policy.assertions 0 ≡ some telnet
unfolding parse cmp parse_addr union coalesce sort clamp retain prefix prefix_range insert
    coalesce_from
telnet_there = refl

-- A malformed document is refused at the line of its span, and a span that starts inside a character
-- panics.
malformed_test :
    malformed_at ⦃lib = sample_toml⦄ (codes "a\nb") (codes "bad") (some 3)
    ≡ refused (located (at_line 2) (toml_error (codes "bad")))
unfolding malformed_at
malformed_test = refl

slice_test : malformed_at ⦃lib = sample_toml⦄ (195 ∷ 169 ∷ []) (codes "bad") (some 1) ≡ panicked
unfolding malformed_at
slice_test = refl

parse-IsLoaded_example : Gives IsLoaded (parse ⦃lib = sample_toml⦄ (codes "x"))
parse-IsLoaded_example = parse-IsLoaded ⦃lib = sample_toml⦄ (codes "x")

loaded-check_exact_example :
    (rep : Report) × (check
        (new field_major)
        no_names
        sample_policy
        (analyse (new field_major) no_names sample_key (chain_of sample))
        (empty 32)
        telnet
      ≡ ok rep)
    × Established no_names
        (chain_of sample)
        (concerns no_names sample_policy telnet)
        telnet.kind
        rep.outcome
loaded-check_exact_example =
    loaded-check_exact ⦃lib = tree_lib⦄ ⦃toml = sample_toml⦄ field_major no_names sample_key []
      sample (codes "x") (ruleset_of (Parse.parse [] sample)) (rest_of (Parse.parse [] sample)) 0 0
      (chain_of sample) sample_policy telnet (empty 32) sample_ok sample_chain sample_loads
      telnet_there
