-- ===== src/Policy/Eval.antt =====
-- crates/policy/src/eval.rs: the check of an assertion against a chain's model.
pub mod Outcomes
pub mod Meaning
pub mod Endpoints
pub mod Narrowed
pub mod Compiled
pub mod Sound
use fwdelta.Prelude.{
  ℕ, Bool, true, false, not, List, [], ◌∷◌, ◌++◌, Option, none, some, if◌then◌else◌,
}
use fwdelta.Prelude.Text.{Text, text_eq}
use fwdelta.Ir.Field.{Field, src_addr, dst_addr, src_port, dst_port, proto}
use fwdelta.Ir.Intervals.{IntervalSet, union, intersect, is_empty, is_full, empty}
use fwdelta.Ir.Interface.{SymbolTable}
use fwdelta.Ir.Rule.{
  Match, any_match, packet_dim, constrain, with_iif, with_oif, Rule, Chain, Ruleset,
}
use fwdelta.Engine.Bdd.{BddLib}
use fwdelta.Engine.Header.{Layout, match_bdd}
use fwdelta.Engine.Packet.{Packet, witness}
use fwdelta.Engine.Accept.{ChainModel}
use fwdelta.Policy.Assertion.{
  Kind, isolation, reachability, Endpoint, Assertion, iif_match, oif_match, Policy, no_chain,
  located, in_assertion, Result, ok, refused, panicked, and_then, resolve,
}

-- An endpoint with its side.
pub data Side : Type 0 where
  from_side to_side : Side

abbrev pub Named : Type 0
Named = Side × Endpoint

-- Why an assertion establishes nothing; the hint names the endpoints that no rule mentions.
pub data Reason : Type 0 where
  contradiction : Reason
  policy_only : Text → List Named → Reason

pub data Outcome : Type 0 where
  pass : Outcome
  fail : Packet → Outcome
  vacuous : Reason → Outcome

pub record Report : Type 0 where
  pub name : Text
  pub kind : Kind
  pub summary : Text
  pub outcome : Outcome
  pub chain : Text

-- One dimension of one rule in `Mentioned::of`. The two address dimensions never panic.
unfoldable pub mention : Match → Field → IntervalSet → IntervalSet
mention m f addresses = elim (packet_dim m f) [
  | none ↦ addresses
  | some s ↦ if is_full s then addresses else union addresses s
]

unfoldable pub mention_rules : List Rule → IntervalSet → IntervalSet
unfolding mention
mention_rules [] addresses = addresses
mention_rules (r ∷ rs) addresses =
    mention_rules rs (mention r.matches dst_addr (mention r.matches src_addr addresses))

unfoldable pub mention_chains : List Chain → IntervalSet → IntervalSet
unfolding mention_rules
mention_chains [] addresses = addresses
mention_chains (c ∷ cs) addresses = mention_chains cs (mention_rules c.rules addresses)

unfoldable pub mention_rulesets : List Ruleset → IntervalSet → IntervalSet
unfolding mention_chains
mention_rulesets [] addresses = addresses
mention_rulesets (r ∷ rs) addresses = mention_rulesets rs (mention_chains r.chains addresses)

-- `Mentioned::of`
unfoldable pub mentioned_of : List Ruleset → IntervalSet
unfolding mention_rulesets
mentioned_of rulesets = mention_rulesets rulesets (empty 32)

unfoldable pub covers : IntervalSet → IntervalSet → Bool
covers mentioned set = not (is_empty (intersect mentioned set))

-- `m = m.constrain(f, s)`
unfoldable pub narrow : Match → Field → IntervalSet → Result Match
narrow m f s = elim (constrain m f s) [ none ↦ panicked | some m' ↦ ok m' ]

-- The same under `if let Some`, for an endpoint and for a set.
unfoldable pub narrow_endpoint : Policy → Field → Option Endpoint → Match → Result Match
unfolding narrow
narrow_endpoint p f none m = ok m
narrow_endpoint p f (some e) m = and_then (resolve p e) (narrow m f)

unfoldable pub narrow_set : Field → Option IntervalSet → Match → Result Match
unfolding narrow
narrow_set f none m = ok m
narrow_set f (some s) m = narrow m f s

-- The match that `assertion_set` builds.
unfoldable pub assertion_match : Policy → Assertion → Result Match
unfolding narrow_endpoint narrow_set
assertion_match p a = and_then (narrow_endpoint p src_addr a.from any_match) (λ m1.
    and_then (narrow_endpoint p dst_addr a.to m1) (λ m2.
      and_then (narrow_set proto a.proto m2) (λ m3. and_then (narrow_set src_port a.sport m3) (λ m4.
        and_then (narrow_set dst_port a.dport m4)
          (λ m5. ok (with_oif (with_iif m5 (iif_match a)) (oif_match a)))))))

-- One side in `unmentioned_endpoint`.
unfoldable pub unmentioned :
    Policy → IntervalSet → Side → Option Endpoint → List Named → Result (List Named)
unfolding covers
unmentioned p mentioned side none found = ok found
unmentioned p mentioned side (some e) found =
    and_then (resolve p e) (λ s. ok (if covers mentioned s then found else found ++ (side, e) ∷ []))

unfoldable pub unmentioned_endpoint : Policy → Assertion → IntervalSet → Result (List Named)
unfolding unmentioned
unmentioned_endpoint p a mentioned =
    and_then (unmentioned p mentioned from_side a.from []) (unmentioned p mentioned to_side a.to)

unfoldable pub chains_named : {B : Type 0} → Text → List (ChainModel B) → List (ChainModel B)
chains_named n [] = []
chains_named n (m ∷ ms) =
    let rest = chains_named n ms in if text_eq m.name n then m ∷ rest else rest

unfoldable pub targets : {B : Type 0} → Option Text → List (ChainModel B) → List (ChainModel B)
unfolding chains_named
targets none models = models
targets (some n) models = chains_named n models

-- `unwrap_or_default`
abbrev or_default : Option Text → Text
or_default none = []
or_default (some n) = n

module _ ⦃lib : BddLib⦄ where
  open lib use {Bdd, and, and_not, is_false}

  unfoldable pub assertion_set : Layout → SymbolTable → Policy → Assertion → Result Bdd
  unfolding assertion_match
  assertion_set l t p a = and_then (assertion_match p a) (λ m. ok (match_bdd l m t))

  -- What must be empty.
  unfoldable pub offending : Kind → Bdd → Bdd → Bdd
  offending isolation set accept = and set accept
  offending reachability set accept = and_not set accept

  unfoldable pub verdict : Option Packet → Outcome
  verdict none = pass
  verdict (some p) = fail p

  -- The three branches of `check`; `hint` is what the second one may refuse.
  unfoldable pub outcome_of :
      Layout → ChainModel Bdd → Kind → Result (List Named) → Bdd → Result Outcome
  unfolding offending verdict witness
  outcome_of l model kind hint set = elim (is_false set) [
    | true ↦ ok (vacuous contradiction)
    | false ↦ elim (is_false (and set model.matched_any)) [
      | true ↦ and_then hint (λ found. ok (vacuous (policy_only model.name found)))
      | false ↦ ok (verdict (witness l (offending kind set model.accept)))
    ]
  ]

  unfoldable pub check :
      Layout → SymbolTable → Policy → ChainModel Bdd → IntervalSet → Assertion → Result Report
  unfolding assertion_set outcome_of unmentioned_endpoint
  check l t p model mentioned a = and_then (assertion_set l t p a) (λ set.
      and_then (outcome_of l model a.kind (unmentioned_endpoint p a mentioned) set) (λ o.
        ok (record {
          name = a.name;
          kind = a.kind;
          summary = a.summary;
          outcome = o;
          chain = model.name;
        })))

  -- The loops of `evaluate`, on the reports so far.
  unfoldable pub check_targets :
      Layout
      → SymbolTable
      → Policy
      → IntervalSet
      → Assertion
      → List (ChainModel Bdd)
      → List Report
      → Result (List Report)
  unfolding check
  check_targets l t p mentioned a [] out = ok out
  check_targets l t p mentioned a (m ∷ ms) out =
      and_then (check l t p m mentioned a) (λ r. check_targets l t p mentioned a ms (out ++ r ∷ []))

  -- The test that there is a target.
  unfoldable pub some_targets : Assertion → List (ChainModel Bdd) → Result (List (ChainModel Bdd))
  some_targets a (m ∷ ms) = ok (m ∷ ms)
  some_targets a [] = refused (located (in_assertion a.name) (no_chain (or_default a.chain)))

  unfoldable pub check_assertions :
      Layout
      → SymbolTable
      → Policy
      → List (ChainModel Bdd)
      → IntervalSet
      → List Assertion
      → List Report
      → Result (List Report)
  unfolding check_targets some_targets targets
  check_assertions l t p models mentioned [] out = ok out
  check_assertions l t p models mentioned (a ∷ rest) out =
      and_then (some_targets a (targets a.chain models)) (λ ms.
        and_then (check_targets l t p mentioned a ms out)
          (check_assertions l t p models mentioned rest))

  unfoldable pub evaluate :
      Layout → SymbolTable → Policy → List (ChainModel Bdd) → IntervalSet → Result (List Report)
  unfolding check_assertions
  evaluate l t p models mentioned = check_assertions l t p models mentioned p.assertions []
