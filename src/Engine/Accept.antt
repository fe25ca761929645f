-- ===== src/Engine/Accept.antt =====
-- crates/engine/src/accept.rs: first-match evaluation as set algebra.
pub mod Semantics
pub mod ForwardPass
pub mod BackwardPass
pub mod Stages
pub mod Cells
pub mod Exact
pub mod SelfCheck
pub mod Packets
use fwdelta.Prelude.{
  ℕ, Bool, true, false, ◌&&◌, ◌||◌, not, List, [], ◌∷◌, ◌++◌, Option, none, some, ◌==◌,
  if◌then◌else◌,
}
use fwdelta.Prelude.Text.{Text}
use fwdelta.Ir.Interface.{SymbolTable}
use fwdelta.Ir.Rule.{Action, permits, Match, Rule, Hook, Chain}
use fwdelta.Engine.Bdd.{BddLib}
use fwdelta.Engine.Header.{Layout, match_bdd}

-- A rule, by its number, or the chain's policy.
pub data Decider : Type 0 where
  rule : ℕ → Decider
  policy : Decider

-- `RuleModel`, over the type of diagrams.
pub record RuleModel (B : Type 0) : Type 0 where
  pub number : ℕ
  pub action : Action
  pub content_key : ℕ
  pub matched : B
  pub effective : B
  pub shadowed : Bool
  pub redundant : Bool

pub record ChainModel (B : Type 0) : Type 0 where
  pub name : Text
  pub hook : Hook
  pub chain_policy : Action
  pub accept : B
  pub matched_any : B
  pub fallthrough : B
  pub rules : List (RuleModel B)

-- The standard library's hash of a predicate and an action.
abbrev pub ContentKey : Type 0
ContentKey = Match → Action → ℕ

-- What the forward pass leaves.
pub record Forward (B : Type 0) : Type 0 where
  pub models : List (RuleModel B)
  pub covered : B

-- What the backward pass leaves.
pub record Backward (B : Type 0) : Type 0 where
  pub models : List (RuleModel B)
  pub suffix : B

module _ ⦃lib : BddLib⦄ where
  open lib use {Bdd, mk_true, mk_false, and, or, and_not, complement, is_true, is_false, same}

  -- One round of the forward pass: the rule's model, before the backward pass.
  unfoldable pub forward_model :
      Layout → SymbolTable → ContentKey → Rule → Bdd → Bool → RuleModel Bdd
  forward_model l t key r matched_any saturated =
      let m = match_bdd l r.matches t in
      let effective = if saturated then mk_false else and_not m matched_any in
      record {
        number = r.number;
        action = r.action;
        content_key = key r.matches r.action;
        matched = m;
        effective = effective;
        shadowed = is_false effective;
        redundant = false;
      }

  -- What one round adds to the union of the match sets.
  unfoldable pub cover : Layout → SymbolTable → Rule → Bdd → Bool → Bdd
  cover l t r matched_any saturated =
      if saturated then matched_any else or matched_any (match_bdd l r.matches t)

  unfoldable pub forward : Layout → SymbolTable → ContentKey → List Rule → Bdd → Bool → Forward Bdd
  unfolding forward_model cover
  forward l t key [] matched_any saturated = record { models = []; covered = matched_any }
  forward l t key (r ∷ rs) matched_any saturated =
      let matched' = cover l t r matched_any saturated in
      let saturated' = if saturated then true else is_true matched' in
      let rest = forward l t key rs matched' saturated' in
      record {
        models = forward_model l t key r matched_any saturated ∷ rest.models;
        covered = rest.covered;
      }

  -- The redundancy test of one rule against the accept set of the rules after it.
  unfoldable pub is_redundant : RuleModel Bdd → Bdd → Bool
  is_redundant r suffix =
      if permits r.action
      then is_false (and_not r.effective suffix)
      else is_false (and r.effective suffix)

  unfoldable pub extend : RuleModel Bdd → Bdd → Bdd
  extend r suffix =
      if permits r.action then or r.matched suffix else and (complement r.matched) suffix

  -- The backward pass, from the last rule to the first.
  unfoldable pub backward : List (RuleModel Bdd) → Bdd → Backward Bdd
  unfolding is_redundant extend
  backward [] suffix = record { models = []; suffix = suffix }
  backward (r ∷ rs) suffix =
      let rest = backward rs suffix in
      record {
        models = record r { redundant = is_redundant r rest.suffix } ∷ rest.models;
        suffix = extend r rest.suffix;
      }

  unfoldable pub analyse : Layout → SymbolTable → ContentKey → Chain → ChainModel Bdd
  unfolding forward backward
  analyse l t key c =
      let fwd = forward l t key c.rules mk_false false in
      let bwd = backward fwd.models (if permits c.policy then mk_true else mk_false) in
      record {
        name = c.name;
        hook = c.hook;
        chain_policy = c.policy;
        accept = bwd.suffix;
        matched_any = fwd.covered;
        fallthrough = complement fwd.covered;
        rules = bwd.models;
      }

  abbrev pub Cell : Type 0
  Cell = Decider × Bdd

  -- `out.push`, unless the part is empty.
  unfoldable pub push_part : Decider → Bdd → List Cell → List Cell
  push_part d part out = if is_false part then out else (d, part) ∷ out

  -- The loop of `ChainModel::attribute`, with the policy's part at the end.
  unfoldable pub attribute_rules : List (RuleModel Bdd) → Bdd → List Cell → List Cell
  unfolding push_part
  attribute_rules [] set last = last
  attribute_rules (r ∷ rs) set last =
      let rest = attribute_rules rs set last in
      if r.shadowed then rest else push_part (rule r.number) (and set r.effective) rest

  unfoldable pub attribute : ChainModel Bdd → Bdd → List Cell
  unfolding attribute_rules
  attribute m set = attribute_rules m.rules set (push_part policy (and set m.fallthrough) [])

  -- The loop of `forward_accept`.
  unfoldable pub accept_rules : List (RuleModel Bdd) → Bdd → Bdd
  accept_rules [] acc = acc
  accept_rules (r ∷ rs) acc = accept_rules rs (if permits r.action then or acc r.effective else acc)

  unfoldable pub forward_accept : ChainModel Bdd → Bdd
  unfolding accept_rules
  forward_accept m =
      let acc = accept_rules m.rules mk_false in
      if permits m.chain_policy then or acc m.fallthrough else acc

  -- The loop of `partition_holds`: the union of the effective sets, or `none` at an overlap.
  unfoldable pub disjoint_union : List (RuleModel Bdd) → Bdd → Option Bdd
  disjoint_union [] union = some union
  disjoint_union (r ∷ rs) union =
      let rest = disjoint_union rs (or union r.effective) in
      if is_false (and union r.effective) then rest else none

  -- The two tests after the loop.
  unfoldable pub covers_rest : ChainModel Bdd → Option Bdd → Bool
  covers_rest m none = false
  covers_rest m (some union) =
      if is_false (and union m.fallthrough) then is_true (or union m.fallthrough) else false

  unfoldable pub partition_holds : ChainModel Bdd → Bool
  unfolding disjoint_union covers_rest
  partition_holds m = covers_rest m (disjoint_union m.rules mk_false)

  pub data Verified : Type 0 where
    ok no_partition accepts_disagree : Verified

  unfoldable pub verify : ChainModel Bdd → Verified
  unfolding partition_holds forward_accept
  verify m =
      if partition_holds m
      then (if same (forward_accept m) m.accept then ok else accepts_disagree)
      else no_partition
