-- ===== src/Engine/Diff.antt =====
-- crates/engine/src/diff.rs: the behavioural delta between two revisions of a chain.
pub mod Delta
pub mod Changes
use fwdelta.Prelude.{
  ℕ, suc, ◌+◌, Bool, true, false, ◌&&◌, ◌||◌, not, List, [], ◌∷◌, ◌++◌, map, Option, none, some,
  ◌==◌, ltb, leb, length, if◌then◌else◌,
}
use fwdelta.Prelude.Text.{Text}
use fwdelta.Engine.Bdd.{BddLib}
use fwdelta.Engine.Accept.{Decider, RuleModel, ChainModel, Cell}
use fwdelta.Engine.Accept
use fwdelta.Engine.Explain.{explain_shadow}
use fwdelta.Engine.Pairing.{
  Structural, now_unreachable, now_reachable, now_redundant, no_longer_redundant, added, removed,
  pair_rules, find_rule, in_place, sort_structural,
}

pub record Attribution (B : Type 0) : Type 0 where
  pub was : Decider
  pub now : Decider
  pub set : B

pub record ChainDiff (B : Type 0) : Type 0 where
  pub name : Text
  pub newly_allowed : B
  pub newly_blocked : B
  pub structural : List Structural

module _ ⦃lib : BddLib⦄ where
  open lib use {Bdd, and_not, is_false}

  -- What a pair reports of reachability.
  unfoldable pub reach_change :
      ChainModel Bdd → ChainModel Bdd → ℕ → ℕ → Bool → Bool → List Structural
  reach_change base head b h false true = now_unreachable h (explain_shadow head h) ∷ []
  reach_change base head b h true false = now_reachable h (explain_shadow base b) ∷ []
  reach_change base head b h _ _ = []

  -- What a pair of reachable rules reports of redundancy.
  unfoldable pub use_change : ℕ → Bool → Bool → List Structural
  use_change h false true = now_redundant h ∷ []
  use_change h true false = no_longer_redundant h ∷ []
  use_change h _ _ = []

  unfoldable pub pair_changes :
      ChainModel Bdd
      → ChainModel Bdd
      → ℕ
      → ℕ
      → Option (RuleModel Bdd)
      → Option (RuleModel Bdd)
      → List Structural
  unfolding reach_change use_change
  pair_changes base head b h (some bi) (some hi) =
      reach_change base head b h bi.shadowed hi.shadowed
      ++ (if not bi.shadowed && not hi.shadowed then use_change h bi.redundant hi.redundant else [])
  pair_changes base head b h _ _ = []

  unfoldable pub paired_changes : ChainModel Bdd → ChainModel Bdd → List (ℕ × ℕ) → List Structural
  unfolding pair_changes find_rule
  paired_changes base head [] = []
  paired_changes base head ((b, h) ∷ ps) =
      pair_changes base head b h (find_rule b base.rules) (find_rule h head.rules)
      ++ paired_changes base head ps

  unfoldable pub structural_changes : ChainModel Bdd → ChainModel Bdd → List Structural
  unfolding pair_rules paired_changes in_place sort_structural explain_shadow
  structural_changes base head =
      let (paired, gone, fresh) = pair_rules base head in
      let edits = in_place gone fresh in
      sort_structural (
        paired_changes base head paired
        ++ (edits.changed ++ (map removed edits.removed_left ++ map added edits.added_left)))

  unfoldable pub diff : ChainModel Bdd → ChainModel Bdd → ChainDiff Bdd
  unfolding structural_changes
  diff base head = record {
    name = head.name;
    newly_allowed = and_not head.accept base.accept;
    newly_blocked = and_not base.accept head.accept;
    structural = structural_changes base head;
  }

  unfoldable pub is_behaviourally_identical : ChainDiff Bdd → Bool
  is_behaviourally_identical d = is_false d.newly_allowed && is_false d.newly_blocked

  pub record Parts : Type 0 where
    pub out : List (Attribution Bdd)
    pub capped : Bool

  -- The inner loop of `attribute`: one push for each cell, until the cap is met.
  unfoldable pub attribute_inner :
      ℕ → Decider → List (Cell ⦃lib = lib⦄) → List (Attribution Bdd) → Parts
  attribute_inner cap was [] out = record { out = out; capped = false }
  attribute_inner cap was ((now, both) ∷ cells) out =
      let rest =
        attribute_inner cap was cells (out ++ record { was = was; now = now; set = both } ∷ []) in
      if leb cap (length out) then record { out = out; capped = true } else rest

  unfoldable pub attribute_outer :
      ChainModel Bdd → ℕ → List (Cell ⦃lib = lib⦄) → List (Attribution Bdd) → Parts
  unfolding attribute_inner
  attribute_outer head cap [] out = record { out = out; capped = false }
  attribute_outer head cap ((was, base_part) ∷ cells) out =
      let inner = attribute_inner cap was (Accept.attribute head base_part) out in
      let rest = attribute_outer head cap cells inner.out in if inner.capped then inner else rest

  unfoldable pub attribute : ChainModel Bdd → ChainModel Bdd → Bdd → ℕ → Parts
  unfolding attribute_outer
  attribute base head delta cap =
      let parts = attribute_outer head cap (Accept.attribute base delta) [] in
      if is_false delta then record { out = []; capped = false } else parts
