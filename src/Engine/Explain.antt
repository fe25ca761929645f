-- ===== src/Engine/Explain.antt =====
-- `ChainModel::explain_shadow` of crates/engine/src/accept.rs: which earlier rules cover a rule.
use fwdelta.Prelude.{ℕ, List, [], ◌∷◌, Option, none, some, ◌==◌, if◌then◌else◌}
use fwdelta.Engine.Bdd.{BddLib}
use fwdelta.Engine.Accept.{RuleModel, ChainModel}

-- The rules before one, and that one.
abbrev pub Split : Type 0 → Type 0
Split B = List (RuleModel B) × RuleModel B

abbrev pub behind : {B : Type 0} → RuleModel B → Option (Split B) → Option (Split B)
behind r none = none
behind r (some (before, m)) = some (r ∷ before, m)

-- The first rule with the number, and the slice before it.
unfoldable pub split_at : {B : Type 0} → ℕ → List (RuleModel B) → Option (Split B)
split_at number [] = none
split_at number (r ∷ rs) =
    if r.number == number then some ([], r) else behind r (split_at number rs)

module _ ⦃lib : BddLib⦄ where
  open lib use {Bdd, and, or, and_not, is_false}

  -- The first earlier rule that covers the target alone.
  unfoldable pub single_cover : Bdd → List (RuleModel Bdd) → Option ℕ
  single_cover target [] = none
  single_cover target (e ∷ es) =
      if is_false (and_not target e.matched) then some e.number else single_cover target es

  -- The shortest prefix that covers the target, without its rules that do not overlap it.
  unfoldable pub contributors : Bdd → Bdd → List (RuleModel Bdd) → List ℕ
  contributors target acc [] = []
  contributors target acc (e ∷ es) =
      let skipped = contributors target acc es in
      let acc' = or acc e.matched in
      let rest = contributors target acc' es in
      if is_false (and target e.matched)
      then skipped
      else e.number ∷ (if is_false (and_not target acc') then [] else rest)

  unfoldable pub explain_rule : Split Bdd → List ℕ
  unfolding single_cover contributors
  explain_rule (before, r) =
      if is_false r.matched then [] else elim (single_cover r.matched before) [
        | some n ↦ n ∷ []
        | none ↦ contributors r.matched (and_not r.matched r.matched) before
      ]

  unfoldable pub explain_shadow : ChainModel Bdd → ℕ → List ℕ
  unfolding explain_rule split_at
  explain_shadow m number = elim (split_at number m.rules) [ none ↦ [] | some s ↦ explain_rule s ]
