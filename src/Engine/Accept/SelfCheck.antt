-- ===== src/Engine/Accept/SelfCheck.antt =====
-- The self-check and the attribution of crates/engine/src/accept.rs, on what `analyse` returns.
use fwdelta.Prelude.{
  ◌≡◌, refl, ◌∙◌, ap, ap₂, sym, Bool, true, false, ◌&&◌, ◌||◌, not, List, [], ◌∷◌, arith,
  if◌then◌else◌, if_cong,
}
use fwdelta.Ir.Interface.{SymbolTable}
use fwdelta.Ir.Rule.{Rule, Chain, permits}
use fwdelta.Engine.Bdd.{BddLib, Valuation}
use fwdelta.Engine.Header.{Layout, VarOrder, new}
use fwdelta.Engine.Header.Matches.{Values}
use fwdelta.Engine.Header.Encode.{InRange, encode, fields-encode}
use fwdelta.Engine.Packet.{field}
use fwdelta.Engine.Accept.{
  Decider, policy, ContentKey, analyse, attribute, accept_rules, forward_accept, covers_rest,
  partition_holds, verify, ok,
}
use fwdelta.Engine.Accept.Semantics.{verdict_or, permitted, first_match, is_none, WellFormedRules}
use fwdelta.Engine.Accept.Stages.{analyse-Staged}
use fwdelta.Engine.Accept.Cells.{
  decider, then_push, owners, owners-push_part, owners-attribute_rules, eval-accept_rules,
  disjoint_union-covered,
}
use fwdelta.Engine.Accept.Exact.{eval-accept, eval-fallthrough}

-- The policy's share of the accept set.
verdict_or-policy :
    (d : Bool) (t : SymbolTable) (rs : List Rule) (p : Values)
    → verdict_or d t rs p ≡ (verdict_or false t rs p || (is_none (first_match t rs p) && d))
verdict_or-policy d t [] p = refl
verdict_or-policy d t (r ∷ rs) p = ground (arith, verdict_or-policy d t rs p)

policy_share :
    (a walked missed all : Bool)
    → all ≡ (walked || (missed && a))
    → (if a then walked || missed else walked) ≡ all
policy_share a walked missed all e = ground arith

not_and : (b : Bool) → (not b && b) ≡ false
not_and b = ground arith

not_or : (b : Bool) → (not b || b) ≡ true
not_or b = ground arith

last_cell :
    (b none_hit : Bool) (d : Decider) (part : Bool)
    → part ≡ (b && none_hit)
    → (none_hit ≡ true → d ≡ policy)
    → then_push (b && (true && not none_hit)) d (then_push part policy []) ≡ then_push b d []
last_cell b none_hit d part e f = ground arith

decider_policy :
    (t : SymbolTable) (rs : List Rule) (p : Values)
    → is_none (first_match t rs p) ≡ true
    → decider t rs p ≡ policy
decider_policy t [] p h = refl
decider_policy t (r ∷ rs) p h = ground (arith, decider_policy t rs p)

module _ ⦃lib : BddLib⦄ (l : Layout) (t : SymbolTable) (key : ContentKey) (c : Chain)
    (w : WellFormedRules c.rules) where
  open lib use {
    Bdd, mk_false, eval, eval-mk_false, eval-and, eval-or, is_true, is_true_iff, is_false,
    is_false_iff, and, or, same, same_iff,
  }

  chain_policy_lem : (analyse l t key c).chain_policy ≡ c.policy
  unfolding analyse
  chain_policy_lem = refl

  eval-forward_accept :
      (v : Valuation) → eval (forward_accept (analyse l t key c)) v ≡ permitted t c (field l v)
  unfolding forward_accept
  eval-forward_accept v =
      let m = analyse l t key c in
      let p = field l v in
      let walked : eval (accept_rules m.rules mk_false) v ≡ verdict_or false t c.rules p =
        eval-accept_rules t p v false c.rules m.rules mk_false (analyse-Staged l t key c v w)
        ∙ ap (λ b. b || verdict_or false t c.rules p) (eval-mk_false v) in
      if_cong (λ b. eval b v) (permits m.chain_policy)
        (eval-or _ m.fallthrough v ∙ ap₂ ◌||◌ walked (eval-fallthrough l t key c w v)) walked
      ∙ policy_share (permits m.chain_policy) _ _ _ (
          verdict_or-policy (permits c.policy) t c.rules p
          ∙ ap
              (λ a.
                verdict_or false t c.rules p || (is_none (first_match t c.rules p) && permits a))
              (sym chain_policy_lem))

  partition_holds_lem : partition_holds (analyse l t key c) ≡ true
  unfolding partition_holds covers_rest
  partition_holds_lem =
      let m = analyse l t key c in
      let (all, found, is) =
        disjoint_union-covered t (λ v. field l v) (λ v. false) c.rules m.rules mk_false
          (λ v. analyse-Staged l t key c v w) eval-mk_false in
      let apart : is_false (and all m.fallthrough) ≡ true = (is_false_iff _).1 (λ v.
        eval-and all m.fallthrough v
        ∙ ap₂ ◌&&◌ (is v) (eval-fallthrough l t key c w v)
        ∙ not_and (is_none (first_match t c.rules (field l v)))) in
      let whole : is_true (or all m.fallthrough) ≡ true = (is_true_iff _).1 (λ v.
        eval-or all m.fallthrough v
        ∙ ap₂ ◌||◌ (is v) (eval-fallthrough l t key c w v)
        ∙ not_or (is_none (first_match t c.rules (field l v)))) in
      rw (found, apart, whole) refl

  -- The self-check succeeds on the analysis of every chain whose matches are well-formed.
  pub verify-ok : verify (analyse l t key c) ≡ ok
  unfolding verify
  verify-ok =
      rw
        (
          partition_holds_lem,
          (same_iff (forward_accept (analyse l t key c)) (analyse l t key c).accept).1
              (λ v. eval-forward_accept v ∙ sym (eval-accept l t key c w v)),
        )
        refl

  owners-attribute :
      (set : Bdd) (v : Valuation)
      → owners v (attribute (analyse l t key c) set)
        ≡ then_push (eval set v) (decider t c.rules (field l v)) []
  unfolding attribute
  owners-attribute set v =
      owners-attribute_rules t (field l v) v false c.rules _ set _ (analyse-Staged l t key c v w)
      ∙ ap (then_push _ _) (owners-push_part policy (and set (analyse l t key c).fallthrough) v [])
      ∙ last_cell (eval set v) (is_none (first_match t c.rules (field l v))) _ _
          (eval-and set _ v ∙ ap (λ b. eval set v && b) (eval-fallthrough l t key c w v))
          (decider_policy t c.rules (field l v))

module _ ⦃lib : BddLib⦄ (o : VarOrder) (t : SymbolTable) (key : ContentKey) (c : Chain)
    (w : WellFormedRules c.rules) where
  open lib use {Bdd, eval}

  -- If the matches of a chain's rules are well-formed, a packet whose values fit their fields is in
  -- exactly one cell of the attribution of a set that holds it, that of the first rule matching it,
  -- or of the policy if none does. It is in no cell if the set does not hold it.
  pub attribute_exact :
      (set : Bdd) (p : Values)
      → InRange p
      → owners (encode o p) (attribute (analyse (new o) t key c) set)
        ≡ (if eval set (encode o p) then decider t c.rules p ∷ [] else [])
  attribute_exact set p h =
      owners-attribute (new o) t key c w set (encode o p)
      ∙ ap (λ q. if eval set (encode o p) then decider t c.rules q ∷ [] else [])
          (fields-encode o p h)
