-- ===== src/Engine/Accept/Exact.antt =====
-- What `analyse` of crates/engine/src/accept.rs computes, in terms of packets and first-match
-- evaluation.
use fwdelta.Prelude.{
  ℕ, ◌≡◌, ◌∙◌, ap, ap₂, sym, false, ◌&&◌, not, some, arith, get_elem?, if◌then◌else◌,
}
use fwdelta.Ir.Interface.{SymbolTable}
use fwdelta.Ir.Rule.{Rule, Chain, permits}
use fwdelta.Engine.Bdd.{BddLib, Valuation}
use fwdelta.Engine.Header.{Layout, match_bdd}
use fwdelta.Engine.Header.Bits.{field-lt}
use fwdelta.Engine.Header.Encode.{InRange}
use fwdelta.Engine.Packet.{field}
use fwdelta.Engine.Accept.{RuleModel, ContentKey, forward, analyse, is_redundant}
use fwdelta.Engine.Accept.Semantics.{
  verdict_or, permitted, first_match, is_at, is_none, after, WellFormedRules,
}
use fwdelta.Engine.Accept.ForwardPass.{Saturated, forward-at, eval-covered}
use fwdelta.Engine.Accept.BackwardPass.{backward-at, eval-suffix}

pub fields-InRange : (l : Layout) (v : Valuation) → InRange (field l v)
fields-InRange l v f = field-lt l v f

module _ ⦃lib : BddLib⦄ (l : Layout) (t : SymbolTable) (key : ContentKey) (c : Chain)
    (w : WellFormedRules c.rules) where
  open lib use {
    Bdd, mk_true, mk_false, eval, eval-mk_true, eval-mk_false, eval-complement, eval-and,
    eval-and_not, is_false, is_false_iff, and, and_not,
  }

  is_redundant-cong :
      (m m' : RuleModel Bdd) (q : Bdd)
      → m.action ≡ m'.action
      → m.effective ≡ m'.effective
      → is_redundant m q ≡ is_redundant m' q
  unfolding is_redundant
  is_redundant-cong m m' q p e =
      ap₂ (λ a s. if permits a then is_false (and_not s q) else is_false (and s q)) p e

  no_cover : Saturated l t key mk_false false
  no_cover h = absurd (cc)

  pub eval-policy :
      (v : Valuation) → eval (if permits c.policy then mk_true else mk_false) v ≡ permits c.policy
  eval-policy v = ground (arith, eval-mk_true v, eval-mk_false v)

  -- The accept set holds a valuation exactly when the chain permits the packet that it encodes.
  pub eval-accept : (v : Valuation) → eval (analyse l t key c).accept v ≡ permitted t c (field l v)
  unfolding analyse
  eval-accept v =
      eval-suffix l t key c.rules mk_false false _ v w
      ∙ ap (λ d. verdict_or d t c.rules (field l v)) (eval-policy v)

  pub eval-matched_any :
      (v : Valuation)
      → eval (analyse l t key c).matched_any v ≡ not (is_none (first_match t c.rules (field l v)))
  unfolding analyse
  eval-matched_any v =
      eval-covered l t key c.rules mk_false false v w no_cover ∙ ground (arith, eval-mk_false v)

  pub eval-fallthrough :
      (v : Valuation)
      → eval (analyse l t key c).fallthrough v ≡ is_none (first_match t c.rules (field l v))
  unfolding analyse
  eval-fallthrough v = ground (
    arith,
    eval-complement (forward l t key c.rules mk_false false).covered v,
    eval-covered l t key c.rules mk_false false v w no_cover,
    eval-mk_false v,
  )

  -- What is known of the model at place `i`.
  pub record Known (i : ℕ) (r : Rule) (m : RuleModel Bdd) : Type 0 where
    pub number : m.number ≡ r.number
    pub action : m.action ≡ r.action
    pub content_key : m.content_key ≡ key r.matches r.action
    pub matched : m.matched ≡ match_bdd l r.matches t
    pub shadowed : m.shadowed ≡ is_false m.effective
    pub effective :
        (v : Valuation) → eval m.effective v ≡ is_at i (first_match t c.rules (field l v))
    pub suffix : Bdd
    pub eval_suffix :
        (v : Valuation)
        → eval suffix v ≡ verdict_or (permits c.policy) t (after i c.rules) (field l v)
    pub redundant : m.redundant ≡ is_redundant m suffix

  pub rule-Known :
      (i : ℕ) (m : RuleModel Bdd)
      → get_elem? (analyse l t key c).rules i ≡ some m
      → (r : Rule) × (get_elem? c.rules i ≡ some r) × Known i r m
  unfolding analyse
  rule-Known i m h =
      let (m0, at, q, marked, q_is) =
        backward-at l t key c.rules mk_false false (if permits c.policy then mk_true else mk_false)
          i m w h in
      let facts =
        λ (v : Valuation). forward-at l t key c.rules mk_false false v i m0 w no_cover at in
      let (r, found, modelled, here) = facts (λ x. false) in
      (
        r,
        found,
        record {
          number = marked.number ∙ modelled.number;
          action = marked.action ∙ modelled.action;
          content_key = marked.content_key ∙ modelled.content_key;
          matched = marked.matched ∙ modelled.matched;
          shadowed = marked.shadowed ∙ modelled.shadowed ∙ ap is_false (sym marked.effective);
          effective = λ v.
              ap (λ b. eval b v) marked.effective
              ∙ (facts v).3
              ∙ ap (λ b. not b && is_at i (first_match t c.rules (field l v))) (eval-mk_false v);
          suffix = q;
          eval_suffix =
              λ v. q_is v ∙ ap (λ d. verdict_or d t (after i c.rules) (field l v)) (eval-policy v);
          redundant =
              marked.redundant ∙ sym (is_redundant-cong m m0 q marked.action marked.effective);
        },
      )
