-- ===== src/Engine/Accept/Packets.antt =====
-- What the analysis of crates/engine/src/accept.rs reports, packet by packet, in both variable
-- orders.
use fwdelta.Prelude.{
  ℕ, ◌≡◌, ◌∙◌, ap, ap₂, sym, Bool, true, false, ◌&&◌, not, some, arith, get_elem?, if◌then◌else◌,
  ◌↔◌, Bool-cases, inl, inr,
}
use fwdelta.Ir.Interface.{SymbolTable}
use fwdelta.Ir.Rule.{Chain, permits}
use fwdelta.Engine.Bdd.{BddLib, Valuation}
use fwdelta.Engine.Header.{VarOrder, new}
use fwdelta.Engine.Header.Matches.{Values}
use fwdelta.Engine.Header.Encode.{InRange, encode, fields-encode}
use fwdelta.Engine.Packet.{field}
use fwdelta.Engine.Accept.{RuleModel, ContentKey, analyse, is_redundant}
use fwdelta.Engine.Accept.Semantics.{
  verdict_or, permitted, first_match, is_at, is_none, without, after, WellFormedRules,
  verdict_or-without, verdict_or-first_match,
}
use fwdelta.Engine.Accept.Exact.{eval-accept, eval-fallthrough, rule-Known, fields-InRange}

-- The verdict with a rule left out against the verdict with it.
left_out_same :
    (here rest all left act : Bool)
    → left ≡ (if here then rest else all)
    → (here ≡ true → all ≡ act)
    → (act ≡ true → (here && not rest) ≡ false)
    → (act ≡ false → (here && rest) ≡ false)
    → left ≡ all
left_out_same here rest all left act e f g h = ground arith

same_left_out :
    (here rest all left act : Bool)
    → left ≡ (if here then rest else all)
    → (here ≡ true → all ≡ act)
    → left ≡ all
    → (if act then here && not rest else here && rest) ≡ false
same_left_out here rest all left act e f g = ground arith

then_false : (a x y : Bool) → a ≡ true → (if a then x else y) ≡ false → x ≡ false
then_false a x y e h = ground arith

else_false : (a x y : Bool) → a ≡ false → (if a then x else y) ≡ false → y ≡ false
else_false a x y e h = ground arith

module _ ⦃lib : BddLib⦄ (o : VarOrder) (t : SymbolTable) (key : ContentKey) (c : Chain)
    (w : WellFormedRules c.rules) where
  open lib use {Bdd, eval, eval-and, eval-and_not, is_false, is_false_iff, and, and_not}

  -- If the matches of a chain's rules are well-formed, the accept set of the chain holds a packet
  -- whose values fit their fields exactly when first-match evaluation permits the packet.
  pub accept_exact :
      (p : Values)
      → InRange p
      → eval (analyse (new o) t key c).accept (encode o p) ≡ permitted t c p
  accept_exact p h =
      eval-accept (new o) t key c w (encode o p) ∙ ap (permitted t c) (fields-encode o p h)

  -- If the matches of a chain's rules are well-formed, the effective set of the rule at place `i`
  -- holds a packet whose values fit their fields exactly when that rule is the packet's first match,
  -- and the fall-through set holds it exactly when no rule matches it.
  pub partition_exact :
      (i : ℕ) (m : RuleModel Bdd) (p : Values)
      → get_elem? (analyse (new o) t key c).rules i ≡ some m
      → InRange p
      → (eval m.effective (encode o p) ≡ is_at i (first_match t c.rules p))
        × (eval (analyse (new o) t key c).fallthrough (encode o p)
            ≡ is_none (first_match t c.rules p))
  partition_exact i m p at h =
      let same = fields-encode o p h in
      let (r, found, known) = rule-Known (new o) t key c w i m at in
      (
        known.effective (encode o p) ∙ ap (λ q. is_at i (first_match t c.rules q)) same,
        eval-fallthrough (new o) t key c w (encode o p)
            ∙ ap (λ q. is_none (first_match t c.rules q)) same,
      )

  -- If the matches of a chain's rules are well-formed, the rule at place `i` is marked shadowed
  -- exactly when it is the first match of no packet whose values fit their fields.
  pub shadowed_iff :
      (i : ℕ) (m : RuleModel Bdd)
      → get_elem? (analyse (new o) t key c).rules i ≡ some m
      → (m.shadowed ≡ true) ↔ ((p : Values) → InRange p → is_at i (first_match t c.rules p) ≡ false)
  shadowed_iff i m at =
      let (r, found, known) = rule-Known (new o) t key c w i m at in
      (
        (λ s p h.
            sym (partition_exact i m p at h).0
            ∙ (is_false_iff m.effective).0 (sym known.shadowed ∙ s) (encode o p)),
        λ none_first.
            known.shadowed
            ∙ (is_false_iff m.effective).1
                (λ v. known.effective v ∙ none_first (field (new o) v) (fields-InRange (new o) v)),
      )

  -- The redundancy test of a rule, valuation by valuation.
  redundant_at :
      (m : RuleModel Bdd) (q : Bdd) (v : Valuation)
      → is_redundant m q ≡ true
      → (permits m.action ≡ true → (eval m.effective v && not (eval q v)) ≡ false)
        × (permits m.action ≡ false → (eval m.effective v && eval q v) ≡ false)
  unfolding is_redundant
  redundant_at m q v h = (
    (λ a. sym (eval-and_not m.effective q v) ∙ (is_false_iff _).0 (on_permit a) v),
    λ a. sym (eval-and m.effective q v) ∙ (is_false_iff _).0 (on_deny a) v,
  )
    where
      on_permit : permits m.action ≡ true → is_false (and_not m.effective q) ≡ true
      on_permit a = ground arith

      on_deny : permits m.action ≡ false → is_false (and m.effective q) ≡ true
      on_deny a = ground arith

  at_redundant :
      (m : RuleModel Bdd) (q : Bdd)
      → ((v : Valuation)
          → (if permits m.action
              then eval m.effective v && not (eval q v)
              else eval m.effective v && eval q v)
            ≡ false)
      → is_redundant m q ≡ true
  unfolding is_redundant
  at_redundant m q h = elim (Bool-cases (permits m.action)) [
    | inl e ↦
        rw (e, is_redundant)
          ((is_false_iff _).1 (λ v. eval-and_not m.effective q v ∙ then_false _ _ _ e (h v)))
    | inr e ↦
        rw (e, is_redundant)
          ((is_false_iff _).1 (λ v. eval-and m.effective q v ∙ else_false _ _ _ e (h v)))
  ]

  -- If the matches of a chain's rules are well-formed, the rule at place `i` is marked redundant
  -- exactly when the chain without it gives every packet whose values fit their fields the verdict
  -- of the whole chain.
  pub redundant_iff :
      (i : ℕ) (m : RuleModel Bdd)
      → get_elem? (analyse (new o) t key c).rules i ≡ some m
      → (m.redundant ≡ true) ↔ (
          (p : Values)
          → InRange p
          → verdict_or (permits c.policy) t (without i c.rules) p ≡ permitted t c p)
  redundant_iff i m at = (there, back)
    where
      d : Bool
      d = permits c.policy

      there :
          m.redundant ≡ true
          → (p : Values) → InRange p
          → verdict_or d t (without i c.rules) p ≡ permitted t c p
      there s p h =
          let (r, found, known) = rule-Known (new o) t key c w i m at in
          let v = encode o p in
          let same = fields-encode o p h in
          let test = redundant_at m known.suffix v (sym known.redundant ∙ s) in
          let here = known.effective v ∙ ap (λ q. is_at i (first_match t c.rules q)) same in
          let rest = known.eval_suffix v ∙ ap (verdict_or d t (after i c.rules)) same in
          left_out_same (is_at i (first_match t c.rules p)) (verdict_or d t (after i c.rules) p)
            (verdict_or d t c.rules p) _ (permits r.action) (verdict_or-without d t c.rules p i)
            (verdict_or-first_match d t c.rules p i found)
            (λ a.
              ap₂ (λ x y. x && not y) (sym here) (sym rest) ∙ test.0 (ap permits known.action ∙ a))
            (λ a. ap₂ ◌&&◌ (sym here) (sym rest) ∙ test.1 (ap permits known.action ∙ a))

      back :
          ((p : Values) → InRange p → verdict_or d t (without i c.rules) p ≡ permitted t c p)
          → m.redundant ≡ true
      back all_same =
          let (r, found, known) = rule-Known (new o) t key c w i m at in
          known.redundant
          ∙ at_redundant m known.suffix (λ v.
            let p = field (new o) v in
            rw (known.effective v, known.eval_suffix v, known.action)
              (same_left_out (is_at i (first_match t c.rules p))
                (verdict_or d t (after i c.rules) p) (verdict_or d t c.rules p) _ (permits r.action)
                (verdict_or-without d t c.rules p i) (verdict_or-first_match d t c.rules p i found)
                (all_same p (fields-InRange (new o) v))))
