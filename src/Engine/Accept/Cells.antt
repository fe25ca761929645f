-- ===== src/Engine/Accept/Cells.antt =====
-- `ChainModel::attribute`, `forward_accept`, `partition_holds` and `verify` of
-- crates/engine/src/accept.rs.
use fwdelta.Prelude.{
  ◌≡◌, refl, ◌∙◌, ap, sym, Bool, true, false, ◌&&◌, ◌||◌, not, List, [], ◌∷◌, some, arith,
  if◌then◌else◌, Bool-cases, inl, inr,
}
use fwdelta.Ir.Interface.{SymbolTable}
use fwdelta.Ir.Rule.{Rule, permits}
use fwdelta.Engine.Bdd.{BddLib, Valuation}
use fwdelta.Engine.Header.Matches.{Values}
use fwdelta.Engine.Accept.{
  Decider, rule, policy, RuleModel, Cell, push_part, attribute_rules, accept_rules, disjoint_union,
}
use fwdelta.Engine.Accept.Semantics.{hits, verdict_or, first_match, is_none}
use fwdelta.Engine.Accept.Stages.{Staged}

-- What decides a packet: the first rule that matches, or the policy.
abbrev pub decider : SymbolTable → List Rule → Values → Decider
decider t [] p = policy
decider t (r ∷ rs) p = if hits t p r then rule r.number else decider t rs p

abbrev pub then_push : Bool → Decider → List Decider → List Decider
then_push b d ds = if b then d ∷ ds else ds

-- One rule's share of the accept set, of one that permits and of one that denies.
permit_step :
    (seen hit act rest acc acc' eff : Bool)
    → eff ≡ (not seen && hit)
    → act ≡ true
    → acc' ≡ (acc || eff)
    → (acc' || (not (seen || hit) && rest)) ≡ (acc || (not seen && (if hit then act else rest)))
permit_step seen hit act rest acc acc' eff e a k = ground arith

deny_step :
    (seen hit act rest acc : Bool)
    → act ≡ false
    → (acc || (not (seen || hit) && rest)) ≡ (acc || (not seen && (if hit then act else rest)))
deny_step seen hit act rest acc a = ground arith

module _ ⦃lib : BddLib⦄ where
  open lib use {Bdd, eval, eval-and, eval-or, is_false, is_false_iff, and, or}

  -- The deciders of the cells that hold a valuation.
  abbrev pub owners : Valuation → List (Cell ⦃lib = lib⦄) → List Decider
  owners v [] = []
  owners v ((d, s) ∷ cells) = then_push (eval s v) d (owners v cells)

  pub owners-push_part :
      (d : Decider) (part : Bdd) (v : Valuation) (out : List (Cell ⦃lib = lib⦄))
      → owners v (push_part d part out) ≡ then_push (eval part v) d (owners v out)
  unfolding push_part
  owners-push_part d part v out = elim (Bool-cases (is_false part)) [
    | inl e ↦ rw (e, (is_false_iff part).0 e v) refl
    | inr e ↦ rw (e) refl
  ]

  -- One rule's cell.
  owners_step :
      (t : SymbolTable) (p : Values) (v : Valuation) (seen : Bool) (rs : List Rule) (set : Bdd)
      (r : Rule) (m : RuleModel Bdd) (rest last : List (Cell ⦃lib = lib⦄))
      → m.number ≡ r.number
      → eval m.effective v ≡ (not seen && hits t p r)
      → owners v rest
        ≡ then_push
            (eval set v && (not (seen || hits t p r) && not (is_none (first_match t rs p))))
            (decider t rs p)
            (owners v last)
      → then_push (eval (and set m.effective) v) (rule m.number) (owners v rest)
        ≡ then_push
            (eval set v && (not seen && not (is_none (first_match t (r ∷ rs) p))))
            (decider t (r ∷ rs) p)
            (owners v last)
  owners_step t p v seen rs set r m rest last n e h = ground (arith, eval-and set m.effective v)

  attribute_rules_step :
      (v : Valuation) (m : RuleModel Bdd) (ms : List (RuleModel Bdd)) (set : Bdd)
      (last : List (Cell ⦃lib = lib⦄))
      → m.shadowed ≡ is_false m.effective
      → owners v (attribute_rules (m ∷ ms) set last)
        ≡ then_push
            (eval (and set m.effective) v)
            (rule m.number)
            (owners v (attribute_rules ms set last))
  unfolding attribute_rules
  attribute_rules_step v m ms set last s = elim (Bool-cases m.shadowed) [
    | inl e ↦
        rw (e, eval-and set m.effective v, (is_false_iff m.effective).0 (sym s ∙ e) v)
          (none_pushed (eval set v) _ _)
    | inr e ↦ rw (e) (owners-push_part (rule m.number) (and set m.effective) v _)
  ]
    where
      none_pushed : (b : Bool) (d : Decider) (ds : List Decider) → ds ≡ then_push (b && false) d ds
      none_pushed true d ds = refl
      none_pushed false d ds = refl

  pub owners-attribute_rules :
      (t : SymbolTable) (p : Values) (v : Valuation) (seen : Bool) (rs : List Rule)
      (ms : List (RuleModel Bdd)) (set : Bdd) (last : List (Cell ⦃lib = lib⦄))
      → Staged t p v seen rs ms
      → owners v (attribute_rules ms set last)
        ≡ then_push
            (eval set v && (not seen && not (is_none (first_match t rs p))))
            (decider t rs p)
            (owners v last)
  owners-attribute_rules t p v seen [] [] set last h = unfold attribute_rules in ground arith
  owners-attribute_rules t p v seen [] (m ∷ ms) set last h = elim h [ ]
  owners-attribute_rules t p v seen (r ∷ rs) [] set last h = elim h [ ]
  owners-attribute_rules t p v seen (r ∷ rs) (m ∷ ms) set last h =
      attribute_rules_step v m ms set last h.0.shadowed
      ∙ owners_step t p v seen rs set r m (attribute_rules ms set last) last h.0.number
          h.0.effective (owners-attribute_rules t p v (seen || hits t p r) rs ms set last h.1)

  -- The loop of `forward_accept`.
  pub eval-accept_rules :
      (t : SymbolTable) (p : Values) (v : Valuation) (seen : Bool) (rs : List Rule)
      (ms : List (RuleModel Bdd)) (acc : Bdd)
      → Staged t p v seen rs ms
      → eval (accept_rules ms acc) v ≡ (eval acc v || (not seen && verdict_or false t rs p))
  unfolding accept_rules
  eval-accept_rules t p v seen [] [] acc h = ground arith
  eval-accept_rules t p v seen [] (m ∷ ms) acc h = elim h [ ]
  eval-accept_rules t p v seen (r ∷ rs) [] acc h = elim h [ ]
  eval-accept_rules t p v seen (r ∷ rs) (m ∷ ms) acc h = elim (Bool-cases (permits m.action)) [
    | inl e ↦ rw (e) (
        eval-accept_rules t p v (seen || hits t p r) rs ms (or acc m.effective) h.1
        ∙ permit_step seen (hits t p r) _ _ _ _ _ h.0.effective (ap permits (sym h.0.action) ∙ e)
            (eval-or acc m.effective v))
    | inr e ↦ rw (e) (
        eval-accept_rules t p v (seen || hits t p r) rs ms acc h.1
        ∙ deny_step seen (hits t p r) _ _ _ (ap permits (sym h.0.action) ∙ e))
  ]

  -- The loop of `partition_holds`: no two effective sets meet, and their union is what some rule
  -- matches.
  pub disjoint_union-covered :
      (t : SymbolTable) (p : Valuation → Values) (seen : Valuation → Bool) (rs : List Rule)
      (ms : List (RuleModel Bdd)) (union : Bdd)
      → ((v : Valuation) → Staged t (p v) v (seen v) rs ms)
      → ((v : Valuation) → eval union v ≡ seen v)
      → (all : Bdd) × (disjoint_union ms union ≡ some all)
        × ((v : Valuation) → eval all v ≡ (seen v || not (is_none (first_match t rs (p v)))))
  unfolding disjoint_union
  disjoint_union-covered t p seen [] [] union h e = (union, refl, λ v. e v ∙ ground arith)
  disjoint_union-covered t p seen [] (m ∷ ms) union h e = elim (h (λ x. false)) [ ]
  disjoint_union-covered t p seen (r ∷ rs) [] union h e = elim (h (λ x. false)) [ ]
  disjoint_union-covered t p seen (r ∷ rs) (m ∷ ms) union h e =
      let (all, found, is) =
        disjoint_union-covered t p (λ v. seen v || hits t (p v) r) rs ms (or union m.effective)
          (λ v. (h v).1)
          (λ v. ground (arith, eval-or union m.effective v, e v, (h v).0.effective)) in
      let apart : is_false (and union m.effective) ≡ true =
        (is_false_iff _).1
          (λ v. ground (arith, eval-and union m.effective v, e v, (h v).0.effective)) in
      (all, rw (apart) found, λ v. is v ∙ ground arith)
