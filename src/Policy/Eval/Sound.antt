-- ===== src/Policy/Eval/Sound.antt =====
-- The check of crates/policy/src/eval.rs establishes what its outcome says.
use fwdelta.Prelude.{
  ◌≡◌, refl, ◌∙◌, ap, ap₂, sym, subst, Bool, true, false, ◌&&◌, not, List, Option-cases, Bool-cases,
  inl, inr,
}
use fwdelta.Ir.Intervals.{IntervalSet}
use fwdelta.Ir.Interface.{SymbolTable}
use fwdelta.Ir.Rule.{Match, Chain}
use fwdelta.Ir.Rule.WellFormed.{IsWellFormed}
use fwdelta.Engine.Bdd.{BddLib, Valuation, Witnessed}
use fwdelta.Engine.Header.{VarOrder, new, match_bdd}
use fwdelta.Engine.Header.Matches.{Values, matches, eval-match_bdd}
use fwdelta.Engine.Header.Encode.{InRange, encode, fields-encode}
use fwdelta.Engine.Packet.{field, witness}
use fwdelta.Engine.Accept.{ContentKey, analyse}
use fwdelta.Engine.Accept.Semantics.{permitted, first_match, is_none, WellFormedRules}
use fwdelta.Engine.Accept.Exact.{eval-accept, eval-matched_any, fields-InRange}
use fwdelta.Policy.Assertion.{Kind, Assertion, Policy, Result, ok}
use fwdelta.Policy.Eval.{
  Named, contradiction, policy_only, Outcome, vacuous, Report, unmentioned_endpoint, offending,
  verdict, outcome_of, check, assertion_set,
}
use fwdelta.Policy.Eval.Outcomes.{
  breaks, Established, Established-same, value_of-packet_of, second_false, both_true, from_denial,
  to_denial, eval-offending, member_of, verdict-none, verdict-some,
}
use fwdelta.Policy.Load.Loaded.{SetsFit, EndsResolve}
use fwdelta.Policy.Eval.Meaning.{concerns}
use fwdelta.Policy.Eval.Compiled.{assertion_match-Returns, unmentioned_endpoint-Returns}

module _ ⦃lib : BddLib⦄ (o : VarOrder) (t : SymbolTable) (key : ContentKey) (c : Chain)
    (w : WellFormedRules c.rules) (m : Match) (wm : IsWellFormed m) (k : Kind) where
  open lib use {
    Bdd, eval, eval-and, is_false, is_false_iff, and, sat_witness, sat_witness-Witnessed,
  }

  -- The set of what breaks the assertion, at a valuation.
  eval-broken :
      (v : Valuation)
      → eval (offending k (match_bdd (new o) m t) (analyse (new o) t key c).accept) v
        ≡ (matches m t (field (new o) v) && breaks k (permitted t c (field (new o) v)))
  eval-broken v =
      eval-offending k (match_bdd (new o) m t) (analyse (new o) t key c).accept v
      ∙ ap₂ (λ x y. x && breaks k y) (eval-match_bdd (new o) v m t wm)
          (eval-accept (new o) t key c w v)

  eval-decided :
      (v : Valuation)
      → eval (and (match_bdd (new o) m t) (analyse (new o) t key c).matched_any) v
        ≡ (matches m t (field (new o) v) && not (is_none (first_match t c.rules (field (new o) v))))
  eval-decided v =
      eval-and (match_bdd (new o) m t) (analyse (new o) t key c).matched_any v
      ∙ ap₂ ◌&&◌ (eval-match_bdd (new o) v m t wm) (eval-matched_any (new o) t key c w v)

  -- A fact at every valuation, at every packet.
  at_packets :
      (f : Values → Bool)
      → ((v : Valuation) → f (field (new o) v) ≡ false)
      → (p : Values) → InRange p
      → f p ≡ false
  at_packets f h p r = ap f (sym (fields-encode o p r)) ∙ h (encode o p)

  decided_packet :
      is_false (and (match_bdd (new o) m t) (analyse (new o) t key c).matched_any) ≡ false
      → (p : Values) × InRange p
        × (matches m t p ≡ true)
        × (is_none (first_match t c.rules p) ≡ false)
  decided_packet h =
      let (v, e) = member_of _ h in
      let (a, b) = both_true _ _ (sym (eval-decided v) ∙ e) in
      (field (new o) v, fields-InRange (new o) v, a, to_denial _ b)

  verdict-Established :
      is_false (and (match_bdd (new o) m t) (analyse (new o) t key c).matched_any) ≡ false
      → Established t c (matches m t) k (
          verdict (
            witness (new o) (offending k (match_bdd (new o) m t) (analyse (new o) t key c).accept)))
  verdict-Established h =
      let broken = offending k (match_bdd (new o) m t) (analyse (new o) t key c).accept in
      elim (Option-cases (sat_witness broken)) [
        | inl e ↦ subst (Established t c (matches m t) k) (sym (verdict-none (new o) broken e)) (
          (λ p r a.
              second_false (matches m t p) _
                (at_packets (λ q. matches m t q && breaks k (permitted t c q))
                  (λ v.
                    sym (eval-broken v)
                    ∙ subst (Witnessed (eval broken)) e (sat_witness-Witnessed broken) v)
                  p r)
                a),
          decided_packet h,
        )
        | inr (v, e) ↦
            let (a, b) = both_true _ _ (
              sym (eval-broken v)
              ∙ subst (Witnessed (eval broken)) e (sat_witness-Witnessed broken)) in
            subst (Established t c (matches m t) k) (sym (verdict-some (new o) broken v e)) (
              subst (λ q. InRange q × (matches m t q ≡ true) × (breaks k (permitted t c q) ≡ true))
                (sym (value_of-packet_of (new o) v)) (fields-InRange (new o) v, a, b))
      ]

  -- The outcome of the three branches.
  abbrev pub Concludes : Result Outcome → Type 0
  Concludes r = (x : Outcome) × (r ≡ ok x) × Established t c (matches m t) k x

  pub outcome_of-Concludes :
      (hint : Result (List Named)) (found : List Named)
      → hint ≡ ok found
      → Concludes (outcome_of (new o) (analyse (new o) t key c) k hint (match_bdd (new o) m t))
  unfolding outcome_of
  outcome_of-Concludes hint found hk =
      let set = match_bdd (new o) m t in
      let decided = and set (analyse (new o) t key c).matched_any in
      elim (Bool-cases (is_false set)) [
        | inl e ↦
            rw (e, outcome_of)
              (
                vacuous contradiction,
                refl,
                at_packets (matches m t)
                    (λ v. sym (eval-match_bdd (new o) v m t wm) ∙ (is_false_iff set).0 e v),
              )
        | inr e ↦ elim (Bool-cases (is_false decided)) [
          | inl d ↦
              rw (e, outcome_of, d, hk)
                (
                  vacuous (policy_only (analyse (new o) t key c).name found),
                  refl,
                  λ p r a. from_denial _ (
                      second_false (matches m t p) _
                        (at_packets (λ q. matches m t q && not (is_none (first_match t c.rules q)))
                          (λ v. sym (eval-decided v) ∙ (is_false_iff decided).0 d v) p r)
                        a),
                )
          | inr d ↦ rw (e, outcome_of, d) (_, refl, verdict-Established d)
        ]
      ]

module _ ⦃lib : BddLib⦄ (o : VarOrder) (t : SymbolTable) (key : ContentKey) (c : Chain)
    (w : WellFormedRules c.rules) where
  -- Suppose that the matches of a chain's rules are well-formed, that an assertion's endpoints resolve,
  -- to canonical sets of addresses, and that its protocols and ports are canonical sets of their fields'
  -- width. Then the assertion's check returns a report, and its outcome is right of the assertion's
  -- packets: those with their source and destination in the zones, the prefixes, the ranges or the
  -- addresses that it names, their protocol and ports in its sets, and the symbols of the interfaces
  -- that it names; a key that is not given asks for nothing. PASS: none of them breaks the assertion,
  -- and some rule matches one. FAIL: the counterexample is one of them, and the chain's verdict on it
  -- breaks the assertion. VACUOUS: there is none, or no rule matches any.
  pub check_exact :
      (p : Policy) (a : Assertion) (mentioned : IntervalSet)
      → SetsFit a
      → EndsResolve p a
      → (r : Report) × (check (new o) t p (analyse (new o) t key c) mentioned a ≡ ok r)
        × Established t c (concerns t p a) a.kind r.outcome
  unfolding check assertion_set
  check_exact p a mentioned sets ends =
      let (m, e, compiled) = assertion_match-Returns t p a sets ends in
      let (found, hint, u) = unmentioned_endpoint-Returns p a mentioned ends in
      let (x, is, sound) =
        outcome_of-Concludes o t key c w m compiled.well_formed a.kind
          (unmentioned_endpoint p a mentioned) found hint in
      (
        record {
          name = a.name;
          kind = a.kind;
          summary = a.summary;
          outcome = x;
          chain = (analyse (new o) t key c).name;
        },
        rw (check, assertion_set, e, is) refl,
        Established-same t c (matches m t) (concerns t p a) a.kind x compiled.means sound,
      )
