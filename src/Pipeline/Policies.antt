-- ===== src/Pipeline/Policies.antt =====
-- A policy that crates/policy loads, checked against a chain that crates/nft parses.
use fwdelta.Prelude.{ℕ, ◌≡◌, subst, some, get_elem?}
use fwdelta.Prelude.Text.{Text}
use fwdelta.Ir.Intervals.{IntervalSet}
use fwdelta.Ir.Interface.{SymbolTable}
use fwdelta.Ir.Rule.{Chain, Ruleset}
use fwdelta.Nft.Cursor.{Tokens}
use fwdelta.Nft.Cursor
use fwdelta.Nft.Parse
use fwdelta.Engine.Bdd.{BddLib}
use fwdelta.Engine.Header.{VarOrder, new}
use fwdelta.Engine.Accept.{ContentKey, analyse}
use fwdelta.Policy.Toml.{TomlLib}
use fwdelta.Policy.Assertion.{Assertion, Policy, ok}
use fwdelta.Policy.Assertion.Gives.{Gives}
use fwdelta.Policy.Load.{parse}
use fwdelta.Policy.Load.Loaded.{SetsFit, EndsResolve, IsLoaded}
use fwdelta.Policy.Load.Checked.{parse-IsLoaded}
use fwdelta.Policy.Eval.{Report, check}
use fwdelta.Policy.Eval.Meaning.{concerns}
use fwdelta.Policy.Eval.Outcomes.{Established}
use fwdelta.Policy.Eval.Sound.{check_exact}
use fwdelta.Pipeline.Accepted.{All-get_elem?, parsed-AcceptsChain, rules-WellFormed}

module _ ⦃lib : BddLib⦄ ⦃toml : TomlLib⦄ (o : VarOrder) (t : SymbolTable) (key : ContentKey) where
  -- If a rule file parses, `c` is a chain of it, an assertion document loads, and `a` is an assertion
  -- of it, then the check of `a` against the analysis of `c` returns a report, whose outcome is right
  -- of the packets that the keys of `a` ask for: PASS, FAIL and VACUOUS mean what `check_exact` says of
  -- them.
  pub loaded-check_exact :
      (file src document : Text) (r : Ruleset) (ts : Tokens) (i j : ℕ) (c : Chain) (p : Policy)
      (a : Assertion) (mentioned : IntervalSet)
      → Parse.parse file src ≡ Cursor.ok r ts
      → get_elem? r.chains i ≡ some c
      → parse document ≡ ok p
      → get_elem? p.assertions j ≡ some a
      → (rep : Report) × (check (new o) t p (analyse (new o) t key c) mentioned a ≡ ok rep)
        × Established t c (concerns t p a) a.kind rep.outcome
  loaded-check_exact file src document r ts i j c p a mentioned e at loads here =
      let accepted = parsed-AcceptsChain file src r ts i c e at in
      let loaded : IsLoaded p = subst (Gives IsLoaded) loads (parse-IsLoaded document) in
      let sets = All-get_elem? SetsFit p.assertions j a loaded.sets_fit here in
      let ends = All-get_elem? (EndsResolve p) p.assertions j a loaded.ends_resolve here in
      check_exact o t key c (rules-WellFormed c.rules accepted.rules_accepted) p a mentioned sets
        ends
