-- ===== src/Pipeline/Accepted.antt =====
-- What the parser of crates/nft accepts is what the analysis of crates/engine asks for.
use fwdelta.Prelude.{ℕ, zero, suc, ◌≡◌, subst, ◌&&◌, not, none, List, [], ◌∷◌, some, All, get_elem?}
use fwdelta.Prelude.Text.{Text}
use fwdelta.Ir.Interface.{SymbolTable}
use fwdelta.Ir.Rule.{Rule, Chain, Ruleset}
use fwdelta.Nft.Cursor.{Tokens, ok}
use fwdelta.Nft.Rule.Accepts.{IsAccepted}
use fwdelta.Nft.Chain.Accepts.{AcceptsChain}
use fwdelta.Nft.Parse.{parse}
use fwdelta.Nft.Parse.Accepted.{IsSettled, parse-IsSettled}
use fwdelta.Engine.Bdd.{BddLib}
use fwdelta.Engine.Header.{VarOrder, new}
use fwdelta.Engine.Header.Matches.{Values}
use fwdelta.Engine.Header.Encode.{InRange, encode}
use fwdelta.Engine.Accept.{ContentKey, analyse}
use fwdelta.Engine.Accept.Semantics.{permitted, WellFormedRules}
use fwdelta.Engine.Diff.{diff}
use fwdelta.Engine.Diff.Delta.{delta_exact}

pub All-get_elem? {ℓ} :
    {A : Type ℓ} (P : A → Type 0) (xs : List A) (i : ℕ) (x : A)
    → All P xs
    → get_elem? xs i ≡ some x
    → P x
All-get_elem? P [] i x h e = cc (e)
All-get_elem? P (y ∷ ys) zero x h e = subst (λ o. elim o [ none ↦ Unit {0} | some z ↦ P z ]) e h.0
All-get_elem? P (y ∷ ys) (suc i) x h e = All-get_elem? P ys i x h.1 e

pub parsed-AcceptsChain :
    (file src : Text) (r : Ruleset) (ts : Tokens) (i : ℕ) (c : Chain)
    → parse file src ≡ ok r ts
    → get_elem? r.chains i ≡ some c
    → AcceptsChain c
parsed-AcceptsChain file src r ts i c e at =
    All-get_elem? AcceptsChain r.chains i c (subst IsSettled e (parse-IsSettled file src)) at

pub rules-WellFormed : (rs : List Rule) → All (λ r. IsAccepted r.matches) rs → WellFormedRules rs
rules-WellFormed [] h = tt
rules-WellFormed (r ∷ rs) h = (h.0.well_formed, rules-WellFormed rs h.1)

module _ ⦃lib : BddLib⦄ (o : VarOrder) (t : SymbolTable) (key : ContentKey) where
  open lib use {eval}

  -- If two texts parse and `base` and `head` are chains of theirs, a packet whose values fit their
  -- fields is in the newly allowed set of the delta exactly when first-match evaluation of `head`
  -- permits it and that of `base` does not, and in the newly blocked set exactly when that of `base`
  -- does and that of `head` does not.
  pub parsed-delta_exact :
      (file₁ src₁ file₂ src₂ : Text) (r₁ r₂ : Ruleset) (ts₁ ts₂ : Tokens) (i j : ℕ)
      (base head : Chain) (p : Values)
      → parse file₁ src₁ ≡ ok r₁ ts₁
      → parse file₂ src₂ ≡ ok r₂ ts₂
      → get_elem? r₁.chains i ≡ some base
      → get_elem? r₂.chains j ≡ some head
      → InRange p
      → (eval
            (diff (analyse (new o) t key base) (analyse (new o) t key head)).newly_allowed
            (encode o p)
          ≡ (permitted t head p && not (permitted t base p)))
        × (eval
              (diff (analyse (new o) t key base) (analyse (new o) t key head)).newly_blocked
              (encode o p)
            ≡ (permitted t base p && not (permitted t head p)))
  parsed-delta_exact file₁ src₁ file₂ src₂ r₁ r₂ ts₁ ts₂ i j base head p e₁ e₂ at₁ at₂ h =
      let b = parsed-AcceptsChain file₁ src₁ r₁ ts₁ i base e₁ at₁ in
      let a = parsed-AcceptsChain file₂ src₂ r₂ ts₂ j head e₂ at₂ in
      delta_exact o t key base head (rules-WellFormed base.rules b.rules_accepted)
        (rules-WellFormed head.rules a.rules_accepted) p h
