-- ===== src/Engine/Accept/ForwardPass.antt =====
-- The forward pass of `analyse` in crates/engine/src/accept.rs, by induction on the rules.
use fwdelta.Prelude.{
  ℕ, zero, suc, ◌≡◌, refl, ◌∙◌, Bool, true, false, ◌&&◌, ◌||◌, not, List, [], ◌∷◌, some, arith,
  get_elem?, subst, if◌then◌else◌,
}
use fwdelta.Ir.Interface.{SymbolTable}
use fwdelta.Ir.Rule.{Rule}
use fwdelta.Engine.Bdd.{BddLib, Valuation}
use fwdelta.Engine.Header.{Layout, match_bdd}
use fwdelta.Engine.Header.Matches.{eval-match_bdd}
use fwdelta.Engine.Packet.{field}
use fwdelta.Engine.Accept.{RuleModel, ContentKey, forward, forward_model, cover}
use fwdelta.Engine.Accept.Semantics.{first_match, is_at, is_none, WellFormedRules}

module _ ⦃lib : BddLib⦄ (l : Layout) (t : SymbolTable) (key : ContentKey) where
  open lib use {
    Bdd, mk_false, eval, eval-mk_false, eval-or, eval-and_not, is_true, is_true_iff, is_false,
  }

  -- `saturated` is set only when the rules so far cover everything.
  abbrev pub Saturated : Bdd → Bool → Type 0
  Saturated covered saturated = saturated ≡ true → (v : Valuation) → eval covered v ≡ true

  pub eval-cover :
      (r : Rule) (covered : Bdd) (sat : Bool) (v : Valuation)
      → Saturated covered sat
      → eval (cover l t r covered sat) v ≡ (eval covered v || eval (match_bdd l r.matches t) v)
  unfolding cover
  eval-cover r covered true v s = ground (arith, s refl v)
  eval-cover r covered false v s = eval-or covered (match_bdd l r.matches t) v

  pub cover-Saturated :
      (r : Rule) (covered : Bdd) (sat : Bool)
      → Saturated covered sat
      → Saturated
          (cover l t r covered sat)
          (if sat then true else is_true (cover l t r covered sat))
  unfolding cover
  cover-Saturated r covered true s h v = s refl v
  cover-Saturated r covered false s h v = (is_true_iff _).0 h v

  pub eval-effective :
      (r : Rule) (covered : Bdd) (sat : Bool) (v : Valuation)
      → Saturated covered sat
      → eval (forward_model l t key r covered sat).effective v
        ≡ (eval (match_bdd l r.matches t) v && not (eval covered v))
  unfolding forward_model
  eval-effective r covered true v s = ground (arith, s refl v, eval-mk_false v)
  eval-effective r covered false v s = eval-and_not (match_bdd l r.matches t) covered v

  -- The union of the match sets.
  pub eval-covered :
      (rs : List Rule) (covered : Bdd) (sat : Bool) (v : Valuation)
      → WellFormedRules rs
      → Saturated covered sat
      → eval (forward l t key rs covered sat).covered v
        ≡ (eval covered v || not (is_none (first_match t rs (field l v))))
  unfolding forward
  eval-covered [] covered sat v w s = ground arith
  eval-covered (r ∷ rs) covered sat v w s = ground (
    arith,
    eval-covered rs (cover l t r covered sat) _ v w.1 (cover-Saturated r covered sat s),
    eval-cover r covered sat v s,
    eval-match_bdd l v r.matches t w.0,
  )

  -- What the model of the rule at place `i` holds.
  pub record Modelled (r : Rule) (m : RuleModel Bdd) : Type 0 where
    pub number : m.number ≡ r.number
    pub action : m.action ≡ r.action
    pub content_key : m.content_key ≡ key r.matches r.action
    pub matched : m.matched ≡ match_bdd l r.matches t
    pub shadowed : m.shadowed ≡ is_false m.effective

  pub forward_model-Modelled :
      (r : Rule) (covered : Bdd) (sat : Bool) → Modelled r (forward_model l t key r covered sat)
  unfolding forward_model
  forward_model-Modelled r covered sat = record {
    number = refl;
    action = refl;
    content_key = refl;
    matched = refl;
    shadowed = refl;
  }

  pub forward-at :
      (rs : List Rule) (covered : Bdd) (sat : Bool) (v : Valuation) (i : ℕ) (m : RuleModel Bdd)
      → WellFormedRules rs
      → Saturated covered sat
      → get_elem? (forward l t key rs covered sat).models i ≡ some m
      → (r : Rule) × (get_elem? rs i ≡ some r)
        × Modelled r m
        × (eval m.effective v ≡ (not (eval covered v) && is_at i (first_match t rs (field l v))))
  unfolding forward
  forward-at [] covered sat v i m w s h = absurd (cc)
  forward-at (r ∷ rs) covered sat v zero m w s h =
      let e : forward_model l t key r covered sat ≡ m = cc in
      (
        r,
        refl,
        subst (Modelled r) e (forward_model-Modelled r covered sat),
        rw (← e)
            (ground (arith, eval-effective r covered sat v s, eval-match_bdd l v r.matches t w.0)),
      )
  forward-at (r ∷ rs) covered sat v (suc i) m w s h =
      let (q, found, modelled, here) =
        forward-at rs (cover l t r covered sat) _ v i m w.1 (cover-Saturated r covered sat s) h in
      (
        q,
        found,
        modelled,
        here ∙ ground (arith, eval-cover r covered sat v s, eval-match_bdd l v r.matches t w.0),
      )
