-- ===== src/Engine/Accept/BackwardPass.antt =====
-- The backward pass of `analyse` in crates/engine/src/accept.rs, by induction on the rules.
use fwdelta.Prelude.{
  ℕ, zero, suc, ◌≡◌, refl, ◌∙◌, ap, Bool, true, ◌&&◌, ◌||◌, not, List, [], ◌∷◌, some, arith,
  get_elem?, subst, if◌then◌else◌, if_cong,
}
use fwdelta.Ir.Interface.{SymbolTable}
use fwdelta.Ir.Rule.{Rule, permits}
use fwdelta.Engine.Bdd.{BddLib, Valuation}
use fwdelta.Engine.Header.{Layout, match_bdd}
use fwdelta.Engine.Header.Matches.{eval-match_bdd}
use fwdelta.Engine.Packet.{field}
use fwdelta.Engine.Accept.{
  RuleModel, ContentKey, forward, forward_model, cover, backward, is_redundant, extend,
}
use fwdelta.Engine.Accept.Semantics.{verdict_or, after, WellFormedRules}

-- One rule's step of the backward pass, and of first-match evaluation.
verdict_step :
    (a m h s d : Bool) → m ≡ h → s ≡ d → (if a then m || s else not m && s) ≡ (if h then a else d)
verdict_step a m h s d p q = ground arith

module _ ⦃lib : BddLib⦄ (l : Layout) (t : SymbolTable) (key : ContentKey) where
  open lib use {Bdd, or, and, complement, eval, eval-or, eval-and, eval-complement}

  eval-extend :
      (r : Rule) (covered : Bdd) (sat : Bool) (suffix : Bdd) (v : Valuation)
      → eval (extend (forward_model l t key r covered sat) suffix) v ≡ (
          if permits r.action
          then eval (match_bdd l r.matches t) v || eval suffix v
          else not (eval (match_bdd l r.matches t) v) && eval suffix v)
  unfolding extend forward_model
  eval-extend r covered sat suffix v =
      let m = match_bdd l r.matches t in
      if_cong (λ b. eval b v) (permits r.action) (eval-or m suffix v)
        (eval-and (complement m) suffix v ∙ ap (λ b. b && eval suffix v) (eval-complement m v))

  -- The accept set of a list of rules is their first-match verdict.
  pub eval-suffix :
      (rs : List Rule) (covered : Bdd) (sat : Bool) (suffix : Bdd) (v : Valuation)
      → WellFormedRules rs
      → eval (backward (forward l t key rs covered sat).models suffix).suffix v
        ≡ verdict_or (eval suffix v) t rs (field l v)
  unfolding forward backward
  eval-suffix [] covered sat suffix v w = refl
  eval-suffix (r ∷ rs) covered sat suffix v w =
      let covered' = cover l t r covered sat in
      let sat' = if sat then true else lib.is_true covered' in
      eval-extend r covered sat (backward (forward l t key rs covered' sat').models suffix).suffix v
      ∙ verdict_step (permits r.action) _ _ _ _ (eval-match_bdd l v r.matches t w.0)
          (eval-suffix rs covered' sat' suffix v w.1)

  -- The backward pass changes the redundancy mark alone, by the accept set of the rules after.
  pub record Marked (m m' : RuleModel Bdd) (suffix : Bdd) : Type 0 where
    pub number : m'.number ≡ m.number
    pub action : m'.action ≡ m.action
    pub content_key : m'.content_key ≡ m.content_key
    pub matched : m'.matched ≡ m.matched
    pub effective : m'.effective ≡ m.effective
    pub shadowed : m'.shadowed ≡ m.shadowed
    pub redundant : m'.redundant ≡ is_redundant m suffix

  marked_lem :
      (m : RuleModel Bdd) (q : Bdd) → Marked m (record m { redundant = is_redundant m q }) q
  marked_lem m q = record {
    number = refl;
    action = refl;
    content_key = refl;
    matched = refl;
    effective = refl;
    shadowed = refl;
    redundant = refl;
  }

  pub backward-at :
      (rs : List Rule) (covered : Bdd) (sat : Bool) (suffix : Bdd) (i : ℕ) (m' : RuleModel Bdd)
      → WellFormedRules rs
      → get_elem? (backward (forward l t key rs covered sat).models suffix).models i ≡ some m'
      → (m : RuleModel Bdd) × (get_elem? (forward l t key rs covered sat).models i ≡ some m)
        × (q : Bdd) × Marked m m' q
        × ((v : Valuation) → eval q v ≡ verdict_or (eval suffix v) t (after i rs) (field l v))
  unfolding forward backward
  backward-at [] covered sat suffix i m' w h = absurd (cc)
  backward-at (r ∷ rs) covered sat suffix zero m' w h =
      let covered' = cover l t r covered sat in
      let sat' = if sat then true else lib.is_true covered' in
      let q = (backward (forward l t key rs covered' sat').models suffix).suffix in
      let m = forward_model l t key r covered sat in
      let marked : RuleModel Bdd = record m { redundant = is_redundant m q } in
      let e : marked ≡ m' = cc in
      (
        m,
        refl,
        q,
        subst (λ x. Marked m x q) e (marked_lem m q),
        λ v. eval-suffix rs covered' sat' suffix v w.1,
      )
  backward-at (r ∷ rs) covered sat suffix (suc i) m' w h =
      let covered' = cover l t r covered sat in
      let sat' = if sat then true else lib.is_true covered' in
      backward-at rs covered' sat' suffix i m' w.1 h
