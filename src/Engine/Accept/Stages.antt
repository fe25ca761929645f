-- ===== src/Engine/Accept/Stages.antt =====
-- The models of a chain against its rules, one valuation at a time, for the functions of
-- crates/engine/src/accept.rs that walk the list of models.
use fwdelta.Prelude.{◌≡◌, Bool, false, ◌&&◌, ◌||◌, not, List, [], ◌∷◌, arith}
use fwdelta.Ir.Interface.{SymbolTable}
use fwdelta.Ir.Rule.{Rule, Chain}
use fwdelta.Engine.Bdd.{BddLib, Valuation}
use fwdelta.Engine.Header.{Layout}
use fwdelta.Engine.Header.Matches.{Values, eval-match_bdd}
use fwdelta.Engine.Packet.{field}
use fwdelta.Engine.Accept.{RuleModel, ContentKey, forward, forward_model, cover, backward, analyse}
use fwdelta.Engine.Accept.Semantics.{hits, WellFormedRules}
use fwdelta.Engine.Accept.ForwardPass.{
  Saturated, eval-cover, cover-Saturated, eval-effective, forward_model-Modelled,
}

module _ ⦃lib : BddLib⦄ where
  open lib use {Bdd, eval, is_false}

  -- What a rule's model says of one valuation; `seen` tells if an earlier rule matches its packet.
  pub record Stage (t : SymbolTable) (p : Values) (v : Valuation) (seen : Bool) (r : Rule)
      (m : RuleModel Bdd) : Type 0 where
    pub number : m.number ≡ r.number
    pub action : m.action ≡ r.action
    pub effective : eval m.effective v ≡ (not seen && hits t p r)
    pub shadowed : m.shadowed ≡ is_false m.effective

  -- The models stand for the rules, in order.
  abbrev pub Staged :
      SymbolTable → Values → Valuation → Bool → List Rule → List (RuleModel Bdd) → Type 0
  Staged t p v seen [] [] = Unit
  Staged t p v seen [] (m ∷ ms) = ⊥
  Staged t p v seen (r ∷ rs) [] = ⊥
  Staged t p v seen (r ∷ rs) (m ∷ ms) =
      Stage t p v seen r m × Staged t p v (seen || hits t p r) rs ms

  -- The backward pass marks redundancy alone.
  backward-Staged :
      (t : SymbolTable) (p : Values) (v : Valuation) (seen : Bool) (rs : List Rule)
      (ms : List (RuleModel Bdd)) (suffix : Bdd)
      → Staged t p v seen rs ms
      → Staged t p v seen rs (backward ms suffix).models
  unfolding backward
  backward-Staged t p v seen [] [] suffix h = tt
  backward-Staged t p v seen [] (m ∷ ms) suffix h = elim h [ ]
  backward-Staged t p v seen (r ∷ rs) [] suffix h = elim h [ ]
  backward-Staged t p v seen (r ∷ rs) (m ∷ ms) suffix h = (
    record {
      number = h.0.number;
      action = h.0.action;
      effective = h.0.effective;
      shadowed = h.0.shadowed;
    },
    backward-Staged t p v (seen || hits t p r) rs ms suffix h.1,
  )

module _ ⦃lib : BddLib⦄ (l : Layout) (t : SymbolTable) (key : ContentKey) where
  open lib use {Bdd, mk_true, mk_false, eval, eval-mk_false, is_true}

  forward_model-Stage :
      (r : Rule) (covered : Bdd) (sat : Bool) (v : Valuation) (seen : Bool)
      → WellFormedRules (r ∷ [])
      → Saturated l t key covered sat
      → eval covered v ≡ seen
      → Stage t (field l v) v seen r (forward_model l t key r covered sat)
  forward_model-Stage r covered sat v seen w s e =
      let m = forward_model-Modelled l t key r covered sat in
      record {
        number = m.number;
        action = m.action;
        effective =
            ground
              (arith, eval-effective l t key r covered sat v s, eval-match_bdd l v r.matches t w.0);
        shadowed = m.shadowed;
      }

  forward-Staged :
      (rs : List Rule) (covered : Bdd) (sat : Bool) (v : Valuation) (seen : Bool)
      → WellFormedRules rs
      → Saturated l t key covered sat
      → eval covered v ≡ seen
      → Staged t (field l v) v seen rs (forward l t key rs covered sat).models
  unfolding forward
  forward-Staged [] covered sat v seen w s e = tt
  forward-Staged (r ∷ rs) covered sat v seen w s e = (
    forward_model-Stage r covered sat v seen (w.0, tt) s e,
    forward-Staged rs (cover l t r covered sat) _ v (seen || hits t (field l v) r) w.1
        (cover-Saturated l t key r covered sat s)
        (ground (arith, eval-cover l t key r covered sat v s, eval-match_bdd l v r.matches t w.0)),
  )

  pub analyse-Staged :
      (c : Chain) (v : Valuation)
      → WellFormedRules c.rules
      → Staged t (field l v) v false c.rules (analyse l t key c).rules
  unfolding analyse
  analyse-Staged c v w =
      backward-Staged t (field l v) v false c.rules _ _
        (forward-Staged c.rules mk_false false v false w (λ h. absurd (cc)) (eval-mk_false v))
