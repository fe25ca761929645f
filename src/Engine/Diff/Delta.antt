-- ===== src/Engine/Diff/Delta.antt =====
-- What the delta of crates/engine/src/diff.rs says, packet by packet.
use fwdelta.Prelude.{◌≡◌, ◌∙◌, ap₂, sym, Bool, true, false, ◌&&◌, not, ◌↔◌, arith}
use fwdelta.Ir.Interface.{SymbolTable}
use fwdelta.Ir.Rule.{Chain}
use fwdelta.Engine.Bdd.{BddLib, Valuation}
use fwdelta.Engine.Header.{VarOrder, new}
use fwdelta.Engine.Header.Matches.{Values}
use fwdelta.Engine.Header.Encode.{InRange, encode}
use fwdelta.Engine.Packet.{field}
use fwdelta.Engine.Accept.{ContentKey, analyse}
use fwdelta.Engine.Accept.Semantics.{permitted, WellFormedRules}
use fwdelta.Engine.Accept.Exact.{eval-accept, fields-InRange}
use fwdelta.Engine.Accept.Packets.{accept_exact}
use fwdelta.Engine.Diff.{diff, is_behaviourally_identical}

no_difference : (x y : Bool) → (y && not x) ≡ false → (x && not y) ≡ false → x ≡ y
no_difference x y h k = ground arith

differ_not : (x y : Bool) {e : Bool} → e ≡ (y && not x) → x ≡ y → e ≡ false
differ_not x y h k = ground arith

and_true : (x y : Bool) → x ≡ true → y ≡ true → (x && y) ≡ true
and_true x y h k = ground arith

and_true_left : (x y : Bool) → (x && y) ≡ true → x ≡ true
and_true_left x y h = ground arith

and_true_right : (x y : Bool) → (x && y) ≡ true → y ≡ true
and_true_right x y h = ground arith

module _ ⦃lib : BddLib⦄ where
  open lib use {Bdd, eval, eval-and_not, is_false, is_false_iff, and_not}

  -- Both differences are empty exactly when the diagrams agree.
  no_delta_iff :
      (a b : Bdd)
      → ((is_false (and_not b a) && is_false (and_not a b)) ≡ true)
        ↔ ((v : Valuation) → eval a v ≡ eval b v)
  no_delta_iff a b = (
    (λ e v.
        no_difference (eval a v) (eval b v)
          (sym (eval-and_not b a v) ∙ (is_false_iff (and_not b a)).0 (and_true_left _ _ e) v)
          (sym (eval-and_not a b v) ∙ (is_false_iff (and_not a b)).0 (and_true_right _ _ e) v)),
    λ same.
        and_true _ _
          ((is_false_iff (and_not b a)).1
            (λ v. differ_not (eval a v) (eval b v) (eval-and_not b a v) (same v)))
          ((is_false_iff (and_not a b)).1
            (λ v. differ_not (eval b v) (eval a v) (eval-and_not a b v) (sym (same v)))),
  )

module _ ⦃lib : BddLib⦄ (o : VarOrder) (t : SymbolTable) (key : ContentKey) (base head : Chain)
    (wb : WellFormedRules base.rules) (wh : WellFormedRules head.rules) where
  open lib use {eval, eval-and_not, is_false, is_false_iff, and_not}

  -- For two revisions of a chain whose matches are well-formed, a packet whose values fit their
  -- fields is in the newly allowed set exactly when the head permits it and the base does not, and
  -- in the newly blocked set exactly when the base permits it and the head does not.
  pub delta_exact :
      (p : Values)
      → InRange p
      → (eval
            (diff (analyse (new o) t key base) (analyse (new o) t key head)).newly_allowed
            (encode o p)
          ≡ (permitted t head p && not (permitted t base p)))
        × (eval
              (diff (analyse (new o) t key base) (analyse (new o) t key head)).newly_blocked
              (encode o p)
            ≡ (permitted t base p && not (permitted t head p)))
  unfolding diff
  delta_exact p h =
      let b = accept_exact o t key base wb p h in
      let a = accept_exact o t key head wh p h in
      (
        eval-and_not _ _ (encode o p) ∙ ap₂ (λ x y. x && not y) a b,
        eval-and_not _ _ (encode o p) ∙ ap₂ (λ x y. x && not y) b a,
      )

  -- Two revisions of a chain whose matches are well-formed are reported behaviourally identical
  -- exactly when they give every packet whose values fit their fields the same verdict.
  pub identical_iff :
      (is_behaviourally_identical (diff (analyse (new o) t key base) (analyse (new o) t key head))
        ≡ true)
      ↔ ((p : Values) → InRange p → permitted t base p ≡ permitted t head p)
  unfolding is_behaviourally_identical diff
  identical_iff =
      let a = (analyse (new o) t key base).accept in
      let b = (analyse (new o) t key head).accept in
      (
        (λ e p h.
            sym (accept_exact o t key base wb p h)
            ∙ (no_delta_iff a b).0 e (encode o p)
            ∙ accept_exact o t key head wh p h),
        λ same. (no_delta_iff a b).1 (λ v.
            eval-accept (new o) t key base wb v
            ∙ same (field (new o) v) (fields-InRange (new o) v)
            ∙ sym (eval-accept (new o) t key head wh v)),
      )
