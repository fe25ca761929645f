-- ===== src/Engine/Diff/Changes.antt =====
-- The attribution of a delta of crates/engine/src/diff.rs to the rules that decide it.
use mathlib.Core.List.{append_assoc, append-nil}
use fwdelta.Prelude.{
  ℕ, ◌+◌, ◌≤◌, ◌≡◌, refl, ◌∙◌, ap, sym, Bool, true, false, List, [], ◌∷◌, ◌++◌, map, arith,
  if◌then◌else◌, Bool-cases, inl, inr, subst, if_cong, leb, length, length-append,
}
use fwdelta.Ir.Interface.{SymbolTable}
use fwdelta.Ir.Rule.{Chain}
use fwdelta.Engine.Bdd.{BddLib, Valuation}
use fwdelta.Engine.Header.{VarOrder, new}
use fwdelta.Engine.Header.Matches.{Values}
use fwdelta.Engine.Header.Encode.{InRange, encode}
use fwdelta.Engine.Accept.{Decider, ChainModel, ContentKey, analyse, Cell}
use fwdelta.Engine.Accept
use fwdelta.Engine.Accept.Semantics.{WellFormedRules}
use fwdelta.Engine.Accept.Cells.{decider, owners}
use fwdelta.Engine.Accept.SelfCheck.{attribute_exact}
use fwdelta.Engine.Diff.{Attribution, Parts, attribute_inner, attribute_outer, attribute}

abbrev pub Change : Type 0
Change = Decider × Decider

abbrev one_change : Bool → Change → List Change → List Change
one_change b c cs = if b then c ∷ cs else cs

lt_of_not_leb : (a b : ℕ) → leb a b ≡ false → b + 1 ≤ a
lt_of_not_leb a b h = ground arith

module _ ⦃lib : BddLib⦄ where
  open lib use {Bdd, eval, is_false, is_false_iff}

  -- The deciders of the parts that hold a valuation.
  abbrev pub changes : Valuation → List (Attribution Bdd) → List Change
  changes v [] = []
  changes v (a ∷ xs) = one_change (eval a.set v) (a.was, a.now) (changes v xs)

  changes-append :
      (v : Valuation) (xs ys : List (Attribution Bdd))
      → changes v (xs ++ ys) ≡ changes v xs ++ changes v ys
  changes-append v [] ys = refl
  changes-append v (a ∷ xs) ys = ground (arith, changes-append v xs ys)

  abbrev below : Decider → List Decider → List Change
  below was ds = map (λ d. (was, d)) ds

  append_one :
      (xs : List Change) (b : Bool) (was now : Decider) (ds : List Decider)
      → (xs ++ one_change b (was, now) []) ++ below was ds
        ≡ xs ++ below was (if b then now ∷ ds else ds)
  append_one xs true was now ds = append_assoc xs ((was, now) ∷ []) (below was ds)
  append_one xs false was now ds = ap (λ zs. zs ++ below was ds) (append-nil xs)

  -- A loop that goes on was not stopped by the cap.
  not_capped :
      (stop : Bool) (stopped rest : Parts ⦃lib = lib⦄)
      → stopped.capped ≡ true
      → (if stop then stopped else rest).capped ≡ false
      → (if stop then stopped else rest) ≡ rest
  not_capped true stopped rest c h = absurd (cc)
  not_capped false stopped rest c h = refl

  changes-attribute_inner :
      (cap : ℕ) (was : Decider) (v : Valuation) (cells : List (Cell ⦃lib = lib⦄))
      (out : List (Attribution Bdd))
      → (attribute_inner cap was cells out).capped ≡ false
      → changes v (attribute_inner cap was cells out).out
        ≡ changes v out ++ below was (owners v cells)
  unfolding attribute_inner
  changes-attribute_inner cap was v [] out h = sym (append-nil (changes v out))
  changes-attribute_inner cap was v ((now, both) ∷ cells) out h =
      let part : Attribution Bdd = record { was = was; now = now; set = both } in
      let go =
        not_capped (leb cap (length out)) (record { out = out; capped = true })
          (attribute_inner cap was cells (out ++ part ∷ [])) refl h in
      ap (λ q. changes v q.out) go
      ∙ changes-attribute_inner cap was v cells (out ++ part ∷ []) (ap (λ q. q.capped) (sym go) ∙ h)
      ∙ ap (λ cs. cs ++ below was (owners v cells)) (changes-append v out (part ∷ []))
      ∙ append_one (changes v out) (eval both v) was now (owners v cells)

  -- Neither loop lets the list outgrow the cap.
  length-attribute_inner :
      (cap : ℕ) (was : Decider) (cells : List (Cell ⦃lib = lib⦄)) (out : List (Attribution Bdd))
      → length out ≤ cap
      → length (attribute_inner cap was cells out).out ≤ cap
  unfolding attribute_inner
  length-attribute_inner cap was [] out h = h
  length-attribute_inner cap was ((now, both) ∷ cells) out h =
      let part : Attribution Bdd = record { was = was; now = now; set = both } in
      elim (Bool-cases (leb cap (length out))) [
        | inl e ↦ rw (e) h
        | inr e ↦ rw (e) (
            length-attribute_inner cap was cells (out ++ part ∷ [])
              (rw (length-append out (part ∷ [])) (lt_of_not_leb cap (length out) e)))
      ]

  length-attribute_outer :
      (head : ChainModel Bdd) (cap : ℕ) (cells : List (Cell ⦃lib = lib⦄))
      (out : List (Attribution Bdd))
      → length out ≤ cap
      → length (attribute_outer head cap cells out).out ≤ cap
  unfolding attribute_outer
  length-attribute_outer head cap [] out h = h
  length-attribute_outer head cap ((was, part) ∷ cells) out h =
      let inner = attribute_inner cap was (Accept.attribute head part) out in
      let k = length-attribute_inner cap was (Accept.attribute head part) out h in
      elim (Bool-cases inner.capped) [
        | inl e ↦ rw (e) k
        | inr e ↦ rw (e) (length-attribute_outer head cap cells inner.out k)
      ]

  not_stopped :
      (stopped rest : Parts ⦃lib = lib⦄)
      → (if stopped.capped then stopped else rest).capped ≡ false
      → (stopped.capped ≡ false) × ((if stopped.capped then stopped else rest) ≡ rest)
  not_stopped stopped rest h = elim (Bool-cases stopped.capped) [
    | inl e ↦ absurd (cc (e, subst (λ b. (if b then stopped else rest).capped ≡ false) e h))
    | inr e ↦ (e, rw (e) refl)
  ]

  append_cell :
      (xs : List Change) (b : Bool) (was now : Decider) (ds : List Decider)
      → (xs ++ below was (if b then now ∷ [] else [])) ++ map (λ d. (d, now)) ds
        ≡ xs ++ map (λ d. (d, now)) (if b then was ∷ ds else ds)
  append_cell xs true was now ds = append_assoc xs ((was, now) ∷ []) (map (λ d. (d, now)) ds)
  append_cell xs false was now ds = ap (λ zs. zs ++ map (λ d. (d, now)) ds) (append-nil xs)

  changes-attribute_outer :
      (head : ChainModel Bdd) (cap : ℕ) (v : Valuation) (now : Decider)
      (cells : List (Cell ⦃lib = lib⦄)) (out : List (Attribution Bdd))
      → ((part : Bdd)
          → owners v (Accept.attribute head part) ≡ (if eval part v then now ∷ [] else []))
      → (attribute_outer head cap cells out).capped ≡ false
      → changes v (attribute_outer head cap cells out).out
        ≡ changes v out ++ map (λ d. (d, now)) (owners v cells)
  unfolding attribute_outer
  changes-attribute_outer head cap v now [] out f h = sym (append-nil (changes v out))
  changes-attribute_outer head cap v now ((was, part) ∷ cells) out f h =
      let inner = attribute_inner cap was (Accept.attribute head part) out in
      let (e, go) = not_stopped inner (attribute_outer head cap cells inner.out) h in
      ap (λ q. changes v q.out) go
      ∙ changes-attribute_outer head cap v now cells inner.out f (ap (λ q. q.capped) (sym go) ∙ h)
      ∙ ap (λ cs. cs ++ map (λ d. (d, now)) (owners v cells))
          (changes-attribute_inner cap was v (Accept.attribute head part) out e
            ∙ ap (λ ds. changes v out ++ below was ds) (f part))
      ∙ append_cell (changes v out) (eval part v) was now (owners v cells)

  -- The parts of an attribution never outnumber the cap.
  pub length-attribute :
      (base head : ChainModel Bdd) (delta : Bdd) (cap : ℕ)
      → length (attribute base head delta cap).out ≤ cap
  unfolding attribute
  length-attribute base head delta cap = elim (Bool-cases (is_false delta)) [
    | inl e ↦ rw (e) (omega arith)
    | inr e ↦
        rw (e) (length-attribute_outer head cap (Accept.attribute base delta) [] (omega arith))
  ]

  changes-attribute :
      (base head : ChainModel Bdd) (delta : Bdd) (cap : ℕ) (v : Valuation) (was now : Decider)
      → ((set : Bdd) → owners v (Accept.attribute base set) ≡ (if eval set v then was ∷ [] else []))
      → ((set : Bdd) → owners v (Accept.attribute head set) ≡ (if eval set v then now ∷ [] else []))
      → (attribute base head delta cap).capped ≡ false
      → changes v (attribute base head delta cap).out
        ≡ (if eval delta v then (was, now) ∷ [] else [])
  unfolding attribute
  changes-attribute base head delta cap v was now f g h = elim (Bool-cases (is_false delta)) [
    | inl e ↦ rw (e, (is_false_iff delta).0 e v) refl
    | inr e ↦ rw (e) (
        changes-attribute_outer head cap v now (Accept.attribute base delta) [] g (
          subst
            (λ b.
              (if b
                then record { out = []; capped = false }
                else attribute_outer head cap (Accept.attribute base delta) []).capped
              ≡ false)
            e h)
        ∙ ap (map (λ d. (d, now))) (f delta)
        ∙ if_cong (map (λ d. (d, now))) (eval delta v) refl refl)
  ]

module _ ⦃lib : BddLib⦄ (o : VarOrder) (t : SymbolTable) (key : ContentKey) (base head : Chain)
    (wb : WellFormedRules base.rules) (wh : WellFormedRules head.rules) where
  open lib use {Bdd, eval, is_false, is_false_iff}

  -- For two revisions of a chain whose matches are well-formed, if the attribution of a set was not
  -- cut at the cap, a packet of the set whose values fit their fields is in exactly one part, the one
  -- that names what decides it in the base and what decides it in the head; a packet outside the set
  -- is in no part.
  pub attribution_exact :
      (delta : Bdd) (cap : ℕ) (p : Values)
      → InRange p
      → (attribute (analyse (new o) t key base) (analyse (new o) t key head) delta cap).capped
        ≡ false
      → changes
          (encode o p)
          (attribute (analyse (new o) t key base) (analyse (new o) t key head) delta cap).out
        ≡ (if eval delta (encode o p)
            then (decider t base.rules p, decider t head.rules p) ∷ []
            else [])
  attribution_exact delta cap p h k =
      changes-attribute _ _ delta cap (encode o p) (decider t base.rules p) (decider t head.rules p)
        (λ set. attribute_exact o t key base wb set p h)
        (λ set. attribute_exact o t key head wh set p h) k
