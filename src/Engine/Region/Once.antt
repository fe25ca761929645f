-- ===== src/Engine/Region/Once.antt =====
-- A conjunction over the dimensions in which one dimension is a disjunction.
use fwdelta.Prelude.{
  ◌≡◌, refl, Bool, true, false, ◌||◌, not, List, [], ◌∷◌, arith, all, if◌then◌else◌, Bool-cases,
  inl, inr,
}
use fwdelta.Ir.Field.{
  Field, src_addr, dst_addr, src_port, dst_port, proto, if_in, if_out, all_fields, field_eq,
}

abbrev absent : Field → List Field → Bool
absent d fs = all (λ f. not (field_eq f d)) fs

-- The dimension is there once.
abbrev once : Field → List Field → Bool
once d [] = false
once d (f ∷ fs) = if field_eq f d then absent d fs else once d fs

once-all_fields : (d : Field) → once d all_fields ≡ true
once-all_fields src_addr = refl
once-all_fields dst_addr = refl
once-all_fields src_port = refl
once-all_fields dst_port = refl
once-all_fields proto = refl
once-all_fields if_in = refl
once-all_fields if_out = refl

module _ (d : Field) (a b merged same : Field → Bool)
    (at_d : (f : Field) → merged f ≡ (if field_eq f d then a f || b f else a f))
    (elsewhere : (f : Field) → same f ≡ true → field_eq f d ≡ false → a f ≡ b f) where
  all-absent :
      (fs : List Field)
      → absent d fs ≡ true
      → all (λ f. field_eq f d || same f) fs ≡ true
      → (all merged fs ≡ all a fs) × (all b fs ≡ all a fs)
  all-absent [] h k = (refl, refl)
  all-absent (f ∷ fs) h k =
      let rest = all-absent fs (ground (arith)) (ground (arith)) in
      let here : a f ≡ b f = elsewhere f (ground (arith)) (ground (arith)) in
      let m = at_d f in (ground (arith), ground (arith))

  all-once :
      (fs : List Field)
      → once d fs ≡ true
      → all (λ f. field_eq f d || same f) fs ≡ true
      → all merged fs ≡ (all a fs || all b fs)
  all-once [] h k = absurd (cc (h))
  all-once (f ∷ fs) h k =
      elim (Bool-cases (field_eq f d))
        as (λ x. all merged (f ∷ fs) ≡ (all a (f ∷ fs) || all b (f ∷ fs))) [
          | inl e ↦
              let rest = all-absent fs (ground (arith)) (ground (arith)) in
              let m = at_d f in ground (arith)
          | inr e ↦
              let rest = all-once fs (ground (arith)) (ground (arith)) in
              let here : a f ≡ b f = elsewhere f (ground (arith)) e in
              let m = at_d f in ground (arith)
        ]

  pub all-merged :
      all (λ f. field_eq f d || same f) all_fields ≡ true
      → all merged all_fields ≡ (all a all_fields || all b all_fields)
  all-merged h = all-once all_fields (once-all_fields d) h
