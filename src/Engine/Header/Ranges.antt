-- ===== src/Engine/Header/Ranges.antt =====
-- `Layout::range` and `Layout::set` of crates/engine/src/header.rs against the sets of values.
use fwdelta.Prelude.{
  ℕ, ◌+◌, ◌^◌, ◌<◌, ◌≤◌, ◌≡◌, refl, ◌∙◌, ap, ap₂, Bool, true, false, ◌&&◌, ◌||◌, List, [], ◌∷◌,
  arith, leb, ltb, ◌==◌, if◌then◌else◌, if_cong, Bool-cases, inl, inr, sym, subst,
}
use fwdelta.Ir.Field.{Field, src_addr, bits}
use fwdelta.Ir.Intervals.{IntervalSet, Span, domain_max, is_full, contains, span_has}
use fwdelta.Ir.Intervals.Normal.{Canonical}
use fwdelta.Ir.Intervals.Members.{has}
use fwdelta.Ir.Intervals.Equality.{contains-is_full}
use fwdelta.Ir.Rule.WellFormed.{Fits}
use fwdelta.Engine.Bdd.{BddLib, Valuation}
use fwdelta.Engine.Header.{Layout, geq, leq, range, union_of, set}
use fwdelta.Engine.Header.Bits.{eval-geq, eval-leq, field-lt}
use fwdelta.Engine.Packet.{field}

pub domain_max-bits : (f : Field) → domain_max (bits f) + 1 ≡ 2 ^ bits f
unfolding domain_max
domain_max-bits src_addr = refl
domain_max-bits _ = refl

pub field-le : (l : Layout) (v : Valuation) (f : Field) → field l v f ≤ domain_max (bits f)
field-le l v f = omega (arith, field-lt l v f, domain_max-bits f)

-- The four forms of a range test agree with it inside the domain.
range_value :
    (lo hi x m : ℕ)
    → lo ≤ hi
    → hi ≤ m
    → x ≤ m
    → (if ltb hi lo
        then false
        else if lo == 0
        then (if leb m hi then true else leb x hi)
        else if leb m hi
        then leb lo x
        else leb lo x && leb x hi)
      ≡ (leb lo x && leb x hi)
range_value lo hi x m h k j = ground arith

module _ ⦃lib : BddLib⦄ (l : Layout) (v : Valuation) (f : Field) where
  open lib use {eval, eval-mk_true, eval-mk_false, eval-and, eval-or}

  eval-range :
      (lo hi : ℕ)
      → lo ≤ hi
      → hi ≤ domain_max (bits f)
      → eval (range l f lo hi) v ≡ span_has (field l v f) (lo, hi)
  unfolding range
  eval-range lo hi h k =
      if_cong value (ltb hi lo) (eval-mk_false v) (
        if_cong value (lo == 0)
          (if_cong value (leb m hi) (eval-mk_true v) (eval-leq l v f hi hi_fits))
          (if_cong value (leb m hi) (eval-geq l v f lo lo_fits) (
            eval-and (geq l f lo) (leq l f hi) v
            ∙ ap₂ ◌&&◌ (eval-geq l v f lo lo_fits) (eval-leq l v f hi hi_fits))))
      ∙ range_value lo hi (field l v f) m h k (field-le l v f)
    where
      m : ℕ
      m = domain_max (bits f)

      value : lib.Bdd → Bool
      value t = eval t v

      lo_fits : lo < 2 ^ bits f
      lo_fits = omega (arith, domain_max-bits f)

      hi_fits : hi < 2 ^ bits f
      hi_fits = omega (arith, domain_max-bits f)

  eval-union_of :
      (b : ℕ) (rs : List Span) (acc : lib.Bdd)
      → Canonical b (domain_max (bits f)) rs
      → eval (union_of l f rs acc) v ≡ (eval acc v || has (field l v f) rs)
  unfolding union_of
  eval-union_of b [] acc c = ground arith
  eval-union_of b ((lo, hi) ∷ rs) acc c = ground (
    arith,
    eval-union_of (hi + 2) rs (lib.or acc (range l f lo hi)) c.3,
    eval-or acc (range l f lo hi) v,
    eval-range lo hi c.1 c.2,
  )

  -- The diagram of a set of values holds a valuation exactly when the set contains the field's
  -- value under it.
  pub eval-set : (s : IntervalSet) → Fits f s → eval (set l f s) v ≡ contains s (field l v f)
  unfolding set contains
  eval-set s c = elim (Bool-cases (is_full s)) [
    | inl e ↦
        rw e (eval-mk_true v ∙ sym (contains-is_full s (field l v f) e (rw c.1 (field-le l v f))))
    | inr e ↦ rw e (
        eval-union_of 0 s.ranges lib.mk_false
          (subst (λ b. Canonical 0 (domain_max b) s.ranges) c.1 c.0)
        ∙ ap (λ b. b || has (field l v f) s.ranges) (eval-mk_false v))
  ]
