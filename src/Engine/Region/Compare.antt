-- ===== src/Engine/Region/Compare.antt =====
-- The derived order of regions in crates/engine/src/region.rs finds equal sets equal.
use fwdelta.Prelude.{ℕ, ◌≡◌, refl, ap₂, true, ◌&&◌, List, [], ◌∷◌, arith, all}
use fwdelta.Ir.Field.{Field}
use fwdelta.Ir.Intervals.{IntervalSet, Span, contains}
use fwdelta.Engine.Header.Matches.{Values}
use fwdelta.Engine.Region.{
  Region, Order, less, equal, greater, then_by, cmp_number, cmp_ranges, cmp_set, cmp_fields,
  is_equal,
}

is_equal-then_by : (a b : Order) → is_equal (then_by a b) ≡ is_equal a && is_equal b
is_equal-then_by less b = refl
is_equal-then_by equal b = refl
is_equal-then_by greater b = refl

cmp_number_lem : (a b : ℕ) → is_equal (cmp_number a b) ≡ true → a ≡ b
cmp_number_lem a b h = ground (arith)

cmp_ranges_lem : (ss ts : List Span) → is_equal (cmp_ranges ss ts) ≡ true → ss ≡ ts
unfolding cmp_ranges
cmp_ranges_lem [] [] h = refl
cmp_ranges_lem [] (t ∷ ts) h = absurd (cc (h))
cmp_ranges_lem (s ∷ ss) [] h = absurd (cc (h))
cmp_ranges_lem ((a, b) ∷ ss) ((c, d) ∷ ts) h =
    let outer = is_equal-then_by (cmp_number a c) (then_by (cmp_number b d) (cmp_ranges ss ts)) in
    let inner = is_equal-then_by (cmp_number b d) (cmp_ranges ss ts) in
    let lo : a ≡ c = cmp_number_lem a c (ground arith) in
    let hi : b ≡ d = cmp_number_lem b d (ground arith) in
    let rest : ss ≡ ts = cmp_ranges_lem ss ts (ground arith) in
    ap₂ (λ (x : Span) (xs : List Span). x ∷ xs) (ap₂ (λ (x y : ℕ). (x, y)) lo hi) rest

-- Equal sets have the same values.
pub contains-cmp_set :
    (s t : IntervalSet) (v : ℕ) → is_equal (cmp_set s t) ≡ true → contains s v ≡ contains t v
unfolding cmp_set contains
contains-cmp_set s t v h =
    let both = is_equal-then_by (cmp_number s.bits t.bits) (cmp_ranges s.ranges t.ranges) in
    let same : s.ranges ≡ t.ranges = cmp_ranges_lem s.ranges t.ranges (ground arith) in
    rw (same) refl

pub all-cmp_fields :
    (fs : List Field) (r q : Region) (p : Values)
    → is_equal (cmp_fields fs r q) ≡ true
    → all (λ f. contains (r f) (p f)) fs ≡ all (λ f. contains (q f) (p f)) fs
unfolding cmp_fields
all-cmp_fields [] r q p h = refl
all-cmp_fields (f ∷ fs) r q p h =
    let both = is_equal-then_by (cmp_set (r f) (q f)) (cmp_fields fs r q) in
    ap₂ (λ x y. x && y) (contains-cmp_set (r f) (q f) (p f) (ground arith))
      (all-cmp_fields fs r q p (ground arith))
