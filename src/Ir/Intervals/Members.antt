-- ===== src/Ir/Intervals/Members.antt =====
-- Which values the sets of crates/ir/src/intervals.rs hold: building, union, and equality.
use fwdelta.Prelude.{
  ℕ, ◌+◌, ◌≤◌, ◌≡◌, refl, ap, sym, subst, Bool, true, ◌||◌, List, [], ◌∷◌, ◌++◌, arith, any, ltb,
  any-append, if◌then◌else◌, ◌∙◌,
}
use fwdelta.Ir.Intervals.{
  Span, IntervalSet, u64_max, domain_max, retain, clamp, insert, sort, coalesce_from, coalesce,
  from_ranges, union, span_has, contains,
}
use fwdelta.Ir.Intervals.Normal.{
  Canonical, IsCanonical, Ascending, Ascending-weaken, from_ranges-IsCanonical, domain_max-le,
  sort-Ascending, Inside-clamp-retain,
}

abbrev pub has : ℕ → List Span → Bool
has v rs = any (span_has v) rs

-- Every range starts inside the domain.
abbrev pub StartsInside : ℕ → List Span → Type 0
StartsInside m [] = Unit
StartsInside m ((lo, hi) ∷ rs) = (lo ≤ m) × StartsInside m rs

has-clamp-retain :
    (m v : ℕ) (rs : List Span) → v ≤ m → StartsInside m rs → has v (clamp m (retain rs)) ≡ has v rs
unfolding clamp retain
has-clamp-retain m v [] h s = refl
has-clamp-retain m v ((lo, hi) ∷ rs) h s = ground (arith, has-clamp-retain m v rs)

has-insert : (v : ℕ) (s : Span) (rs : List Span) → has v (insert s rs) ≡ (span_has v s || has v rs)
unfolding insert
has-insert v s [] = refl
has-insert v s (t ∷ ts) = ground (arith, has-insert v s ts)

has-sort : (v : ℕ) (rs : List Span) → has v (sort rs) ≡ has v rs
unfolding sort
has-sort v [] = refl
has-sort v (s ∷ ss) = has-insert v s (sort ss) ∙ ap (λ b. span_has v s || b) (has-sort v ss)

has-coalesce_from :
    (m v l h : ℕ) (rs : List Span)
    → m ≤ u64_max
    → l ≤ h
    → h ≤ m
    → Ascending l m rs
    → has v (coalesce_from l h rs) ≡ (span_has v (l, h) || has v rs)
unfolding coalesce_from
has-coalesce_from m v l h [] u p q c = refl
has-coalesce_from m v l h ((lo, hi) ∷ rs) u p q c = ground (
  arith,
  Ascending-weaken l lo m rs,
  has-coalesce_from m v l (if ltb h hi then hi else h) rs u,
  has-coalesce_from m v lo hi rs u,
)

has-coalesce :
    (m v : ℕ) (rs : List Span) → m ≤ u64_max → Ascending 0 m rs → has v (coalesce rs) ≡ has v rs
unfolding coalesce
has-coalesce m v [] u c = refl
has-coalesce m v ((lo, hi) ∷ rs) u c = has-coalesce_from m v lo hi rs u c.1 c.2 c.3

-- A value of the domain is in a set built from ranges exactly when one of the ranges has it, in any
-- order and however they overlap, if each range starts inside the domain.
pub contains-from_ranges :
    (bits v : ℕ) (rs : List Span)
    → v ≤ domain_max bits
    → StartsInside (domain_max bits) rs
    → contains (from_ranges bits rs) v ≡ any (span_has v) rs
unfolding from_ranges contains
contains-from_ranges bits v rs h s =
    has-coalesce (domain_max bits) v _ (domain_max-le bits)
      (sort-Ascending (domain_max bits) _ (Inside-clamp-retain (domain_max bits) rs))
    ∙ has-sort v _
    ∙ has-clamp-retain (domain_max bits) v rs h s

Canonical-StartsInside : (b m : ℕ) (rs : List Span) → Canonical b m rs → StartsInside m rs
Canonical-StartsInside b m [] c = tt
Canonical-StartsInside b m ((lo, hi) ∷ rs) c =
    (omega arith, Canonical-StartsInside (hi + 2) m rs c.3)

StartsInside-append :
    (m : ℕ) (rs ss : List Span) → StartsInside m rs → StartsInside m ss → StartsInside m (rs ++ ss)
StartsInside-append m [] ss h k = k
StartsInside-append m (r ∷ rs) ss h k = (h.0, StartsInside-append m rs ss h.1 k)

-- The value of a canonical set is in the domain.
pub has-le : (b m v : ℕ) (rs : List Span) → Canonical b m rs → has v rs ≡ true → (b ≤ v) × (v ≤ m)
has-le b m v [] c h = cc
has-le b m v ((lo, hi) ∷ rs) c h = ground (arith, has-le (hi + 2) m v rs c.3)

contains_lem : (s : IntervalSet) (v : ℕ) → contains s v ≡ has v s.ranges
unfolding contains
contains_lem s v = refl

-- The union of two sets of one width is canonical and holds exactly the values of either.
pub contains-union :
    (s t : IntervalSet) (v : ℕ)
    → IsCanonical s
    → IsCanonical t
    → s.bits ≡ t.bits
    → IsCanonical (union s t) × (contains (union s t) v ≡ (contains s v || contains t v))
unfolding union
contains-union s t v cs ct e =
    let m = domain_max s.bits in
    let ct' : Canonical 0 m t.ranges =
      subst (λ b. Canonical 0 (domain_max b) t.ranges) (sym e) ct in
    let both : List Span = s.ranges ++ t.ranges in
    let cu : Canonical 0 m (from_ranges s.bits both).ranges = from_ranges-IsCanonical s.bits both in
    let starts : StartsInside m both =
      StartsInside-append m s.ranges t.ranges (Canonical-StartsInside 0 m s.ranges cs)
        (Canonical-StartsInside 0 m t.ranges ct') in
    (
      cu,
      ground (
        arith,
        contains_lem s v,
        contains_lem t v,
        contains_lem (from_ranges s.bits both) v,
        contains-from_ranges s.bits v both,
        starts,
        any-append (span_has v) s.ranges t.ranges,
        has-le 0 m v s.ranges cs,
        has-le 0 m v t.ranges ct',
        has-le 0 m v (from_ranges s.bits both).ranges cu,
      ),
    )
