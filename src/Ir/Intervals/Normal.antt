-- ===== src/Ir/Intervals/Normal.antt =====
-- The canonical form of crates/ir/src/intervals.rs, and that building a set establishes it.
use native.Mathlib.Nat.{pow-le-pow_right}
use fwdelta.Prelude.{ℕ, ◌+◌, ◌≤◌, List, [], ◌∷◌, arith, ◌<◌, ltb, if◌then◌else◌}
use fwdelta.Ir.Intervals.{
  Span, IntervalSet, u64_max, domain_max, retain, clamp, insert, sort, coalesce_from, coalesce,
  from_ranges,
}

-- The ranges start at `from` or later, each is non-empty and ends at `m` at the latest, and between
-- two there is a value of neither.
abbrev pub Canonical : ℕ → ℕ → List Span → Type 0
Canonical from m [] = Unit
Canonical from m ((lo, hi) ∷ rs) = (from ≤ lo) × (lo ≤ hi) × (hi ≤ m) × Canonical (hi + 2) m rs

abbrev pub IsCanonical : IntervalSet → Type 0
IsCanonical s = Canonical 0 (domain_max s.bits) s.ranges

-- Non-empty ranges inside the domain.
abbrev pub Inside : ℕ → List Span → Type 0
Inside m [] = Unit
Inside m ((lo, hi) ∷ rs) = (lo ≤ hi) × (hi ≤ m) × Inside m rs

-- Non-empty ranges inside the domain, in the order of their starts.
abbrev pub Ascending : ℕ → ℕ → List Span → Type 0
Ascending b m [] = Unit
Ascending b m ((lo, hi) ∷ rs) = (b ≤ lo) × (lo ≤ hi) × (hi ≤ m) × Ascending lo m rs

pub domain_max-le : (bits : ℕ) → domain_max bits ≤ u64_max
unfolding domain_max
domain_max-le bits = ground (arith, pow-le-pow_right two_pos {i = bits} {j = 64})
  where
    two_pos : 0 < 2
    two_pos = omega arith

pub Canonical-weaken : (a b m : ℕ) (rs : List Span) → a ≤ b → Canonical b m rs → Canonical a m rs
Canonical-weaken a b m [] h c = tt
Canonical-weaken a b m ((lo, hi) ∷ rs) h c = (omega arith, c.1, c.2, c.3)

pub Inside-clamp-retain : (m : ℕ) (rs : List Span) → Inside m (clamp m (retain rs))
unfolding clamp retain
Inside-clamp-retain m [] = tt
Inside-clamp-retain m ((lo, hi) ∷ rs) = ground (arith, Inside-clamp-retain m rs)

pub Ascending-weaken : (a b m : ℕ) (rs : List Span) → a ≤ b → Ascending b m rs → Ascending a m rs
Ascending-weaken a b m [] h c = tt
Ascending-weaken a b m ((lo, hi) ∷ rs) h c = (omega arith, c.1, c.2, c.3)

insert-Ascending :
    (b m lo hi : ℕ) (rs : List Span)
    → b ≤ lo
    → lo ≤ hi
    → hi ≤ m
    → Ascending b m rs
    → Ascending b m (insert (lo, hi) rs)
unfolding insert
insert-Ascending b m lo hi [] p q r c = (p, q, r, tt)
insert-Ascending b m lo hi ((x, y) ∷ rs) p q r c = ground (arith, insert-Ascending x m lo hi rs)

pub sort-Ascending : (m : ℕ) (rs : List Span) → Inside m rs → Ascending 0 m (sort rs)
unfolding sort
sort-Ascending m [] c = tt
sort-Ascending m ((lo, hi) ∷ rs) c =
    insert-Ascending 0 m lo hi (sort rs) (omega arith) c.0 c.1 (sort-Ascending m rs c.2)

coalesce_from-Canonical :
    (from m l h : ℕ) (rs : List Span)
    → m ≤ u64_max
    → from ≤ l
    → l ≤ h
    → h ≤ m
    → Ascending l m rs
    → Canonical from m (coalesce_from l h rs)
unfolding coalesce_from
coalesce_from-Canonical from m l h [] u p q r c = (p, q, r, tt)
coalesce_from-Canonical from m l h ((lo, hi) ∷ rs) u p q r c = ground (
  arith,
  Ascending-weaken l lo m rs,
  coalesce_from-Canonical from m l (if ltb h hi then hi else h) rs u,
  coalesce_from-Canonical (h + 2) m lo hi rs u,
)

coalesce-Canonical :
    (m : ℕ) (rs : List Span) → m ≤ u64_max → Ascending 0 m rs → Canonical 0 m (coalesce rs)
unfolding coalesce
coalesce-Canonical m [] u c = tt
coalesce-Canonical m ((lo, hi) ∷ rs) u c = coalesce_from-Canonical 0 m lo hi rs u c.0 c.1 c.2 c.3

-- Whatever ranges it is given, `from_ranges` returns a canonical set of the same width.
pub from_ranges-IsCanonical : (bits : ℕ) (rs : List Span) → IsCanonical (from_ranges bits rs)
unfolding from_ranges
from_ranges-IsCanonical bits rs =
    coalesce-Canonical (domain_max bits) _ (domain_max-le bits)
      (sort-Ascending (domain_max bits) _ (Inside-clamp-retain (domain_max bits) rs))
