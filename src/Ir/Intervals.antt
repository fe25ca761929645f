-- ===== src/Ir/Intervals.antt =====
-- crates/ir/src/intervals.rs: sets of values of a field, as sorted disjoint inclusive ranges.
-- A `u64` is a number; the additions that could wrap in the source are noted where they stand.
pub mod Normal
pub mod Members
pub mod Sweep
pub mod Complement
pub mod Equality
pub mod Literals
use fwdelta.Prelude.{
  ℕ, ◌+◌, ◌-◌, ◌*◌, ◌/◌, ◌^◌, min, max, Bool, true, false, ◌&&◌, List, [], ◌∷◌, ◌++◌, map, Option,
  none, some, ltb, leb, ◌==◌, if◌then◌else◌, any,
}

abbrev pub Span : Type 0
Span = ℕ × ℕ

pub record IntervalSet : Type 0 where
  pub bits : ℕ
  pub ranges : List Span

-- `u64::MAX`
abbrev pub u64_max : ℕ
u64_max = 2 ^ 64 - 1

unfoldable pub domain_max : ℕ → ℕ
domain_max bits = if leb 64 bits then u64_max else 2 ^ bits - 1

abbrev pub empty : ℕ → IntervalSet
empty bits = record { bits = bits; ranges = [] }

abbrev pub full : ℕ → IntervalSet
full bits = record { bits = bits; ranges = (0, domain_max bits) ∷ [] }

abbrev pub point : ℕ → ℕ → IntervalSet
point bits v = record { bits = bits; ranges = (v, v) ∷ [] }

unfoldable pub range : ℕ → ℕ → ℕ → IntervalSet
range bits lo hi =
    if ltb hi lo
    then empty bits
    else record { bits = bits; ranges = (min lo (domain_max bits), min hi (domain_max bits)) ∷ [] }

-- `ranges.retain(|(lo, hi)| lo <= hi)`
unfoldable pub retain : List Span → List Span
retain [] = []
retain ((lo, hi) ∷ rs) = let rest = retain rs in if leb lo hi then (lo, hi) ∷ rest else rest

-- The clamping loop.
unfoldable pub clamp : ℕ → List Span → List Span
clamp m [] = []
clamp m ((lo, hi) ∷ rs) = (min lo m, min hi m) ∷ clamp m rs

-- The order on pairs by which `sort_unstable` sorts. Equal pairs are indistinguishable, so any
-- sort gives the same list; this one inserts.
abbrev pub span_le : Span → Span → Bool
span_le (a, b) (c, d) = if ltb a c then true else a == c && leb b d

unfoldable pub insert : Span → List Span → List Span
insert s [] = s ∷ []
insert s (t ∷ ts) = if span_le s t then s ∷ t ∷ ts else t ∷ insert s ts

unfoldable pub sort : List Span → List Span
sort [] = []
sort (s ∷ ss) = insert s (sort ss)

abbrev pub saturating_add : ℕ → ℕ → ℕ
saturating_add a b = min (a + b) u64_max

-- The merging loop, with `out.last_mut()` held apart as `(l, h)` and the rest of `out` emitted.
unfoldable pub coalesce_from : ℕ → ℕ → List Span → List Span
coalesce_from l h [] = (l, h) ∷ []
coalesce_from l h ((lo, hi) ∷ rs) = elim (leb lo (saturating_add h 1)) [
  | true ↦ coalesce_from l (if ltb h hi then hi else h) rs
  | false ↦ (l, h) ∷ coalesce_from lo hi rs
]

unfoldable pub coalesce : List Span → List Span
coalesce [] = []
coalesce ((lo, hi) ∷ rs) = coalesce_from lo hi rs

unfoldable pub from_ranges : ℕ → List Span → IntervalSet
from_ranges bits rs = record {
  bits = bits;
  ranges = coalesce (sort (clamp (domain_max bits) (retain rs)));
}

-- The range of `prefix`, for fields narrower than 64 bits. `base | span` is a sum, since `base` ends
-- in `host_bits` zeros.
unfoldable pub prefix_range : ℕ → ℕ → ℕ → IntervalSet
prefix_range bits value len =
    let host_bits = bits - len in
    let base : ℕ = if leb 64 host_bits then 0 else value / 2 ^ host_bits * 2 ^ host_bits in
    let span : ℕ = if leb 64 host_bits then u64_max else 2 ^ host_bits - 1 in
    record { bits = bits; ranges = (base, base + span) ∷ [] }

-- `prefix`, which asserts `len <= bits`: the panic is `none`.
unfoldable pub prefix : ℕ → ℕ → ℕ → Option IntervalSet
unfolding prefix_range
prefix bits value len = elim (ltb bits len) [
  | true ↦ none
  | false ↦ some (prefix_range bits value len)
]

unfoldable pub is_empty : IntervalSet → Bool
is_empty s = elim s.ranges [ [] ↦ true | _ ∷ _ ↦ false ]

unfoldable pub is_full_ranges : ℕ → List Span → Bool
is_full_ranges bits ((lo, hi) ∷ []) = lo == 0 && hi == domain_max bits
is_full_ranges bits _ = false

unfoldable pub is_full : IntervalSet → Bool
unfolding is_full_ranges
is_full s = is_full_ranges s.bits s.ranges

unfoldable pub count_ranges : List Span → ℕ
count_ranges [] = 0
count_ranges ((lo, hi) ∷ rs) = (hi - lo) + 1 + count_ranges rs

unfoldable pub count : IntervalSet → ℕ
unfolding count_ranges
count s = count_ranges s.ranges

abbrev pub span_has : ℕ → Span → Bool
span_has v (lo, hi) = leb lo v && leb v hi

unfoldable pub contains : IntervalSet → ℕ → Bool
contains s v = any (span_has v) s.ranges

unfoldable pub union : IntervalSet → IntervalSet → IntervalSet
unfolding from_ranges
union s t = from_ranges s.bits (s.ranges ++ t.ranges)

-- One step of the two-pointer sweep: push the overlap if it is not empty.
unfoldable pub push_overlap : Span → Span → List Span → List Span
push_overlap (a0, a1) (b0, b1) out =
    if leb (max a0 b0) (min a1 b1) then (max a0 b0, min a1 b1) ∷ out else out

-- The sweep: the pointer whose range ends first moves on.
unfoldable pub sweep : List Span → List Span → List Span
sweep [] ts = []
sweep (a ∷ ss) [] = []
sweep ((a0, a1) ∷ ss) ((b0, b1) ∷ ts) = elim (ltb a1 b1) [
  | true ↦ push_overlap (a0, a1) (b0, b1) (sweep ss ((b0, b1) ∷ ts))
  | false ↦ push_overlap (a0, a1) (b0, b1) (sweep ((a0, a1) ∷ ss) ts)
]

unfoldable pub intersect : IntervalSet → IntervalSet → IntervalSet
unfolding sweep push_overlap
intersect s t = record { bits = s.bits; ranges = sweep s.ranges t.ranges }

-- The gap before a range, if there is one.
abbrev pub push_gap : ℕ → ℕ → List Span → List Span
push_gap cursor lo out = if ltb cursor lo then (cursor, lo - 1) ∷ out else out

-- The loop of `complement`, with its early return at a range that ends at the domain's end.
unfoldable pub gaps : ℕ → ℕ → List Span → List Span
gaps m cursor [] = (cursor, m) ∷ []
gaps m cursor ((lo, hi) ∷ rs) =
    push_gap cursor lo (elim (hi == m) [ true ↦ [] | false ↦ gaps m (hi + 1) rs ])

unfoldable pub complement : IntervalSet → IntervalSet
unfolding gaps
complement s = record { bits = s.bits; ranges = gaps (domain_max s.bits) 0 s.ranges }

unfoldable pub difference : IntervalSet → IntervalSet → IntervalSet
unfolding intersect complement
difference s t = intersect s (complement t)

-- `ranges.last()`, with the first range in hand.
unfoldable pub last_from : Span → List Span → Span
last_from s [] = s
last_from s (t ∷ ts) = last_from t ts

unfoldable pub hull_ranges : List Span → Option Span
unfolding last_from
hull_ranges [] = none
hull_ranges (s ∷ ss) = some (s.0, (last_from s ss).1)

unfoldable pub hull : IntervalSet → Option Span
unfolding hull_ranges
hull s = hull_ranges s.ranges
