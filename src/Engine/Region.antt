-- ===== src/Engine/Region.antt =====
-- crates/engine/src/region.rs: rectangles of packets, and their merging.
pub mod Compare
pub mod Once
pub mod Packets
pub mod Union
pub mod Diagram
use fwdelta.Prelude.{
  ℕ, zero, suc, ◌+◌, ◌*◌, Bool, true, false, ◌||◌, List, [], ◌∷◌, ltb, ◌==◌, if◌then◌else◌, length,
  any, all,
}
use fwdelta.Ir.Field.{Field, all_fields, bits, field_eq}
use fwdelta.Ir.Intervals.{IntervalSet, Span, full, is_empty, is_full, count, union}
use fwdelta.Engine.Bdd.{BddLib}
use fwdelta.Engine.Header.{Layout, set}

-- The array of seven sets, one for each field.
abbrev pub Region : Type 0
Region = Field → IntervalSet

-- `Region::full`
abbrev pub full_region : Region
full_region f = full (bits f)

-- `Region::with`, and the assignment through `dim_mut`.
abbrev pub with : Region → Field → IntervalSet → Region
with r f s g = if field_eq f g then s else r g

unfoldable pub region_is_empty : Region → Bool
region_is_empty r = any (λ f. is_empty (r f)) all_fields

unfoldable pub product : Region → List Field → ℕ
product r [] = 1
product r (f ∷ fs) = count (r f) * product r fs

-- `Region::count`
unfoldable pub region_count : Region → ℕ
unfolding region_is_empty product
region_count r = if region_is_empty r then 0 else product r all_fields

unfoldable pub constrained : Region → List Field → ℕ
constrained r [] = 0
constrained r (f ∷ fs) = (if is_full (r f) then 0 else 1) + constrained r fs

unfoldable pub constrained_dims : Region → ℕ
unfolding constrained
constrained_dims r = constrained r all_fields

-- The derived order: `lt`, `eq` or `gt` of numbers, then of what comes after.
pub data Order : Type 0 where
  less equal greater : Order

abbrev pub then_by : Order → Order → Order
then_by less next = less
then_by equal next = next
then_by greater next = greater

abbrev pub cmp_number : ℕ → ℕ → Order
cmp_number a b = if ltb a b then less else if a == b then equal else greater

unfoldable pub cmp_ranges : List Span → List Span → Order
cmp_ranges [] [] = equal
cmp_ranges [] (t ∷ ts) = less
cmp_ranges (s ∷ ss) [] = greater
cmp_ranges (s ∷ ss) (t ∷ ts) =
    then_by (cmp_number s.0 t.0) (then_by (cmp_number s.1 t.1) (cmp_ranges ss ts))

unfoldable pub cmp_set : IntervalSet → IntervalSet → Order
unfolding cmp_ranges
cmp_set s t = then_by (cmp_number s.bits t.bits) (cmp_ranges s.ranges t.ranges)

unfoldable pub cmp_fields : List Field → Region → Region → Order
unfolding cmp_set
cmp_fields [] r q = equal
cmp_fields (f ∷ fs) r q = then_by (cmp_set (r f) (q f)) (cmp_fields fs r q)

abbrev pub is_equal : Order → Bool
is_equal equal = true
is_equal _ = false

abbrev pub is_greater : Order → Bool
is_greater greater = true
is_greater _ = false

unfoldable pub retain : List Region → List Region
unfolding region_is_empty
retain [] = []
retain (r ∷ rs) = let rest = retain rs in if region_is_empty r then rest else r ∷ rest

-- `sort_unstable`: equal regions are indistinguishable.
unfoldable pub insert : Region → List Region → List Region
unfolding cmp_fields
insert r [] = r ∷ []
insert r (q ∷ qs) = if is_greater (cmp_fields all_fields r q) then q ∷ insert r qs else r ∷ q ∷ qs

unfoldable pub sort : List Region → List Region
unfolding insert
sort [] = []
sort (r ∷ rs) = insert r (sort rs)

-- `dedup`, with the region last kept in hand.
unfoldable pub dedup_from : Region → List Region → List Region
unfolding cmp_fields
dedup_from r [] = r ∷ []
dedup_from r (q ∷ qs) = elim (is_equal (cmp_fields all_fields q r)) [
  | true ↦ dedup_from r qs
  | false ↦ r ∷ dedup_from q qs
]

unfoldable pub dedup : List Region → List Region
unfolding dedup_from
dedup [] = []
dedup (r ∷ rs) = dedup_from r rs

-- The keys are equal: the other dimensions agree.
unfoldable pub same_key : Field → Region → Region → Bool
unfolding cmp_set
same_key d r q = all (λ f. field_eq f d || is_equal (cmp_set (r f) (q f))) all_fields

-- The round of `merge_along` for one region: the kept regions have different keys, so the entry of
-- the map is the one with this key. Merging changes dimension `d` alone and leaves the keys as they
-- are.
unfoldable pub absorb : Field → Region → List Region → List Region
unfolding same_key
absorb d r [] = r ∷ []
absorb d r (q ∷ qs) =
    if same_key d q r then with q d (union (q d) (r d)) ∷ qs else q ∷ absorb d r qs

unfoldable pub merge_loop : Field → List Region → List Region → List Region
unfolding absorb
merge_loop d [] out = out
merge_loop d (r ∷ rs) out = merge_loop d rs (absorb d r out)

unfoldable pub merge_along : List Region → Field → List Region
unfolding merge_loop
merge_along regions d = merge_loop d regions []

unfoldable pub merge_dims : List Field → List Region → List Region
unfolding merge_along
merge_dims [] regions = regions
merge_dims (d ∷ ds) regions = merge_dims ds (merge_along regions d)

-- The passes, with the `break` when the number of regions does not change.
unfoldable pub merge_passes : ℕ → List Region → List Region
unfolding merge_dims
merge_passes zero regions = regions
merge_passes (suc n) regions =
    let after = merge_dims all_fields regions in
    let rest = merge_passes n after in if length after == length regions then after else rest

unfoldable pub merge : List Region → ℕ → List Region
unfolding retain sort dedup merge_passes
merge regions max_passes = merge_passes max_passes (dedup (sort (retain regions)))

module _ ⦃lib : BddLib⦄ where
  open lib use {Bdd, mk_true, and}

  -- The loop of `Region::to_bdd`.
  unfoldable pub bdd_loop : Layout → Region → List Field → Bdd → Bdd
  bdd_loop l r [] acc = acc
  bdd_loop l r (f ∷ fs) acc = bdd_loop l r fs (and acc (set l f (r f)))

  unfoldable pub to_bdd : Layout → Region → Bdd
  unfolding bdd_loop
  to_bdd l r = bdd_loop l r all_fields mk_true
