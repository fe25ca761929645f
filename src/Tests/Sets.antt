-- ===== src/Tests/Sets.antt =====
-- Interval sets and interfaces of crates/ir on small inputs.
use fwdelta.Prelude.{
  ℕ, ◌-◌, ◌/◌, ◌^◌, ◌==◌, ◌≤◌, ◌≡◌, refl, true, false, ◌&&◌, ◌||◌, not, List, [], ◌∷◌, some, arith,
  leb, ◌↔◌, any as any_of,
}
use fwdelta.Prelude.Text.{Text, cmp}
use fwdelta.Prelude.NameSet.{member}
use fwdelta.Ir.Intervals.{
  prefix, Span, IntervalSet, domain_max, from_ranges, union, intersect, complement, difference,
  contains, span_has, is_empty, is_full, coalesce, coalesce_from, sort, insert, clamp, retain,
}
use fwdelta.Ir.Intervals.Normal.{IsCanonical, from_ranges-IsCanonical}
use fwdelta.Ir.Intervals.Members.{StartsInside, contains-from_ranges, contains-union}
use fwdelta.Ir.Intervals.Sweep.{contains-intersect}
use fwdelta.Ir.Intervals.Complement.{contains-complement, contains-difference}
use fwdelta.Ir.Intervals.Literals.{contains-prefix}
use fwdelta.Ir.Prefixes.{set_to_prefixes}
use fwdelta.Ir.Prefixes.Cover.{prefix_has, set_to_prefixes-cover}
use fwdelta.Ir.Intervals.Equality.{IsCanonical-ext, is_empty-is_full_iff}
use fwdelta.Ir.Interface.{SymbolTable, none_of, from_names, table, index_of, name_of, resolve}
use fwdelta.Ir.Interface.Symbols.{IsValid, Built, from_names-Built, from_names_same, index_of_iff}
use fwdelta.Ir.Interface.Resolve.{IsSymbols, admits, contains-resolve}

abbrev web : IntervalSet
web = record { bits = 16; ranges = (80, 80) ∷ (443, 443) ∷ [] }

abbrev high : IntervalSet
high = record { bits = 16; ranges = (400, 500) ∷ (1024, 65535) ∷ [] }

web-IsCanonical : IsCanonical web
unfolding domain_max
web-IsCanonical = omega arith

high-IsCanonical : IsCanonical high
unfolding domain_max
high-IsCanonical = omega arith

abbrev scrambled : List Span
scrambled = (10, 20) ∷ (21, 30) ∷ (5, 7) ∷ (15, 25) ∷ []

-- The source's test of normalisation.
scrambled_ranges : (from_ranges 16 scrambled).ranges ≡ (5, 7) ∷ (10, 30) ∷ []
unfolding from_ranges coalesce coalesce_from sort insert clamp retain domain_max
scrambled_ranges = refl

complement_web : (complement web).ranges ≡ (0, 79) ∷ (81, 442) ∷ (444, 65535) ∷ []
unfolding complement domain_max
complement_web = refl

scrambled_inside : StartsInside (domain_max 16) scrambled
unfolding domain_max
scrambled_inside = omega arith

in_domain : 26 ≤ domain_max 16
unfolding domain_max
in_domain = omega arith

contains-from_ranges_example :
    contains (from_ranges 16 scrambled) 26 ≡ any_of (span_has 26) scrambled
contains-from_ranges_example = contains-from_ranges 16 26 scrambled in_domain scrambled_inside

from_ranges-IsCanonical_example : IsCanonical (from_ranges 16 scrambled)
from_ranges-IsCanonical_example = from_ranges-IsCanonical 16 scrambled

contains-union_example :
    IsCanonical (union web high)
    × (contains (union web high) 443 ≡ (contains web 443 || contains high 443))
contains-union_example = contains-union web high 443 web-IsCanonical high-IsCanonical refl

contains-intersect_example :
    IsCanonical (intersect web high)
    × (contains (intersect web high) 443 ≡ (contains web 443 && contains high 443))
contains-intersect_example = contains-intersect web high 443 web-IsCanonical high-IsCanonical refl

contains-complement_example :
    IsCanonical (complement web)
    × (contains (complement web) 80 ≡ (leb 80 (domain_max 16) && not (contains web 80)))
contains-complement_example = contains-complement web 80 web-IsCanonical

contains-difference_example :
    IsCanonical (difference web high)
    × (contains (difference web high) 443 ≡ (contains web 443 && not (contains high 443)))
contains-difference_example = contains-difference web high 443 web-IsCanonical high-IsCanonical refl

IsCanonical-ext_example : web ≡ web
IsCanonical-ext_example = IsCanonical-ext web web web-IsCanonical web-IsCanonical refl (λ v. refl)

is_empty-is_full_iff_example :
    ((is_empty web ≡ true) ↔ ((v : ℕ) → contains web v ≡ false))
    × ((is_full web ≡ true) ↔ ((v : ℕ) → v ≤ domain_max 16 → contains web v ≡ true))
is_empty-is_full_iff_example = is_empty-is_full_iff web web-IsCanonical

-- "lo" and "eth0", in the order of the source's test.
abbrev lo : Text
lo = b'l' ∷ b'o' ∷ []

abbrev eth0 : Text
eth0 = b'e' ∷ b't' ∷ b'h' ∷ b'0' ∷ []

abbrev two_names : SymbolTable
two_names = record { names = eth0 ∷ lo ∷ [] }

from_names_two : from_names (lo ∷ eth0 ∷ lo ∷ []) ≡ table two_names
unfolding from_names cmp
from_names_two = refl

two_names-IsValid : IsValid two_names
unfolding cmp
two_names-IsValid = record { sorted = (refl, tt); few = omega arith }

index_of_iff_example : (index_of two_names lo ≡ some 1) ↔ (name_of two_names 1 ≡ some lo)
index_of_iff_example = index_of_iff two_names lo 1 two_names-IsValid

from_names-Built_example : Built (lo ∷ eth0 ∷ lo ∷ []) (from_names (lo ∷ eth0 ∷ lo ∷ []))
from_names-Built_example = from_names-Built (lo ∷ eth0 ∷ lo ∷ [])

same_members : (z : Text) → member z (lo ∷ eth0 ∷ lo ∷ []) ≡ member z (eth0 ∷ lo ∷ [])
same_members z = ground arith

from_names_same_example : from_names (lo ∷ eth0 ∷ lo ∷ []) ≡ from_names (eth0 ∷ lo ∷ [])
from_names_same_example = from_names_same (lo ∷ eth0 ∷ lo ∷ []) (eth0 ∷ lo ∷ []) same_members

contains-resolve_example :
    IsSymbols (resolve two_names (none_of (lo ∷ [])))
    × (contains (resolve two_names (none_of (lo ∷ []))) 7 ≡ admits two_names (none_of (lo ∷ [])) 7)
contains-resolve_example = contains-resolve two_names (none_of (lo ∷ [])) 7

base_fits : 167772161 ≤ domain_max 32
unfolding domain_max
base_fits = omega arith

contains-prefix_example :
    (s : IntervalSet) × (prefix 32 167772161 8 ≡ some s)
    × IsCanonical s
    × (contains s 168430090 ≡ (168430090 / 2 ^ (32 - 8) == 167772161 / 2 ^ (32 - 8)))
contains-prefix_example =
    contains-prefix 32 167772161 8 168430090 (omega arith) (omega arith) base_fits

abbrev three_to_17 : IntervalSet
three_to_17 = record { bits = 8; ranges = (3, 17) ∷ [] }

set_to_prefixes-cover_example :
    any_of (prefix_has 8 10) (set_to_prefixes three_to_17) ≡ contains three_to_17 10
set_to_prefixes-cover_example = set_to_prefixes-cover three_to_17 10 (omega arith, tt)

three_to_17_blocks : set_to_prefixes three_to_17 ≡ (3, 8) ∷ (4, 6) ∷ (8, 5) ∷ (16, 7) ∷ []
unfolding set_to_prefixes
three_to_17_blocks = refl
