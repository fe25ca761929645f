-- ===== src/Ir/Interface.antt =====
-- crates/ir/src/interface.rs: interface names as symbols of an 8-bit dimension.
pub mod Symbols
pub mod Resolve
use fwdelta.Prelude.{
  ℕ, suc, ◌+◌, ◌%◌, ◌≤◌, Bool, true, false, List, [], ◌∷◌, ◌++◌, Option, none, some, ltb, leb,
  if◌then◌else◌, length, get_elem?, all,
}
use fwdelta.Prelude.Text.{Text, cmp, text_eq}
use fwdelta.Prelude.NameSet
use fwdelta.Ir.Intervals
use fwdelta.Ir.Intervals.{IntervalSet, Span}

abbrev pub max_interfaces : ℕ
max_interfaces = 256

abbrev pub if_bits : ℕ
if_bits = 8

pub record SymbolTable : Type 0 where
  pub names : List Text

pub data TableResult : Type 0 where
  table : SymbolTable → TableResult
  too_many_interfaces : ℕ → TableResult

-- The size check of `from_names`, on the `BTreeSet` of the names.
unfoldable pub of_set : List Text → TableResult
of_set set =
    if ltb max_interfaces (length set)
    then too_many_interfaces (length set)
    else table (record { names = set })

unfoldable pub from_names : List Text → TableResult
unfolding of_set NameSet.from_list NameSet.insert
from_names names = of_set (NameSet.from_list names)

abbrev pub next_index : Option ℕ → Option ℕ
next_index none = none
next_index (some i) = some (suc i)

-- `binary_search` on the sorted distinct names finds the position of the equal one.
unfoldable pub position : Text → List Text → Option ℕ
position n [] = none
position n (x ∷ xs) = if text_eq x n then some 0 else next_index (position n xs)

-- `i as u8`
abbrev pub as_u8 : ℕ → ℕ
as_u8 i = i % 256

unfoldable pub index_of : SymbolTable → Text → Option ℕ
unfolding position
index_of t name = elim (position name t.names) [ none ↦ none | some i ↦ some (as_u8 i) ]

unfoldable pub name_of : SymbolTable → ℕ → Option Text
name_of t i = get_elem? t.names i

unfoldable pub all_named : SymbolTable → IntervalSet → Bool
all_named t s = all (λ (r : Span). ltb r.1 (length t.names)) s.ranges

-- The sets of names are `BTreeSet`s: strictly increasing lists.
pub data IfMatch : Type 0 where
  any : IfMatch
  one_of none_of : List Text → IfMatch

abbrev pub one : Text → IfMatch
one name = one_of (name ∷ [])

abbrev pub not_one : Text → IfMatch
not_one name = none_of (name ∷ [])

unfoldable pub names : IfMatch → List Text
names any = []
names (one_of s) = s
names (none_of s) = s

-- One round of the loops of `resolve`.
unfoldable pub add_symbol : SymbolTable → Text → IntervalSet → IntervalSet
add_symbol t n acc = elim (index_of t n) [
  | some i ↦ Intervals.union acc (Intervals.point if_bits i)
  | none ↦ acc
]

unfoldable pub symbols : SymbolTable → List Text → IntervalSet → IntervalSet
symbols t [] acc = acc
symbols t (n ∷ ns) acc = symbols t ns (add_symbol t n acc)

unfoldable pub resolve : SymbolTable → IfMatch → IntervalSet
resolve t any = Intervals.full if_bits
resolve t (one_of ns) = symbols t ns (Intervals.empty if_bits)
resolve t (none_of ns) = Intervals.complement (symbols t ns (Intervals.empty if_bits))
