-- ===== src/Ir/Interface/Symbols.antt =====
-- The symbol table of crates/ir/src/interface.rs.
use Prim.Native.Nat.Ordering.{lt}
use fwdelta.Prelude.{
  ℕ, zero, suc, ◌≤◌, ◌<◌, ◌≡◌, refl, ◌∙◌, ap, sym, List, [], ◌∷◌, some, arith, length, get_elem?,
  ◌↔◌, ltb, Bool-cases, Option-cases, inl, inr, ltb→lt, le_of_not_ltb,
}
use fwdelta.Prelude.Text.{Text, cmp, cmp_refl, eq_of_cmp, lt_trans}
use fwdelta.Prelude.NameSet.{
  IsIncreasing, After, member, from_list, from_list-IsIncreasing, member-from_list,
  IsIncreasing-ext, After-IsIncreasing,
}
use fwdelta.Ir.Interface.{
  SymbolTable, TableResult, table, too_many_interfaces, of_set, from_names, position, index_of,
  name_of,
}

-- What `from_names` establishes: sorted distinct names, few enough for 8 bits.
pub record IsValid (t : SymbolTable) : Type 0 where
  pub sorted : IsIncreasing t.names
  pub few : length t.names ≤ 256

-- The outcome of building a table from a list of names.
abbrev pub Built : List Text → TableResult → Type 0
Built names (table t) = IsValid t × ((z : Text) → member z t.names ≡ member z names)
Built names (too_many_interfaces n) = (n ≡ length (from_list names)) × (256 < n)

of_set-Built :
    (names set : List Text)
    → IsIncreasing set
    → set ≡ from_list names
    → ((z : Text) → member z set ≡ member z names)
    → Built names (of_set set)
unfolding of_set
of_set-Built names set a e h = elim (Bool-cases (ltb 256 (length set))) [
  | inl p ↦ rw (p, of_set) (ap length e, ltb→lt 256 (length set) p)
  | inr p ↦ rw (p, of_set) (record { sorted = a; few = le_of_not_ltb 256 (length set) p }, h)
]

-- A table that is built is valid and has exactly the names given; it is refused only when there are
-- more than 256 distinct names, and the refusal states their number.
pub from_names-Built : (names : List Text) → Built names (from_names names)
unfolding from_names
from_names-Built names =
    of_set-Built names (from_list names) (from_list-IsIncreasing names) refl
      (λ z. member-from_list z names)

-- The table depends only on which names are given, not on their order or repetition.
pub from_names_same :
    (xs ys : List Text) → ((z : Text) → member z xs ≡ member z ys) → from_names xs ≡ from_names ys
unfolding from_names
from_names_same xs ys h = ap of_set same
  where
    same : from_list xs ≡ from_list ys
    same =
        IsIncreasing-ext _ _ (from_list-IsIncreasing xs) (from_list-IsIncreasing ys)
          (λ z. member-from_list z xs ∙ h z ∙ sym (member-from_list z ys))

get_elem?-position :
    (n : Text) (xs : List Text) (i : ℕ)
    → position n xs ≡ some i
    → (get_elem? xs i ≡ some n) × (i < length xs)
unfolding position
get_elem?-position n [] i h = cc
get_elem?-position n (x ∷ xs) zero h = ground (arith, eq_of_cmp x n)
get_elem?-position n (x ∷ xs) (suc i) h = ground (arith, get_elem?-position n xs i)

get_elem?-After :
    (b n : Text) (xs : List Text) (i : ℕ) → After b xs → get_elem? xs i ≡ some n → cmp b n ≡ lt
get_elem?-After b n [] i a h = cc
get_elem?-After b n (x ∷ xs) zero a h = ground arith
get_elem?-After b n (x ∷ xs) (suc i) a h = lt_trans b x n a.0 (get_elem?-After x n xs i a.1 h)

position-get_elem? :
    (n : Text) (xs : List Text) (i : ℕ)
    → IsIncreasing xs
    → get_elem? xs i ≡ some n
    → position n xs ≡ some i
unfolding position
position-get_elem? n [] i a h = cc
position-get_elem? n (x ∷ xs) zero a h = ground (arith, cmp_refl x)
position-get_elem? n (x ∷ xs) (suc i) a h =
    ground
      (arith, get_elem?-After x n xs i a h, position-get_elem? n xs i (After-IsIncreasing x xs a) h)

get_elem?-length : (n : Text) (xs : List Text) (i : ℕ) → get_elem? xs i ≡ some n → i < length xs
get_elem?-length n [] i h = cc
get_elem?-length n (x ∷ xs) zero h = omega arith
get_elem?-length n (x ∷ xs) (suc i) h = omega (arith, get_elem?-length n xs i h)

-- In a valid table the two lookups are inverse: a name has an index exactly when that index has the
-- name. The cast to 8 bits loses nothing.
pub index_of_iff :
    (t : SymbolTable) (n : Text) (i : ℕ)
    → IsValid t
    → (index_of t n ≡ some i) ↔ (name_of t i ≡ some n)
unfolding index_of name_of
index_of_iff t n i v = (there, back)
  where
    there : index_of t n ≡ some i → name_of t i ≡ some n
    there h = elim (Option-cases (position n t.names)) [
      | inl e ↦ absurd (ground (arith, e))
      | inr (j, e) ↦
          let (found, below) = get_elem?-position n t.names j e in
          let same : i ≡ j = ground (arith, e, v.few) in rw same found
    ]

    back : name_of t i ≡ some n → index_of t n ≡ some i
    back h =
        ground
          (arith, position-get_elem? n t.names i v.sorted h, get_elem?-length n t.names i h, v.few)
