-- ===== src/Policy/Assertion.antt =====
-- The assertions of crates/policy/src/parse.rs and the addresses of their endpoints. A message is a
-- value. The loader is in Policy/Load.antt.
pub mod Gives
use fwdelta.Prelude.{ℕ, ◌+◌, ◌*◌, true, false, List, [], ◌∷◌, Option, none, some, ltb, ◌==◌, length}
use fwdelta.Prelude.Text.{Text, text_eq}
use fwdelta.Prelude.Strings.{trim, split_once, split, parse_u32, parse_below}
use fwdelta.Ir.Intervals.{IntervalSet}
use fwdelta.Ir.Intervals
use fwdelta.Ir.Interface.{IfMatch}
use fwdelta.Ir.Interface
use fwdelta.Policy.Toml.{ℤ}

pub data Kind : Type 0 where
  isolation reachability : Kind

pub data Endpoint : Type 0 where
  zone literal : Text → Endpoint

pub record Assertion : Type 0 where
  pub name : Text
  pub kind : Kind
  pub from : Option Endpoint
  pub to : Option Endpoint
  pub proto : Option IntervalSet
  pub sport : Option IntervalSet
  pub dport : Option IntervalSet
  pub iif : Option Text
  pub oif : Option Text
  pub chain : Option Text
  pub summary : Text

abbrev pub name_match : Option Text → IfMatch
name_match none = IfMatch.any
name_match (some n) = Interface.one n

-- `Assertion::iif_match`, `Assertion::oif_match`
abbrev pub iif_match : Assertion → IfMatch
iif_match a = name_match a.iif

abbrev pub oif_match : Assertion → IfMatch
oif_match a = name_match a.oif

-- The zones are a map from names to addresses.
pub record Policy : Type 0 where
  pub zones : List (Text × IntervalSet)
  pub assertions : List Assertion

-- Where in the document an error is.
pub data Location : Type 0 where
  at_line assert_index : ℕ → Location
  zones_table assert_list : Location
  in_zone in_assertion : Text → Location

-- An error, and one that `at` has given a place.
pub data PolicyError : Type 0 where
  no_zone no_chain : Text → PolicyError
  not_a_prefix_length not_an_address not_a_number backwards : Text → PolicyError
  long_prefix large_octet : ℕ → PolicyError
  port_out_of_range protocol_out_of_range : ℤ → PolicyError
  not_a_port_range invalid_port_range not_a_port unknown_protocol toml_error unknown_field
        unknown_kind :
      Text → PolicyError
  bad_port not_a_protocol zones_not_a_table not_a_zone_member empty_zone asserts_not_a_list
        assert_not_a_table nameless kindless :
      PolicyError
  located : Location → PolicyError → PolicyError

-- A value, a `PolicyError`, or a panic.
pub data Result {ℓ} (A : Type ℓ) : Type ℓ where
  ok : A → Result A
  refused : PolicyError → Result A
  panicked : Result A

-- `?`
abbrev pub and_then {ℓ κ} : {A : Type ℓ} {B : Type κ} → Result A → (A → Result B) → Result B
and_then (ok a) f = f a
and_then (refused e) f = refused e
and_then panicked f = panicked

-- The loop over the parts of an address.
unfoldable pub parse_octets : List Text → ℕ → Result ℕ
unfolding parse_below
parse_octets [] v = ok v
parse_octets (p ∷ ps) v = elim (parse_u32 p) [
  | none ↦ refused (not_a_number p)
  | some o ↦ elim (ltb 255 o) [
    | true ↦ refused (large_octet o)
    | false ↦ parse_octets ps (v * 256 + o)
  ]
]

unfoldable pub parse_ipv4 : Text → Result ℕ
unfolding parse_octets split trim
parse_ipv4 text = elim (length (split 46 (trim text)) == 4) [
  | true ↦ parse_octets (split 46 (trim text)) 0
  | false ↦ refused (not_an_address (trim text))
]

-- A value of code that may panic.
abbrev pub unwrapped {ℓ} : {A : Type ℓ} → Option A → Result A
unwrapped none = panicked
unwrapped (some a) = ok a

unfoldable pub parse_prefix : Text → Text → Result IntervalSet
unfolding parse_ipv4 parse_below trim Intervals.prefix
parse_prefix base len = and_then (parse_ipv4 base) (λ addr. elim (parse_u32 (trim len)) [
  | none ↦ refused (not_a_prefix_length len)
  | some n ↦ elim (ltb 32 n) [
    | true ↦ refused (long_prefix n)
    | false ↦ unwrapped (Intervals.prefix 32 addr n)
  ]
])

unfoldable pub parse_span : Text → Text → Text → Result IntervalSet
unfolding parse_ipv4
parse_span t lo hi = and_then (parse_ipv4 lo) (λ a.
    and_then (parse_ipv4 hi)
      (λ b. elim (ltb b a) [ true ↦ refused (backwards t) | false ↦ ok (Intervals.range 32 a b) ]))

unfoldable pub parse_addr : Text → Result IntervalSet
unfolding parse_prefix parse_span split_once trim
parse_addr text = elim (split_once 47 (trim text)) [
  | some (base, len) ↦ parse_prefix base len
  | none ↦ elim (split_once 45 (trim text)) [
    | some (lo, hi) ↦ parse_span (trim text) lo hi
    | none ↦ and_then (parse_ipv4 (trim text)) (λ a. ok (Intervals.point 32 a))
  ]
]

unfoldable pub find_zone : Text → List (Text × IntervalSet) → Result IntervalSet
find_zone n [] = refused (no_zone n)
find_zone n ((m, s) ∷ zs) = elim (text_eq m n) [ true ↦ ok s | false ↦ find_zone n zs ]

-- `Policy::resolve`
unfoldable pub resolve : Policy → Endpoint → Result IntervalSet
unfolding find_zone parse_addr
resolve p (zone n) = find_zone n p.zones
resolve p (literal text) = parse_addr text
