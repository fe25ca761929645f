-- ===== src/Policy/Scalars.antt =====
-- The ports and protocols of an assertion in crates/policy/src/parse.rs.
pub mod Gives
use fwdelta.Prelude.{ℕ, true, false, ◌||◌, List, [], ◌∷◌, Option, none, some, ltb, String}
use fwdelta.Prelude.Text.{Text}
use fwdelta.Prelude.Strings.{is_literal, trim, split_once, parse_u64, parse_below}
use fwdelta.Ir.Intervals.{IntervalSet}
use fwdelta.Ir.Intervals
use fwdelta.Policy.Toml.{pos, negsuc, View, integer, string, array, table, other, TomlLib}
use fwdelta.Policy.Assertion.{
  Result, ok, refused, and_then, port_out_of_range, not_a_port_range, bad_port, invalid_port_range,
  not_a_port, protocol_out_of_range, unknown_protocol, not_a_protocol,
}

-- The arms of `proto_number`, the first that has the name.
abbrev number_in : List (String × ℕ) → Text → Option ℕ
number_in [] w = none
number_in ((s, n) ∷ ns) w = elim (is_literal s w) [ true ↦ some n | false ↦ number_in ns w ]

abbrev protocols : List (String × ℕ)
protocols =
    ("icmp", 1)
    ∷ ("igmp", 2)
    ∷ ("tcp", 6)
    ∷ ("udp", 17)
    ∷ ("gre", 47)
    ∷ ("esp", 50)
    ∷ ("ah", 51)
    ∷ ("ospf", 89)
    ∷ ("vrrp", 112)
    ∷ ("sctp", 132)
    ∷ []

unfoldable pub proto_number : Text → Option ℕ
proto_number name = number_in protocols name

-- The bounds of a range of ports, parsed.
unfoldable pub port_range : Text → Option ℕ → Option ℕ → Result IntervalSet
port_range s none hi = refused bad_port
port_range s (some lo) none = refused bad_port
port_range s (some lo) (some hi) = elim (ltb 65535 lo || (ltb 65535 hi || ltb hi lo)) [
  | true ↦ refused (invalid_port_range s)
  | false ↦ ok (Intervals.range 16 lo hi)
]

unfoldable pub port_text : Text → Option (Text × Text) → Result IntervalSet
unfolding port_range parse_below trim
port_text s none = refused (not_a_port_range s)
port_text s (some (lo, hi)) = port_range s (parse_u64 (trim lo)) (parse_u64 (trim hi))

-- The name of a protocol, looked up.
unfoldable pub proto_text : Text → Option ℕ → Result IntervalSet
proto_text s none = refused (unknown_protocol s)
proto_text s (some n) = ok (Intervals.point 8 n)

-- The loop over the items of an array.
unfoldable pub union_items {ℓ} :
    {V : Type ℓ} → (V → Result IntervalSet) → IntervalSet → List V → Result IntervalSet
union_items one acc [] = ok acc
union_items one acc (v ∷ vs) = and_then (one v) (λ s. union_items one (Intervals.union acc s) vs)

module _ ⦃lib : TomlLib⦄ where
  open lib use {Value, view}

  -- `one` of `parse_ports`
  unfoldable pub port_view : Text → View Value → Result IntervalSet
  unfolding port_text split_once
  port_view what (integer (pos n)) = elim (ltb 65535 n) [
    | true ↦ refused (port_out_of_range (pos n))
    | false ↦ ok (Intervals.point 16 n)
  ]
  port_view what (integer (negsuc n)) = refused (port_out_of_range (negsuc n))
  port_view what (string s) = port_text s (split_once 45 s)
  port_view what (array vs) = refused (not_a_port what)
  port_view what (table kvs) = refused (not_a_port what)
  port_view what other = refused (not_a_port what)

  unfoldable pub ports_of : Text → View Value → Result IntervalSet
  unfolding port_view union_items
  ports_of what (array vs) = union_items (λ v. port_view what (view v)) (Intervals.empty 16) vs
  ports_of what (integer n) = port_view what (integer n)
  ports_of what (string s) = port_view what (string s)
  ports_of what (table kvs) = port_view what (table kvs)
  ports_of what other = port_view what other

  unfoldable pub parse_ports : Text → Value → Result IntervalSet
  unfolding ports_of
  parse_ports what v = ports_of what (view v)

  -- `one` of `parse_protos`
  unfoldable pub proto_view : View Value → Result IntervalSet
  unfolding proto_text proto_number
  proto_view (integer (pos n)) = elim (ltb 255 n) [
    | true ↦ refused (protocol_out_of_range (pos n))
    | false ↦ ok (Intervals.point 8 n)
  ]
  proto_view (integer (negsuc n)) = refused (protocol_out_of_range (negsuc n))
  proto_view (string s) = proto_text s (proto_number s)
  proto_view (array vs) = refused not_a_protocol
  proto_view (table kvs) = refused not_a_protocol
  proto_view other = refused not_a_protocol

  unfoldable pub protos_of : View Value → Result IntervalSet
  unfolding proto_view union_items
  protos_of (array vs) = union_items (λ v. proto_view (view v)) (Intervals.empty 8) vs
  protos_of (integer n) = proto_view (integer n)
  protos_of (string s) = proto_view (string s)
  protos_of (table kvs) = proto_view (table kvs)
  protos_of other = proto_view other

  unfoldable pub parse_protos : Value → Result IntervalSet
  unfolding protos_of
  parse_protos v = protos_of (view v)
