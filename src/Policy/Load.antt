-- ===== src/Policy/Load.antt =====
-- The loader of an assertion document, `parse` of crates/policy/src/parse.rs.
pub mod Loaded
pub mod Checked
use fwdelta.Prelude.{
  ℕ, suc, Bool, true, false, ◌&&◌, List, [], ◌∷◌, ◌++◌, Option, none, some, leb, length, any, max,
  min, take, String,
}
use fwdelta.Prelude.Text.{Text, text_eq}
use fwdelta.Prelude.Strings.{codes, is_literal, is_one_of, lines, is_char_boundary}
use fwdelta.Ir.Intervals.{IntervalSet, is_empty}
use fwdelta.Ir.Intervals
use fwdelta.Policy.Toml.{View, string, array, table, Document, document, malformed, TomlLib}
use fwdelta.Policy.Assertion.{
  Kind, isolation, reachability, Endpoint, zone, literal, Assertion, Policy, Location, at_line,
  zones_table, in_zone, assert_list, assert_index, in_assertion, PolicyError, located, toml_error,
  zones_not_a_table, not_a_zone_member, empty_zone, asserts_not_a_list, assert_not_a_table,
  nameless, unknown_field, unknown_kind, kindless, Result, ok, refused, panicked, and_then,
  parse_addr, resolve,
}
use fwdelta.Policy.Scalars.{parse_ports, parse_protos}

-- `.map_err(|e| e.at(..))`
abbrev pub located_at {ℓ} : {A : Type ℓ} → Location → Result A → Result A
located_at l (ok a) = ok a
located_at l (refused e) = refused (located l e)
located_at l panicked = panicked

-- `Table::get`
abbrev pub get {ℓ} : {V : Type ℓ} → String → List (Text × V) → Option V
get key [] = none
get key ((k, v) ∷ kvs) = elim (is_literal key k) [ true ↦ some v | false ↦ get key kvs ]

abbrev Zones : Type 0
Zones = List (Text × IntervalSet)

abbrev has_zone : Text → Zones → Bool
has_zone s zones = any (λ z. text_eq z.0 s) zones

abbrev starts_with_digit : Text → Bool
starts_with_digit [] = false
starts_with_digit (c ∷ cs) = leb 48 c && leb c 57

-- `endpoint`, for a string
unfoldable pub endpoint : Zones → Text → Endpoint
endpoint zones s = elim (has_zone s zones) [
  | true ↦ zone s
  | false ↦ elim (starts_with_digit s) [ true ↦ literal s | false ↦ zone s ]
]

abbrev label : Option Endpoint → Text
label none = codes "any"
label (some (zone n)) = n
label (some (literal n)) = n

-- `ASSERT_KEYS`
abbrev pub assert_keys : List String
assert_keys =
    "name" ∷ "kind" ∷ "from" ∷ "to" ∷ "proto" ∷ "sport" ∷ "dport" ∷ "iif" ∷ "oif" ∷ "chain" ∷ []

module _ ⦃lib : TomlLib⦄ where
  open lib use {Value, view, display, from_str}

  abbrev Table : Type 0
  Table = List (Text × Value)

  -- `Value::as_str`
  abbrev text_of : View Value → Option Text
  text_of (string s) = some s
  text_of _ = none

  abbrev str_of : Option Value → Option Text
  str_of none = none
  str_of (some v) = text_of (view v)

  -- `str_field`
  unfoldable pub str_field : String → Table → Option Text
  str_field key t = str_of (get key t)

  unfoldable pub zone_member : Text → View Value → Result IntervalSet
  unfolding parse_addr
  zone_member name (string s) = located_at (in_zone name) (parse_addr s)
  zone_member name _ = refused (located (in_zone name) not_a_zone_member)

  unfoldable pub zone_items : Text → IntervalSet → List Value → Result IntervalSet
  unfolding zone_member
  zone_items name acc [] = ok acc
  zone_items name acc (v ∷ vs) =
      and_then (zone_member name (view v)) (λ s. zone_items name (Intervals.union acc s) vs)

  -- A value that is no array is one member.
  abbrev members_of : Value → View Value → List Value
  members_of v (array vs) = vs
  members_of v _ = v ∷ []

  unfoldable pub zone_of : Text → Value → Result IntervalSet
  unfolding zone_items is_empty
  zone_of name v =
      and_then (zone_items name (Intervals.empty 32) (members_of v (view v))) (λ s.
        elim (is_empty s) [ true ↦ refused (located (in_zone name) empty_zone) | false ↦ ok s ])

  -- An insertion goes in front, where a lookup finds it first.
  unfoldable pub zones_loop : Table → Zones → Result Zones
  unfolding zone_of
  zones_loop [] zones = ok zones
  zones_loop ((name, v) ∷ kvs) zones =
      and_then (zone_of name v) (λ s. zones_loop kvs ((name, s) ∷ zones))

  abbrev zones_view : View Value → Result Zones
  zones_view (table kvs) = zones_loop kvs []
  zones_view _ = refused (located zones_table zones_not_a_table)

  unfoldable pub zones_of : Option Value → Result Zones
  unfolding zones_loop
  zones_of none = ok []
  zones_of (some v) = zones_view (view v)

  unfoldable pub check_keys : Location → Table → Result (Unit {0})
  check_keys here [] = ok tt
  check_keys here ((k, v) ∷ kvs) = elim (is_one_of assert_keys k) [
    | true ↦ check_keys here kvs
    | false ↦ refused (located here (unknown_field k))
  ]

  unfoldable pub kind_of : Location → Option Text → Result Kind
  kind_of here none = refused (located here kindless)
  kind_of here (some w) = elim (is_literal "isolation" w) [
    | true ↦ ok isolation
    | false ↦ elim (is_literal "reachability" w) [
      | true ↦ ok reachability
      | false ↦ refused (located here (unknown_kind w))
    ]
  ]

  abbrev endpoint_of : Zones → Option Text → Option Endpoint
  endpoint_of zones none = none
  endpoint_of zones (some s) = some (endpoint zones s)

  -- `t.get(..).map(..).transpose().map_err(..)`
  unfoldable pub optional_set :
      Location → (Value → Result IntervalSet) → Option Value → Result (Option IntervalSet)
  optional_set here read none = ok none
  optional_set here read (some v) = and_then (located_at here (read v)) (λ s. ok (some s))

  abbrev port_suffix : Option Value → Text
  port_suffix none = []
  port_suffix (some v) = codes ":" ++ display v

  -- An assertion behind its name.
  unfoldable pub named_assertion : Zones → Table → Text → Result Assertion
  unfolding check_keys kind_of optional_set str_field endpoint parse_ports parse_protos
  named_assertion zones t name =
      let here = in_assertion name in
      let from = endpoint_of zones (str_field "from" t) in
      let to = endpoint_of zones (str_field "to" t) in
      and_then (check_keys here t) λ _. and_then (kind_of here (str_field "kind" t)) λ kind.
        and_then (optional_set here parse_protos (get "proto" t)) λ proto.
          and_then (optional_set here (parse_ports (codes "sport")) (get "sport" t)) λ sport.
            and_then (optional_set here (parse_ports (codes "dport")) (get "dport" t)) λ dport.
              ok (record {
                name = name;
                kind = kind;
                from = from;
                to = to;
                proto = proto;
                sport = sport;
                dport = dport;
                iif = str_field "iif" t;
                oif = str_field "oif" t;
                chain = str_field "chain" t;
                summary = label from ++ codes " -> " ++ label to ++ port_suffix (get "dport" t);
              })

  abbrev with_name : Zones → ℕ → Table → Option Text → Result Assertion
  with_name zones i t none = refused (located (assert_index i) nameless)
  with_name zones i t (some name) = named_assertion zones t name

  unfoldable pub assertion_of : Zones → ℕ → View Value → Result Assertion
  unfolding named_assertion str_field
  assertion_of zones i (table t) = with_name zones i t (str_field "name" t)
  assertion_of zones i _ = refused (located (assert_index i) assert_not_a_table)

  unfoldable pub assertions_loop : Zones → ℕ → List Value → Result (List Assertion)
  unfolding assertion_of
  assertions_loop zones i [] = ok []
  assertions_loop zones i (v ∷ vs) =
      and_then (assertion_of zones i (view v))
        λ a. and_then (assertions_loop zones (suc i) vs) λ as'. ok (a ∷ as')

  -- The endpoints are resolved at load.
  unfoldable pub resolve_endpoint : Policy → Text → Option Endpoint → Result (Unit {0})
  unfolding resolve
  resolve_endpoint p name none = ok tt
  resolve_endpoint p name (some e) =
      and_then (located_at (in_assertion name) (resolve p e)) (λ s. ok tt)

  unfoldable pub resolve_all : Policy → List Assertion → Result (Unit {0})
  unfolding resolve_endpoint
  resolve_all p [] = ok tt
  resolve_all p (a ∷ as') =
      and_then (resolve_endpoint p a.name a.from)
        λ _. and_then (resolve_endpoint p a.name a.to) λ _. resolve_all p as'

  abbrev checked : Policy → Result Policy
  checked p = and_then (resolve_all p p.assertions) (λ _. ok p)

  abbrev assert_view : Zones → View Value → Result Policy
  assert_view zones (array vs) =
      and_then (assertions_loop zones 0 vs)
        (λ as'. checked (record { zones = zones; assertions = as' }))
  assert_view zones _ = refused (located assert_list asserts_not_a_list)

  unfoldable pub policy_of : Zones → Option Value → Result Policy
  unfolding assertions_loop resolve_all
  policy_of zones none = ok (record { zones = zones; assertions = [] })
  policy_of zones (some v) = assert_view zones (view v)

  -- The error behind a TOML message: the line is the number of lines up to the start of the span, and
  -- the slice `source[..start]` panics inside a character.
  unfoldable pub malformed_at : Text → Text → Option ℕ → Result Policy
  unfolding lines
  malformed_at source message none = refused (toml_error message)
  malformed_at source message (some start) =
      let stop = min start (length source) in
      elim (is_char_boundary source stop) [
        | true ↦
            refused
              (located (at_line (max 1 (length (lines (take stop source))))) (toml_error message))
        | false ↦ panicked
      ]

  unfoldable pub load : Text → Document Value → Result Policy
  unfolding zones_of policy_of malformed_at
  load source (document doc) =
      and_then (zones_of (get "zones" doc)) (λ zones. policy_of zones (get "assert" doc))
  load source (malformed message start) = malformed_at source message start

  -- `parse`
  unfoldable pub parse : Text → Result Policy
  unfolding load
  parse source = load source (from_str source)
