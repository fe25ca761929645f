-- ===== src/Policy/Load/Loaded.antt =====
-- What crates/policy/src/parse.rs checks of a document when it loads it.
use fwdelta.Prelude.{◌≡◌, true, false, List, [], ◌∷◌, Option, none, some, All}
use fwdelta.Prelude.Text.{Text, text_eq}
use fwdelta.Prelude.Strings.{codes, is_literal, is_one_of}
use fwdelta.Ir.Field.{Field, src_addr, src_port, proto}
use fwdelta.Ir.Intervals.{IntervalSet, empty, union, is_empty}
use fwdelta.Ir.Rule.WellFormed.{Fits}
use fwdelta.Ir.Rule.Literals.{union-Fits, empty-Fits}
use fwdelta.Policy.Toml.{View, integer, string, array, table, other, TomlLib}
use fwdelta.Policy.Assertion.{
  Endpoint, zone, literal, Assertion, Policy, Location, in_zone, in_assertion, Result, ok, refused,
  panicked, and_then, find_zone, resolve, parse_addr,
}
use fwdelta.Policy.Assertion.Gives.{Gives, Gives-and_then, Gives-test, Gives-elim, parse_addr-Gives}
use fwdelta.Policy.Scalars.{parse_ports, parse_protos}
use fwdelta.Policy.Scalars.Gives.{parse_ports-Gives, parse_protos-Gives}
use fwdelta.Policy.Load.{
  located_at, get, assert_keys, str_field, zone_member, zone_items, zone_of, zones_loop, zones_of,
  zones_view, members_of, check_keys, kind_of, optional_set, named_assertion,
}

-- A set that is given fits.
abbrev pub OptionFits : Field → Option IntervalSet → Type 0
OptionFits f none = Unit
OptionFits f (some s) = Fits f s

-- An endpoint that is given resolves, to a set of addresses.
abbrev pub Resolves : Policy → Option Endpoint → Type 0
Resolves p none = Unit
Resolves p (some e) = (s : IntervalSet) × (resolve p e ≡ ok s) × Fits src_addr s

pub record SetsFit (a : Assertion) : Type 0 where
  pub proto_fits : OptionFits proto a.proto
  pub sport_fits : OptionFits src_port a.sport
  pub dport_fits : OptionFits src_port a.dport

abbrev pub EndsResolve : Policy → Assertion → Type 0
EndsResolve p a = Resolves p a.from × Resolves p a.to

-- Every assertion can be checked.
pub record IsLoaded (p : Policy) : Type 0 where
  pub sets_fit : All SetsFit p.assertions
  pub ends_resolve : All (EndsResolve p) p.assertions

abbrev pub ZonesFit : List (Text × IntervalSet) → Type 0
ZonesFit zones = All (λ z. Fits src_addr z.1) zones

located_at-Gives {ℓ} :
    {A : Type ℓ} (Q : A → Type 0) (l : Location) (r : Result A)
    → Gives Q r
    → Gives Q (located_at l r)
located_at-Gives Q l (ok a) h = h
located_at-Gives Q l (refused e) h = tt
located_at-Gives Q l panicked h = h

find_zone-Gives :
    (n : Text) (zones : List (Text × IntervalSet))
    → ZonesFit zones
    → Gives (Fits src_addr) (find_zone n zones)
unfolding find_zone
find_zone-Gives n [] h = tt
find_zone-Gives n ((m, s) ∷ zs) (h, hs) =
    elim (text_eq m n)
      as (λ b. Gives (Fits src_addr) (elim b [ true ↦ ok s | false ↦ find_zone n zs ])) [
        | true ↦ h
        | false ↦ find_zone-Gives n zs hs
      ]

pub resolve-Gives :
    (p : Policy) (e : Endpoint) → ZonesFit p.zones → Gives (Fits src_addr) (resolve p e)
unfolding resolve
resolve-Gives p (zone n) h = find_zone-Gives n p.zones h
resolve-Gives p (literal text) h = parse_addr-Gives text

pub resolved :
    (p : Policy) (e : Endpoint) (l : Location) (r : Result IntervalSet)
    → resolve p e ≡ r
    → Gives (Fits src_addr) r
    → Gives {A = Unit {0}} (λ u. Resolves p (some e)) (and_then (located_at l r) (λ s. ok tt))
resolved p e l (ok s) i h = (s, i, h)
resolved p e l (refused x) i h = tt
resolved p e l panicked i h = h

module _ ⦃lib : TomlLib⦄ where
  open lib use {Value, view}

  zone_member-Gives : (name : Text) (v : View Value) → Gives (Fits src_addr) (zone_member name v)
  unfolding zone_member
  zone_member-Gives name (string s) =
      located_at-Gives (Fits src_addr) (in_zone name) (parse_addr s) (parse_addr-Gives s)
  zone_member-Gives name (integer n) = tt
  zone_member-Gives name (array vs) = tt
  zone_member-Gives name (table kvs) = tt
  zone_member-Gives name other = tt

  zone_items-Gives :
      (name : Text) (acc : IntervalSet) (vs : List Value)
      → Fits src_addr acc
      → Gives (Fits src_addr) (zone_items name acc vs)
  unfolding zone_items
  zone_items-Gives name acc [] h = h
  zone_items-Gives name acc (v ∷ vs) h =
      Gives-and_then (Fits src_addr) (Fits src_addr) (zone_member name (view v)) _
        (zone_member-Gives name (view v))
        (λ s p. zone_items-Gives name (union acc s) vs (union-Fits src_addr acc s h))

  zone_of-Gives : (name : Text) (v : Value) → Gives (Fits src_addr) (zone_of name v)
  unfolding zone_of
  zone_of-Gives name v =
      Gives-and_then (Fits src_addr) (Fits src_addr)
        (zone_items name (empty 32) (members_of v (view v))) _
        (zone_items-Gives name (empty 32) (members_of v (view v)) (empty-Fits src_addr))
        (λ s p. Gives-test (Fits src_addr) (is_empty s) _ _ (λ e. p))

  zones_loop-Gives :
      (kvs : List (Text × Value)) (zones : List (Text × IntervalSet))
      → ZonesFit zones
      → Gives ZonesFit (zones_loop kvs zones)
  unfolding zones_loop
  zones_loop-Gives [] zones h = h
  zones_loop-Gives ((name, v) ∷ kvs) zones h =
      Gives-and_then (Fits src_addr) ZonesFit (zone_of name v) _ (zone_of-Gives name v)
        (λ s p. zones_loop-Gives kvs ((name, s) ∷ zones) (p, h))

  zones_view-Gives : (v : View Value) → Gives ZonesFit (zones_view v)
  zones_view-Gives (table kvs) = zones_loop-Gives kvs [] tt
  zones_view-Gives (string s) = tt
  zones_view-Gives (integer n) = tt
  zones_view-Gives (array vs) = tt
  zones_view-Gives other = tt

  pub zones_of-Gives : (o : Option Value) → Gives ZonesFit (zones_of o)
  unfolding zones_of
  zones_of-Gives none = tt
  zones_of-Gives (some v) = zones_view-Gives (view v)

  check_keys-Gives :
      (here : Location) (t : List (Text × Value)) → Gives (λ u. Unit {0}) (check_keys here t)
  unfolding check_keys
  check_keys-Gives here [] = tt
  check_keys-Gives here ((k, v) ∷ kvs) =
      Gives-elim (λ u. Unit {0}) (is_one_of assert_keys k) _ _ (check_keys-Gives here kvs) tt

  kind_of-Gives : (here : Location) (o : Option Text) → Gives (λ k. Unit {0}) (kind_of here o)
  unfolding kind_of
  kind_of-Gives here none = tt
  kind_of-Gives here (some w) =
      Gives-elim (λ k. Unit {0}) (is_literal "isolation" w) _ _ tt
        (Gives-elim (λ k. Unit {0}) (is_literal "reachability" w) _ _ tt tt)

  optional_set-Gives :
      (f : Field) (here : Location) (read : Value → Result IntervalSet) (o : Option Value)
      → ((v : Value) → Gives (Fits f) (read v))
      → Gives (OptionFits f) (optional_set here read o)
  unfolding optional_set
  optional_set-Gives f here read none h = tt
  optional_set-Gives f here read (some v) h =
      Gives-and_then (Fits f) (OptionFits f) (located_at here (read v)) _
        (located_at-Gives (Fits f) here (read v) (h v)) (λ s p. p)

  pub named_assertion-Gives :
      (zones : List (Text × IntervalSet)) (t : List (Text × Value)) (name : Text)
      → Gives SetsFit (named_assertion zones t name)
  unfolding named_assertion
  named_assertion-Gives zones t name =
      let here = in_assertion name in
      Gives-and_then (λ u. Unit {0}) SetsFit (check_keys here t) _ (check_keys-Gives here t)
        λ x u.
          Gives-and_then (λ u. Unit {0}) SetsFit (kind_of here (str_field "kind" t)) _
            (kind_of-Gives here (str_field "kind" t))
            λ k u.
              Gives-and_then (OptionFits proto) SetsFit
                (optional_set here parse_protos (get "proto" t)) _
                (optional_set-Gives proto here parse_protos (get "proto" t) parse_protos-Gives)
                λ a p.
                  Gives-and_then (OptionFits src_port) SetsFit
                    (optional_set here (parse_ports (codes "sport")) (get "sport" t)) _
                    (optional_set-Gives src_port here (parse_ports (codes "sport")) (get "sport" t)
                      (parse_ports-Gives (codes "sport")))
                    λ b q.
                      Gives-and_then (OptionFits src_port) SetsFit
                        (optional_set here (parse_ports (codes "dport")) (get "dport" t)) _
                        (optional_set-Gives src_port here (parse_ports (codes "dport"))
                          (get "dport" t) (parse_ports-Gives (codes "dport")))
                        λ c r. record { proto_fits = p; sport_fits = q; dport_fits = r }
