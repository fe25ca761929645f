-- ===== src/Policy/Load/Checked.antt =====
-- The whole document in crates/policy/src/parse.rs: what it establishes of a policy.
use fwdelta.Prelude.{ℕ, suc, ◌≡◌, refl, List, [], ◌∷◌, Option, none, some, All}
use fwdelta.Prelude.Text.{Text}
use fwdelta.Ir.Intervals.{IntervalSet}
use fwdelta.Policy.Toml.{
  View, integer, string, array, table, other, Document, document, malformed, TomlLib,
}
use fwdelta.Policy.Assertion.{Endpoint, Assertion, Policy, in_assertion, resolve}
use fwdelta.Policy.Assertion.Gives.{Gives, Gives-and_then, Gives-weaken}
use fwdelta.Policy.Load.{
  get, str_field, with_name, zones_of, assertion_of, assertions_loop, resolve_endpoint, resolve_all,
  checked, assert_view, policy_of, malformed_at, load, parse,
}
use fwdelta.Policy.Load.Loaded.{
  Resolves, SetsFit, EndsResolve, IsLoaded, ZonesFit, resolve-Gives, resolved, zones_of-Gives,
  named_assertion-Gives,
}

module _ ⦃lib : TomlLib⦄ where
  open lib use {Value, view, from_str}

  resolve_endpoint-Gives :
      (p : Policy) (name : Text) (o : Option Endpoint)
      → ZonesFit p.zones
      → Gives (λ u. Resolves p o) (resolve_endpoint p name o)
  unfolding resolve_endpoint
  resolve_endpoint-Gives p name none z = tt
  resolve_endpoint-Gives p name (some e) z =
      resolved p e (in_assertion name) (resolve p e) refl (resolve-Gives p e z)

  resolve_all-Gives :
      (p : Policy) (as' : List Assertion)
      → ZonesFit p.zones
      → Gives (λ u. All (EndsResolve p) as') (resolve_all p as')
  unfolding resolve_all
  resolve_all-Gives p [] z = tt
  resolve_all-Gives p (a ∷ as') z =
      Gives-and_then (λ u. Resolves p a.from) (λ u. All (EndsResolve p) (a ∷ as'))
        (resolve_endpoint p a.name a.from) _ (resolve_endpoint-Gives p a.name a.from z)
        λ u f.
          Gives-and_then (λ u. Resolves p a.to) (λ u. All (EndsResolve p) (a ∷ as'))
            (resolve_endpoint p a.name a.to) _ (resolve_endpoint-Gives p a.name a.to z)
            λ u t.
              Gives-weaken (λ u. All (EndsResolve p) as') (λ u. All (EndsResolve p) (a ∷ as'))
                (resolve_all p as') (λ u r. ((f, t), r)) (resolve_all-Gives p as' z)

  with_name-Gives :
      (zones : List (Text × IntervalSet)) (i : ℕ) (t : List (Text × Value)) (o : Option Text)
      → Gives SetsFit (with_name zones i t o)
  with_name-Gives zones i t none = tt
  with_name-Gives zones i t (some name) = named_assertion-Gives zones t name

  assertion_of-Gives :
      (zones : List (Text × IntervalSet)) (i : ℕ) (v : View Value)
      → Gives SetsFit (assertion_of zones i v)
  unfolding assertion_of
  assertion_of-Gives zones i (table t) = with_name-Gives zones i t (str_field "name" t)
  assertion_of-Gives zones i (string s) = tt
  assertion_of-Gives zones i (integer n) = tt
  assertion_of-Gives zones i (array vs) = tt
  assertion_of-Gives zones i other = tt

  assertions_loop-Gives :
      (zones : List (Text × IntervalSet)) (i : ℕ) (vs : List Value)
      → Gives (All SetsFit) (assertions_loop zones i vs)
  unfolding assertions_loop
  assertions_loop-Gives zones i [] = tt
  assertions_loop-Gives zones i (v ∷ vs) =
      Gives-and_then SetsFit (All SetsFit) (assertion_of zones i (view v)) _
        (assertion_of-Gives zones i (view v))
        λ a f.
          Gives-and_then (All SetsFit) (All SetsFit) (assertions_loop zones (suc i) vs) _
            (assertions_loop-Gives zones (suc i) vs) λ as' fs. (f, fs)

  checked-Gives :
      (p : Policy) → ZonesFit p.zones → All SetsFit p.assertions → Gives IsLoaded (checked p)
  checked-Gives p z f =
      Gives-and_then (λ u. All (EndsResolve p) p.assertions) IsLoaded (resolve_all p p.assertions) _
        (resolve_all-Gives p p.assertions z) (λ u r. record { sets_fit = f; ends_resolve = r })

  assert_view-Gives :
      (zones : List (Text × IntervalSet)) (v : View Value)
      → ZonesFit zones
      → Gives IsLoaded (assert_view zones v)
  assert_view-Gives zones (array vs) z =
      Gives-and_then (All SetsFit) IsLoaded (assertions_loop zones 0 vs) _
        (assertions_loop-Gives zones 0 vs)
        (λ as' f. checked-Gives (record { zones = zones; assertions = as' }) z f)
  assert_view-Gives zones (string s) z = tt
  assert_view-Gives zones (integer n) z = tt
  assert_view-Gives zones (table kvs) z = tt
  assert_view-Gives zones other z = tt

  policy_of-Gives :
      (zones : List (Text × IntervalSet)) (o : Option Value)
      → ZonesFit zones
      → Gives IsLoaded (policy_of zones o)
  unfolding policy_of
  policy_of-Gives zones none z = record { sets_fit = tt; ends_resolve = tt }
  policy_of-Gives zones (some v) z = assert_view-Gives zones (view v) z

  malformed_at-Gives :
      (source message : Text) (o : Option ℕ)
      → from_str source ≡ malformed message o
      → Gives IsLoaded (malformed_at source message o)
  unfolding malformed_at
  malformed_at-Gives source message none e = tt
  malformed_at-Gives source message (some start) e =
      rw (lib.span_start source message start e, Gives, malformed_at) tt

  load-Gives :
      (source : Text) (d : Document Value) → from_str source ≡ d → Gives IsLoaded (load source d)
  unfolding load
  load-Gives source (document doc) e =
      Gives-and_then ZonesFit IsLoaded (zones_of (get "zones" doc)) _
        (zones_of-Gives (get "zones" doc)) (λ zones z. policy_of-Gives zones (get "assert" doc) z)
  load-Gives source (malformed message start) e = malformed_at-Gives source message start e

  -- If the TOML library starts the span of a malformed document between characters, loading a document
  -- does not panic, neither where the source is sliced up to the span nor where the length of a prefix
  -- is asserted: the document is refused, or it gives a policy in which every endpoint of every
  -- assertion resolves, to a canonical set of addresses, and every set of protocols or ports is
  -- canonical and has the width of its field.
  pub parse-IsLoaded : (source : Text) → Gives IsLoaded (parse source)
  unfolding parse
  parse-IsLoaded source = load-Gives source (from_str source) refl
