-- ===== src/Policy/Scalars/Gives.antt =====
-- The ports and protocols of an assertion fit their fields.
use fwdelta.Prelude.{
  ℕ, ◌≤◌, true, false, ◌||◌, List, [], ◌∷◌, Option, none, some, arith, ltb, String, All,
  le_of_not_ltb,
}
use fwdelta.Prelude.Text.{Text}
use fwdelta.Prelude.Strings.{is_literal, split_once, trim, parse_u64}
use fwdelta.Ir.Field.{Field, src_port, proto}
use fwdelta.Ir.Intervals.{IntervalSet, empty, union}
use fwdelta.Ir.Rule.WellFormed.{Fits}
use fwdelta.Ir.Rule.Literals.{
  union-Fits, empty-Fits, point-Fits, range-Fits, domain_max_16, domain_max_8,
}
use fwdelta.Policy.Toml.{pos, negsuc, View, integer, string, array, table, other, TomlLib}
use fwdelta.Policy.Assertion.{Result}
use fwdelta.Policy.Assertion.Gives.{Gives, Gives-and_then, Gives-test}
use fwdelta.Policy.Scalars.{
  number_in, protocols, proto_number, port_range, port_text, proto_text, union_items, port_view,
  ports_of, parse_ports, proto_view, protos_of, parse_protos,
}

number_in-Gives :
    (ns : List (String × ℕ)) (s w : Text)
    → All (λ p. p.1 ≤ 255) ns
    → Gives (Fits proto) (proto_text s (number_in ns w))
unfolding proto_text
number_in-Gives [] s w h = tt
number_in-Gives ((t, k) ∷ ns) s w (h, hs) =
    elim (is_literal t w)
      as (λ b.
        Gives (Fits proto) (proto_text s (elim b [ true ↦ some k | false ↦ number_in ns w ]))) [
          | true ↦ point-Fits proto k (rw (domain_max_8) h)
          | false ↦ number_in-Gives ns s w hs
        ]

proto_number-Gives : (s w : Text) → Gives (Fits proto) (proto_text s (proto_number w))
unfolding proto_number
proto_number-Gives s w = number_in-Gives protocols s w (
  omega arith,
  (
    omega arith,
    (
      omega arith,
      (
        omega arith,
        (
          omega arith,
          (omega arith, (omega arith, (omega arith, (omega arith, (omega arith, tt))))),
        ),
      ),
    ),
  ),
)

union_items-Gives {ℓ} :
    {V : Type ℓ} (f : Field) (one : V → Result IntervalSet) (acc : IntervalSet) (vs : List V)
    → ((v : V) → Gives (Fits f) (one v))
    → Fits f acc
    → Gives (Fits f) (union_items one acc vs)
unfolding union_items
union_items-Gives f one acc [] h k = k
union_items-Gives f one acc (v ∷ vs) h k =
    Gives-and_then (Fits f) (Fits f) (one v) _ (h v)
      (λ s p. union_items-Gives f one (union acc s) vs h (union-Fits f acc s k))

port_range-Gives : (s : Text) (lo hi : Option ℕ) → Gives (Fits src_port) (port_range s lo hi)
unfolding port_range
port_range-Gives s none hi = tt
port_range-Gives s (some lo) none = tt
port_range-Gives s (some lo) (some hi) =
    Gives-test (Fits src_port) (ltb 65535 lo || (ltb 65535 hi || ltb hi lo)) _ _
      (λ e. range-Fits src_port lo hi)

port_text-Gives : (s : Text) (o : Option (Text × Text)) → Gives (Fits src_port) (port_text s o)
unfolding port_text
port_text-Gives s none = tt
port_text-Gives s (some (lo, hi)) = port_range-Gives s (parse_u64 (trim lo)) (parse_u64 (trim hi))

module _ ⦃lib : TomlLib⦄ where
  open lib use {Value, view}

  port_view-Gives : (what : Text) (v : View Value) → Gives (Fits src_port) (port_view what v)
  unfolding port_view
  port_view-Gives what (integer (pos n)) =
      Gives-test (Fits src_port) (ltb 65535 n) _ _
        (λ e. point-Fits src_port n (rw (domain_max_16) (le_of_not_ltb 65535 n e)))
  port_view-Gives what (integer (negsuc n)) = tt
  port_view-Gives what (string s) = port_text-Gives s (split_once 45 s)
  port_view-Gives what (array vs) = tt
  port_view-Gives what (table kvs) = tt
  port_view-Gives what other = tt

  ports_of-Gives : (what : Text) (v : View Value) → Gives (Fits src_port) (ports_of what v)
  unfolding ports_of
  ports_of-Gives what (array vs) =
      union_items-Gives src_port (λ v. port_view what (view v)) (empty 16) vs
        (λ v. port_view-Gives what (view v)) (empty-Fits src_port)
  ports_of-Gives what (integer n) = port_view-Gives what (integer n)
  ports_of-Gives what (string s) = port_view-Gives what (string s)
  ports_of-Gives what (table kvs) = port_view-Gives what (table kvs)
  ports_of-Gives what other = port_view-Gives what other

  pub parse_ports-Gives : (what : Text) (v : Value) → Gives (Fits src_port) (parse_ports what v)
  unfolding parse_ports
  parse_ports-Gives what v = ports_of-Gives what (view v)

  proto_view-Gives : (v : View Value) → Gives (Fits proto) (proto_view v)
  unfolding proto_view
  proto_view-Gives (integer (pos n)) =
      Gives-test (Fits proto) (ltb 255 n) _ _
        (λ e. point-Fits proto n (rw (domain_max_8) (le_of_not_ltb 255 n e)))
  proto_view-Gives (integer (negsuc n)) = tt
  proto_view-Gives (string s) = proto_number-Gives s s
  proto_view-Gives (array vs) = tt
  proto_view-Gives (table kvs) = tt
  proto_view-Gives other = tt

  protos_of-Gives : (v : View Value) → Gives (Fits proto) (protos_of v)
  unfolding protos_of
  protos_of-Gives (array vs) =
      union_items-Gives proto (λ v. proto_view (view v)) (empty 8) vs
        (λ v. proto_view-Gives (view v)) (empty-Fits proto)
  protos_of-Gives (integer n) = proto_view-Gives (integer n)
  protos_of-Gives (string s) = proto_view-Gives (string s)
  protos_of-Gives (table kvs) = proto_view-Gives (table kvs)
  protos_of-Gives other = proto_view-Gives other

  pub parse_protos-Gives : (v : Value) → Gives (Fits proto) (parse_protos v)
  unfolding parse_protos
  parse_protos-Gives v = protos_of-Gives (view v)
