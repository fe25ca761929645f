-- ===== src/Policy/Eval/Meaning.antt =====
-- What an assertion of crates/policy is about: the packets that each of its keys lets through.
use fwdelta.Prelude.{
  ℕ, ◌-◌, ◌/◌, ◌^◌, Bool, true, false, ◌&&◌, List, [], ◌∷◌, Option, none, some, leb, ◌==◌,
  if◌then◌else◌,
}
use fwdelta.Prelude.Text.{Text, text_eq}
use fwdelta.Prelude.Strings.{trim, split_once, parse_u32}
use fwdelta.Ir.Field.{src_addr, dst_addr, src_port, dst_port, proto, if_in, if_out}
use fwdelta.Ir.Intervals.{IntervalSet, contains}
use fwdelta.Ir.Interface.{SymbolTable}
use fwdelta.Ir.Interface.Resolve.{stands_for}
use fwdelta.Engine.Header.Matches.{Values}
use fwdelta.Policy.Assertion.{Endpoint, zone, literal, Assertion, Policy, Result, ok, parse_ipv4}

-- An address of the first zone with the name.
abbrev pub zone_has : Text → List (Text × IntervalSet) → ℕ → Bool
zone_has n [] v = false
zone_has n ((m, s) ∷ zs) v = if text_eq m n then contains s v else zone_has n zs v

-- What is said of an address, if it can be read.
abbrev pub quad_is : Result ℕ → (ℕ → Bool) → Bool
quad_is (ok a) f = f a
quad_is _ f = false

-- The leading bits of an address agree with those of another one.
abbrev pub block_has : Option ℕ → ℕ → ℕ → Bool
block_has none a v = false
block_has (some n) a v = v / 2 ^ (32 - n) == a / 2 ^ (32 - n)

-- An address from one to another, or an address alone.
abbrev pub span_has : Option (Text × Text) → Text → ℕ → Bool
span_has (some (lo, hi)) t v =
    quad_is (parse_ipv4 lo) (λ a. quad_is (parse_ipv4 hi) (λ b. leb a v && leb v b))
span_has none t v = quad_is (parse_ipv4 t) (λ a. a == v)

-- A prefix after its slash, or else one of those.
abbrev pub block_or_span_has : Option (Text × Text) → Text → ℕ → Bool
block_or_span_has (some (base, len)) t v =
    quad_is (parse_ipv4 base) (λ a. block_has (parse_u32 (trim len)) a v)
block_or_span_has none t v = span_has (split_once 45 t) t v

-- An address of an endpoint; without the key, any.
abbrev pub end_has : Policy → Option Endpoint → ℕ → Bool
end_has p none v = true
end_has p (some (zone n)) v = zone_has n p.zones v
end_has p (some (literal text)) v = block_or_span_has (split_once 47 (trim text)) (trim text) v

-- A protocol or a port.
abbrev pub set_has : Option IntervalSet → ℕ → Bool
set_has none v = true
set_has (some s) v = contains s v

-- The symbol of an interface.
abbrev pub name_has : SymbolTable → Option Text → ℕ → Bool
name_has t none v = true
name_has t (some n) v = stands_for t v n

-- A packet that the assertion is about.
abbrev pub concerns : SymbolTable → Policy → Assertion → Values → Bool
concerns t p a v =
    end_has p a.from (v src_addr)
    && end_has p a.to (v dst_addr)
    && set_has a.proto (v proto)
    && set_has a.sport (v src_port)
    && set_has a.dport (v dst_port)
    && name_has t a.iif (v if_in)
    && name_has t a.oif (v if_out)
