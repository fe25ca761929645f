-- ===== src/Policy/Eval/Compiled.antt =====
-- `assertion_set` of crates/policy/src/eval.rs builds a match that says what the assertion means.
use fwdelta.Prelude.{ℕ, ◌<◌, ◌≡◌, refl, true, ◌&&◌, List, [], Option, none, some, arith}
use fwdelta.Prelude.Text.{Text}
use fwdelta.Ir.Field.{src_addr, dst_addr, src_port, dst_port, proto, if_in, if_out, is_interface}
use fwdelta.Ir.Intervals.{IntervalSet}
use fwdelta.Ir.Interface.{SymbolTable}
use fwdelta.Ir.Interface.Resolve
use fwdelta.Ir.Rule.{Match, any_match, with_iif, with_oif}
use fwdelta.Ir.Rule.WellFormed.{Fits, IsWellFormed}
use fwdelta.Engine.Header.Matches.{Values, matches}
use fwdelta.Engine.Header.Encode.{InRange}
use fwdelta.Policy.Assertion.{
  Endpoint, Assertion, name_match, iif_match, oif_match, Policy, resolve,
}
use fwdelta.Policy.Load.Loaded.{Resolves, SetsFit, EndsResolve}
use fwdelta.Policy.Eval.{
  Named, narrow_endpoint, narrow_set, assertion_match, unmentioned, unmentioned_endpoint, Side,
  from_side, to_side,
}
use fwdelta.Policy.Eval.Meaning.{end_has, set_has, name_has, concerns}
use fwdelta.Policy.Eval.Narrowed.{
  Returns, Returns-and_then, Narrowed, narrow_endpoint-Returns, narrow_set-Returns,
  any_match-Narrowed,
}

-- The match that stands for the assertion.
pub record Compiled (t : SymbolTable) (p : Policy) (a : Assertion) (m : Match) : Type 0 where
  pub well_formed : IsWellFormed m
  pub means : (v : Values) → InRange v → matches m t v ≡ concerns t p a v

module _ (t : SymbolTable) where
  name_match-has :
      (o : Option Text) (v : ℕ) → v < 256 → Resolve.admits t (name_match o) v ≡ name_has t o v
  name_match-has none v h = ground arith
  name_match-has (some n) v h = ground arith

  interfaces-Compiled :
      (p : Policy) (a : Assertion) (m : Match)
      → Narrowed t
          (λ v.
            ((((true && end_has p a.from (v src_addr)) && end_has p a.to (v dst_addr))
                && set_has a.proto (v proto))
              && set_has a.sport (v src_port))
            && set_has a.dport (v dst_port))
          m
      → Compiled t p a (with_oif (with_iif m (iif_match a)) (oif_match a))
  interfaces-Compiled p a m n = record {
    well_formed = record {
      src_addr_fits = n.well_formed.src_addr_fits;
      dst_addr_fits = n.well_formed.dst_addr_fits;
      src_port_fits = n.well_formed.src_port_fits;
      dst_port_fits = n.well_formed.dst_port_fits;
      proto_fits = n.well_formed.proto_fits;
    };
    means = λ v r.
        let free_in : Resolve.admits t m.iif (v if_in) ≡ true =
          rw (n.any_iif) (ground (arith, r if_in)) in
        let free_out : Resolve.admits t m.oif (v if_out) ≡ true =
          rw (n.any_oif) (ground (arith, r if_out)) in
        ground (
          arith,
          n.means v r,
          free_in,
          free_out,
          name_match-has a.iif (v if_in) (r if_in),
          name_match-has a.oif (v if_out) (r if_out),
        );
  }

  pub assertion_match-Returns :
      (p : Policy) (a : Assertion)
      → SetsFit a
      → EndsResolve p a
      → Returns (Compiled t p a) (assertion_match p a)
  unfolding assertion_match is_interface
  assertion_match-Returns p a s r =
      let end1 = λ (v : Values). true && end_has p a.from (v src_addr) in
      let end2 = λ (v : Values). end1 v && end_has p a.to (v dst_addr) in
      let set3 = λ (v : Values). end2 v && set_has a.proto (v proto) in
      let set4 = λ (v : Values). set3 v && set_has a.sport (v src_port) in
      let set5 = λ (v : Values). set4 v && set_has a.dport (v dst_port) in
      let C = Compiled t p a in
      Returns-and_then (Narrowed t end1) C (narrow_endpoint p src_addr a.from any_match) _
        (narrow_endpoint-Returns t (λ v. true) p src_addr a.from any_match refl (λ s q. q) r.0
          (any_match-Narrowed t))
        λ m1 n1.
          Returns-and_then (Narrowed t end2) C (narrow_endpoint p dst_addr a.to m1) _
            (narrow_endpoint-Returns t end1 p dst_addr a.to m1 refl (λ s q. q) r.1 n1)
            λ m2 n2.
              Returns-and_then (Narrowed t set3) C (narrow_set proto a.proto m2) _
                (narrow_set-Returns t end2 proto a.proto m2 refl s.proto_fits n2)
                λ m3 n3.
                  Returns-and_then (Narrowed t set4) C (narrow_set src_port a.sport m3) _
                    (narrow_set-Returns t set3 src_port a.sport m3 refl s.sport_fits n3)
                    λ m4 n4.
                      Returns-and_then (Narrowed t set5) C (narrow_set dst_port a.dport m4) _
                        (narrow_set-Returns t set4 dst_port a.dport m4 refl s.dport_fits n4)
                        λ m5 n5. (_, refl, interfaces-Compiled p a m5 n5)

-- The hint that an assertion is about endpoints that no rule mentions.
unmentioned-Returns :
    (p : Policy) (mentioned : IntervalSet) (side : Side) (o : Option Endpoint) (found : List Named)
    → Resolves p o
    → Returns (λ ns. Unit {0}) (unmentioned p mentioned side o found)
unfolding unmentioned
unmentioned-Returns p mentioned side none found h = (found, refl, tt)
unmentioned-Returns p mentioned side (some e) found h =
    Returns-and_then (Fits src_addr) (λ ns. Unit {0}) (resolve p e) _ h (λ s q. (_, refl, tt))

pub unmentioned_endpoint-Returns :
    (p : Policy) (a : Assertion) (mentioned : IntervalSet)
    → EndsResolve p a
    → Returns (λ ns. Unit {0}) (unmentioned_endpoint p a mentioned)
unfolding unmentioned_endpoint
unmentioned_endpoint-Returns p a mentioned r =
    Returns-and_then (λ ns. Unit {0}) (λ ns. Unit {0}) (unmentioned p mentioned from_side a.from [])
      _ (unmentioned-Returns p mentioned from_side a.from [] r.0)
      (λ found u. unmentioned-Returns p mentioned to_side a.to found r.1)
