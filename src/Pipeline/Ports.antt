-- ===== src/Pipeline/Ports.antt =====
-- A chain that crates/nft accepts asks for ports only where a packet has them, which is what the
-- check at the end of `rule` in crates/nft/src/parse.rs is for.
use fwdelta.Prelude.{
  ℕ, ◌≡◌, refl, ◌∙◌, ap, Bool, true, false, ◌&&◌, List, [], ◌∷◌, some, All, arith, get_elem?, inl,
  inr, ◌⊎◌, ◌<◌, ◌^◌,
}
use fwdelta.Prelude.Text.{Text}
use fwdelta.Ir.Field.{src_addr, dst_addr, src_port, dst_port, proto, if_in, if_out}
use fwdelta.Ir.Intervals.{contains, full, domain_max}
use fwdelta.Ir.Intervals.Equality.{contains-full}
use fwdelta.Ir.Interface.{SymbolTable}
use fwdelta.Ir.Interface.Resolve
use fwdelta.Ir.Rule.{Match, Rule, Chain, Ruleset, permits}
use fwdelta.Nft.Cursor.{Tokens, ok}
use fwdelta.Nft.Rule.{port_bearing}
use fwdelta.Nft.Rule.Accepts.{IsAccepted}
use fwdelta.Nft.Parse.{parse}
use fwdelta.Engine.Header.Matches.{Values, admits, matches}
use fwdelta.Engine.Header.Encode.{InRange}
use fwdelta.Engine.Accept.Semantics.{permitted, verdict_or}
use fwdelta.Pipeline.Accepted.{parsed-AcceptsChain}

-- Two packets that differ in their ports at most.
pub record SameButPorts (p q : Values) : Type 0 where
  pub same_src : p src_addr ≡ q src_addr
  pub same_dst : p dst_addr ≡ q dst_addr
  pub same_proto : p proto ≡ q proto
  pub same_in : p if_in ≡ q if_in
  pub same_out : p if_out ≡ q if_out

full_has : (v : ℕ) → v < 2 ^ 16 → contains (full 16) v ≡ true
full_has v h = contains-full 16 v ∙ unfold domain_max in ground (arith)

-- The dimensions but the ports.
same_dims :
    (m : Match) (t : SymbolTable) (p q : Values)
    → SameButPorts p q
    → (admits m t p src_port && admits m t p dst_port
        ≡ admits m t q src_port && admits m t q dst_port)
      ⊎ (admits m t p proto ≡ false)
    → matches m t p ≡ matches m t q
same_dims m t p q s h =
    let a = ap (contains m.src_addr_set) s.same_src in
    let b = ap (contains m.dst_addr_set) s.same_dst in
    let c = ap (contains m.proto_set) s.same_proto in
    let d = ap (Resolve.admits t m.iif) s.same_in in
    let e = ap (Resolve.admits t m.oif) s.same_out in ground arith

matches-ports :
    (m : Match) (t : SymbolTable) (p q : Values)
    → IsAccepted m
    → SameButPorts p q
    → port_bearing (p proto) ≡ false
    → InRange p
    → InRange q
    → matches m t p ≡ matches m t q
matches-ports m t p q h s n rp rq = same_dims m t p q s (elim h.transport [
  | inl f ↦ inl (
      rw
        (
          f.0,
          f.1,
          full_has (p src_port) (rp src_port),
          full_has (p dst_port) (rp dst_port),
          full_has (q src_port) (rq src_port),
          full_has (q dst_port) (rq dst_port),
        )
        refl)
  | inr k ↦ inr (ground (arith, k (p proto)))
])

verdict-ports :
    (d : Bool) (t : SymbolTable) (rs : List Rule) (p q : Values)
    → All (λ r. IsAccepted r.matches) rs
    → SameButPorts p q
    → port_bearing (p proto) ≡ false
    → InRange p
    → InRange q
    → verdict_or d t rs p ≡ verdict_or d t rs q
verdict-ports d t [] p q h s n rp rq = refl
verdict-ports d t (r ∷ rs) p q h s n rp rq =
    ground
      (arith, matches-ports r.matches t p q h.0 s n rp rq, verdict-ports d t rs p q h.1 s n rp rq)

-- If a text parses and `c` is a chain of it, then two packets whose values fit their fields, that
-- differ in their ports at most and whose protocol has no ports get the same verdict.
pub parsed-ports_irrelevant :
    (file src : Text) (r : Ruleset) (ts : Tokens) (i : ℕ) (c : Chain) (t : SymbolTable)
    (p q : Values)
    → parse file src ≡ ok r ts
    → get_elem? r.chains i ≡ some c
    → SameButPorts p q
    → port_bearing (p proto) ≡ false
    → InRange p
    → InRange q
    → permitted t c p ≡ permitted t c q
parsed-ports_irrelevant file src r ts i c t p q e at s n rp rq =
    verdict-ports (permits c.policy) t c.rules p q
      (parsed-AcceptsChain file src r ts i c e at).rules_accepted s n rp rq
