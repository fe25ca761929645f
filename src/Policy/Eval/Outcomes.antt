-- ===== src/Policy/Eval/Outcomes.antt =====
-- What an outcome of crates/policy/src/eval.rs says of packets.
use fwdelta.Prelude.{
  ◌≡◌, refl, ◌∙◌, sym, subst, fun_ext, Bool, true, false, ◌&&◌, not, none, some, arith,
  Option-cases, inl, inr,
}
use fwdelta.Ir.Field.{Field, src_addr, dst_addr, src_port, dst_port, proto, if_in, if_out}
use fwdelta.Ir.Interface.{SymbolTable}
use fwdelta.Ir.Rule.{Chain}
use fwdelta.Engine.Bdd.{BddLib, Valuation, Witnessed}
use fwdelta.Engine.Header.{Layout}
use fwdelta.Engine.Header.Matches.{Values}
use fwdelta.Engine.Header.Encode.{InRange}
use fwdelta.Engine.Packet.{value_of, field, packet_of, witness}
use fwdelta.Engine.Accept.Semantics.{permitted, first_match, is_none}
use fwdelta.Policy.Assertion.{Kind, isolation, reachability}
use fwdelta.Policy.Eval.{
  contradiction, policy_only, Outcome, pass, fail, vacuous, offending, verdict,
}

-- A packet of the assertion with this verdict breaks it.
abbrev pub breaks : Kind → Bool → Bool
breaks isolation permit = permit
breaks reachability permit = not permit

-- What an outcome says of a chain and of the packets of an assertion.
abbrev pub Established : SymbolTable → Chain → (Values → Bool) → Kind → Outcome → Type 0
Established t c q k pass =
    ((p : Values) → InRange p → q p ≡ true → breaks k (permitted t c p) ≡ false)
    × ((p : Values) × InRange p × (q p ≡ true) × (is_none (first_match t c.rules p) ≡ false))
Established t c q k (fail packet) =
    InRange (value_of packet)
    × (q (value_of packet) ≡ true)
    × (breaks k (permitted t c (value_of packet)) ≡ true)
Established t c q k (vacuous contradiction) = (p : Values) → InRange p → q p ≡ false
Established t c q k (vacuous (policy_only name found)) =
    (p : Values) → InRange p → q p ≡ true → is_none (first_match t c.rules p) ≡ true

-- It says as much of packets that are the same in range.
pub Established-same :
    (t : SymbolTable) (c : Chain) (q r : Values → Bool) (k : Kind) (o : Outcome)
    → ((p : Values) → InRange p → q p ≡ r p)
    → Established t c q k o
    → Established t c r k o
Established-same t c q r k pass same (holds, (p, i, has, decided)) =
    ((λ p i e. holds p i (same p i ∙ e)), (p, i, sym (same p i) ∙ has, decided))
Established-same t c q r k (fail packet) same (i, has, broken) =
    (i, sym (same (value_of packet) i) ∙ has, broken)
Established-same t c q r k (vacuous contradiction) same h = λ p i. sym (same p i) ∙ h p i
Established-same t c q r k (vacuous (policy_only name found)) same h = λ p i e. h p i (same p i ∙ e)

value_at : (l : Layout) (v : Valuation) (f : Field) → value_of (packet_of l v) f ≡ field l v f
unfolding value_of packet_of
value_at l v src_addr = refl
value_at l v dst_addr = refl
value_at l v src_port = refl
value_at l v dst_port = refl
value_at l v proto = refl
value_at l v if_in = refl
value_at l v if_out = refl

pub value_of-packet_of : (l : Layout) (v : Valuation) → value_of (packet_of l v) ≡ field l v
value_of-packet_of l v = fun_ext (value_at l v)

pub second_false : (a b : Bool) → (a && b) ≡ false → a ≡ true → b ≡ false
second_false a b h k = ground arith

pub both_true : (a b : Bool) → (a && b) ≡ true → (a ≡ true) × (b ≡ true)
both_true a b h = ground arith

pub from_denial : (b : Bool) → not b ≡ false → b ≡ true
from_denial b h = ground arith

pub to_denial : (b : Bool) → not b ≡ true → b ≡ false
to_denial b h = ground arith

module _ ⦃lib : BddLib⦄ where
  open lib use {
    Bdd, eval, eval-and, eval-and_not, is_false, is_false_iff, and, sat_witness,
    sat_witness-Witnessed,
  }

  pub eval-offending :
      (k : Kind) (a b : Bdd) (v : Valuation)
      → eval (offending k a b) v ≡ (eval a v && breaks k (eval b v))
  unfolding offending
  eval-offending isolation a b v = eval-and a b v
  eval-offending reachability a b v = eval-and_not a b v

  -- A set that is not empty has a valuation.
  pub member_of : (a : Bdd) → is_false a ≡ false → (v : Valuation) × (eval a v ≡ true)
  member_of a h = elim (Option-cases (sat_witness a)) [
    | inl e ↦
        absurd (cc (h, (is_false_iff a).1 (subst (Witnessed (eval a)) e (sat_witness-Witnessed a))))
    | inr (v, e) ↦ (v, subst (Witnessed (eval a)) e (sat_witness-Witnessed a))
  ]

  pub verdict-none : (l : Layout) (a : Bdd) → sat_witness a ≡ none → verdict (witness l a) ≡ pass
  unfolding witness verdict
  verdict-none l a e = rw (e, verdict, witness) refl

  pub verdict-some :
      (l : Layout) (a : Bdd) (v : Valuation)
      → sat_witness a ≡ some v
      → verdict (witness l a) ≡ fail (packet_of l v)
  unfolding witness verdict
  verdict-some l a v e = rw (e, verdict, witness) refl
