-- ===== src/Policy/Eval/Narrowed.antt =====
-- The steps of `assertion_set` in crates/policy/src/eval.rs: a match narrowed by one key.
use fwdelta.Prelude.{
  ℕ, ◌≡◌, refl, ◌∙◌, sym, ap, subst, Bool, true, false, ◌&&◌, Option, none, some, arith,
}
use fwdelta.Ir.Field.{
  Field, src_addr, dst_addr, src_port, dst_port, proto, if_in, if_out, is_interface,
}
use fwdelta.Ir.Intervals.{IntervalSet, contains, domain_max, intersect}
use fwdelta.Ir.Intervals.Sweep.{contains-intersect}
use fwdelta.Ir.Intervals.Equality.{contains-full}
use fwdelta.Ir.Interface.{SymbolTable, IfMatch}
use fwdelta.Ir.Rule.{Match, constrain, any_match}
use fwdelta.Ir.Rule.WellFormed.{Fits, IsWellFormed, constrain-IsWellFormed, any_match-IsWellFormed}
use fwdelta.Engine.Header.Matches.{Values, matches}
use fwdelta.Engine.Header.Encode.{InRange}
use fwdelta.Policy.Assertion.{Endpoint, Policy, Result, ok, and_then}
use fwdelta.Policy.Load.Loaded.{OptionFits, Resolves}
use fwdelta.Policy.Eval.{narrow, narrow_endpoint, narrow_set}
use fwdelta.Policy.Assertion.Gives.{Gives}
use fwdelta.Policy.Eval.Endpoints.{resolve-has}
use fwdelta.Policy.Eval.Meaning.{end_has, set_has}

-- A result is a value with the property.
abbrev pub Returns {ℓ} : {A : Type ℓ} → (A → Type 0) → Result A → Type ℓ
Returns {A = A} Q r = (a : A) × (r ≡ ok a) × Q a

pub Returns-and_then {ℓ κ} :
    {A : Type ℓ} {B : Type κ} (Q : A → Type 0) (R : B → Type 0) (r : Result A) (f : A → Result B)
    → Returns Q r
    → ((a : A) → Q a → Returns R (f a))
    → Returns R (and_then r f)
Returns-and_then Q R r f (a, e, q) k = rw (e) (k a q)

-- A well-formed match, free on the interfaces, that admits the packets of `acc`.
pub record Narrowed (t : SymbolTable) (acc : Values → Bool) (m : Match) : Type 0 where
  pub well_formed : IsWellFormed m
  pub any_iif : m.iif ≡ IfMatch.any
  pub any_oif : m.oif ≡ IfMatch.any
  pub means : (v : Values) → InRange v → matches m t v ≡ acc v

intersect-has :
    (f : Field) (s r : IntervalSet) (v : ℕ)
    → Fits f s
    → Fits f r
    → contains (intersect s r) v ≡ (contains s v && contains r v)
intersect-has f s r v p q = (contains-intersect s r v p.0 q.0 (p.1 ∙ sym q.1)).1

module _ (t : SymbolTable) where
  Narrowed-same :
      (acc acc' : Values → Bool) (m : Match)
      → ((v : Values) → acc v ≡ acc' v)
      → Narrowed t acc m
      → Narrowed t acc' m
  Narrowed-same acc acc' m h n = record {
    well_formed = n.well_formed;
    any_iif = n.any_iif;
    any_oif = n.any_oif;
    means = λ v r. n.means v r ∙ h v;
  }

  -- A match that admits what another one does, under a further test.
  narrowed :
      (acc : Values → Bool) (m m' : Match) (b : Values → Bool)
      → IsWellFormed m'
      → m'.iif ≡ IfMatch.any
      → m'.oif ≡ IfMatch.any
      → ((v : Values) → matches m' t v ≡ (matches m t v && b v))
      → Narrowed t acc m
      → Narrowed t (λ v. acc v && b v) m'
  narrowed acc m m' b w i o h n = record {
    well_formed = w;
    any_iif = i;
    any_oif = o;
    means = λ v r. h v ∙ ap (λ c. c && b v) (n.means v r);
  }

  narrow-Returns :
      (acc : Values → Bool) (m : Match) (f : Field) (s : IntervalSet)
      → is_interface f ≡ false
      → Fits f s
      → Narrowed t acc m
      → Returns (Narrowed t (λ v. acc v && contains s (v f))) (narrow m f s)
  unfolding narrow constrain is_interface
  narrow-Returns acc m src_addr s e p n =
      let w = n.well_formed in
      (
        _,
        refl,
        narrowed acc m _ (λ v. contains s (v src_addr)) (constrain-IsWellFormed m src_addr s w p)
            n.any_iif n.any_oif
            (λ v.
              ground
                (arith, intersect-has src_addr m.src_addr_set s (v src_addr) w.src_addr_fits p))
            n,
      )
  narrow-Returns acc m dst_addr s e p n =
      let w = n.well_formed in
      (
        _,
        refl,
        narrowed acc m _ (λ v. contains s (v dst_addr)) (constrain-IsWellFormed m dst_addr s w p)
            n.any_iif n.any_oif
            (λ v.
              ground
                (arith, intersect-has dst_addr m.dst_addr_set s (v dst_addr) w.dst_addr_fits p))
            n,
      )
  narrow-Returns acc m src_port s e p n =
      let w = n.well_formed in
      (
        _,
        refl,
        narrowed acc m _ (λ v. contains s (v src_port)) (constrain-IsWellFormed m src_port s w p)
            n.any_iif n.any_oif
            (λ v.
              ground
                (arith, intersect-has src_port m.src_port_set s (v src_port) w.src_port_fits p))
            n,
      )
  narrow-Returns acc m dst_port s e p n =
      let w = n.well_formed in
      (
        _,
        refl,
        narrowed acc m _ (λ v. contains s (v dst_port)) (constrain-IsWellFormed m dst_port s w p)
            n.any_iif n.any_oif
            (λ v.
              ground
                (arith, intersect-has dst_port m.dst_port_set s (v dst_port) w.dst_port_fits p))
            n,
      )
  narrow-Returns acc m proto s e p n =
      let w = n.well_formed in
      (
        _,
        refl,
        narrowed acc m _ (λ v. contains s (v proto)) (constrain-IsWellFormed m proto s w p)
            n.any_iif n.any_oif
            (λ v. ground (arith, intersect-has proto m.proto_set s (v proto) w.proto_fits p)) n,
      )
  narrow-Returns acc m if_in s e p n = absurd (cc (e))
  narrow-Returns acc m if_out s e p n = absurd (cc (e))

  pub narrow_endpoint-Returns :
      (acc : Values → Bool) (p : Policy) (f : Field) (o : Option Endpoint) (m : Match)
      → is_interface f ≡ false
      → ((s : IntervalSet) → Fits src_addr s → Fits f s)
      → Resolves p o
      → Narrowed t acc m
      → Returns (Narrowed t (λ v. acc v && end_has p o (v f))) (narrow_endpoint p f o m)
  unfolding narrow_endpoint
  narrow_endpoint-Returns acc p f none m e c h n =
      (m, refl, Narrowed-same acc (λ v. acc v && true) m (λ v. ground arith) n)
  narrow_endpoint-Returns acc p f (some x) m e c (s, is, q) n =
      let (m', narrowed, n') = narrow-Returns acc m f s e (c s q) n in
      (
        m',
        rw (is) narrowed,
        Narrowed-same (λ v. acc v && contains s (v f)) (λ v. acc v && end_has p (some x) (v f)) m'
            (λ v.
              ap (λ b. acc v && b)
                (subst (Gives (λ s. contains s (v f) ≡ end_has p (some x) (v f))) is
                  (resolve-has (v f) p x)))
            n',
      )

  pub narrow_set-Returns :
      (acc : Values → Bool) (f : Field) (o : Option IntervalSet) (m : Match)
      → is_interface f ≡ false
      → OptionFits f o
      → Narrowed t acc m
      → Returns (Narrowed t (λ v. acc v && set_has o (v f))) (narrow_set f o m)
  unfolding narrow_set
  narrow_set-Returns acc f none m e h n =
      (m, refl, Narrowed-same acc (λ v. acc v && true) m (λ v. ground arith) n)
  narrow_set-Returns acc f (some s) m e h n = narrow-Returns acc m f s e h n

  pub any_match-Narrowed : Narrowed t (λ v. true) any_match
  unfolding domain_max
  any_match-Narrowed = record {
    well_formed = any_match-IsWellFormed;
    any_iif = refl;
    any_oif = refl;
    means = λ v r. ground (
      arith,
      contains-full 32 (v src_addr),
      contains-full 32 (v dst_addr),
      contains-full 16 (v src_port),
      contains-full 16 (v dst_port),
      contains-full 8 (v proto),
      r src_addr,
      r dst_addr,
      r src_port,
      r dst_port,
      r proto,
      r if_in,
      r if_out,
    );
  }
