-- ===== src/Nft/Rule/Transport.antt =====
-- The test of crates/nft/src/parse.rs that a rule's protocols have ports.
use fwdelta.Prelude.{
  ℕ, zero, suc, ◌+◌, ◌-◌, ◌≤◌, ◌<◌, ◌≡◌, Bool, true, List, [], ◌∷◌, arith, all, any, Bool-cases,
  inl, inr, ◌==◌, subst, ==_iff,
}
use fwdelta.Ir.Intervals.{IntervalSet, Span, contains, span_has, is_full}
use fwdelta.Nft.Rule.{port_bearing, all_from, all_in, all_port_bearing}

-- The loop over a range tests every number of it.
all_from_lem :
    (n lo : ℕ) (p : ℕ → Bool) (v : ℕ) → all_from n lo p ≡ true → lo ≤ v → v < lo + n → p v ≡ true
unfolding all_from
all_from_lem zero lo p v h l u = absurd (omega arith)
all_from_lem (suc n) lo p v h l u = elim (Bool-cases (lo == v)) as (λ x. p v ≡ true) [
  | inl e ↦ subst (λ x. p x ≡ true) ((==_iff lo v).0 e) (ground (arith))
  | inr e ↦ all_from_lem n (suc lo) p v (ground (arith)) (ground (arith)) (omega arith)
]

all_in_lem :
    (r : Span) (p : ℕ → Bool) (v : ℕ) → all_in r p ≡ true → span_has v r ≡ true → p v ≡ true
unfolding all_in
all_in_lem (lo, hi) p v h k = all_from_lem (suc hi - lo) lo p v h (ground (arith)) (ground (arith))

all_ranges_lem :
    (rs : List Span) (p : ℕ → Bool) (v : ℕ)
    → all (λ r. all_in r p) rs ≡ true
    → any (span_has v) rs ≡ true
    → p v ≡ true
all_ranges_lem [] p v h k = absurd (cc (k))
all_ranges_lem (r ∷ rs) p v h k = ground (arith, all_in_lem r p v, all_ranges_lem rs p v)

-- A set that passes has only protocols with ports.
pub all_port_bearing-contains :
    (s : IntervalSet) (v : ℕ)
    → all_port_bearing s ≡ true
    → contains s v ≡ true
    → port_bearing v ≡ true
unfolding all_port_bearing contains
all_port_bearing-contains s v h k = elim (Bool-cases (is_full s)) as (λ x. port_bearing v ≡ true) [
  | inl f ↦ absurd (ground (arith))
  | inr f ↦ all_ranges_lem s.ranges port_bearing v (ground (arith)) k
]
