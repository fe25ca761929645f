-- ===== src/Ir/Intervals/Sweep.antt =====
-- `IntervalSet::intersect` of crates/ir/src/intervals.rs: the two-pointer sweep.
use fwdelta.Prelude.{
  ℕ, ◌+◌, ◌≤◌, ◌≡◌, refl, sym, subst, ◌&&◌, ◌||◌, Bool, true, false, List, [], ◌∷◌, arith, max, min,
  ltb, ltb→lt, le_of_ltb, le_of_not_ltb, Bool-cases, inl, inr,
}
use fwdelta.Ir.Intervals.{
  Span, IntervalSet, domain_max, span_has, push_overlap, sweep, intersect, contains,
}
use fwdelta.Ir.Intervals.Normal.{Canonical, IsCanonical}
use fwdelta.Ir.Intervals.Members.{has, has-le}

has-push_overlap :
    (v : ℕ) (a b : Span) (out : List Span)
    → has v (push_overlap a b out) ≡ (span_has v a && span_has v b || has v out)
unfolding push_overlap
has-push_overlap v (a0, a1) (b0, b1) out = ground arith

-- How the overlap of the first ranges and the rest of the sweep join, where one of the first ranges
-- excludes the rest of the other list.
join_overlap_left :
    (a b s t : Bool) → (a ≡ true → t ≡ false) → (a && b || (s && (b || t))) ≡ ((a || s) && (b || t))
join_overlap_left a b s t h = ground arith

join_overlap_right :
    (a b s t : Bool) → (b ≡ true → s ≡ false) → (a && b || ((a || s) && t)) ≡ ((a || s) && (b || t))
join_overlap_right a b s t h = ground arith

-- A value of the first range is in no later range of the other list.
apart :
    (m v a0 a1 b1 : ℕ) (ts : List Span)
    → Canonical (b1 + 2) m ts
    → a1 ≤ b1
    → span_has v (a0, a1) ≡ true
    → has v ts ≡ false
apart m v a0 a1 b1 ts ct h e = ground (arith, has-le (b1 + 2) m v ts ct)

sweep_left :
    (a0 a1 b0 b1 : ℕ) (ss ts : List Span)
    → ltb a1 b1 ≡ true
    → sweep ((a0, a1) ∷ ss) ((b0, b1) ∷ ts)
      ≡ push_overlap (a0, a1) (b0, b1) (sweep ss ((b0, b1) ∷ ts))
unfolding sweep
sweep_left a0 a1 b0 b1 ss ts p = rw (p, sweep)

sweep_right :
    (a0 a1 b0 b1 : ℕ) (ss ts : List Span)
    → ltb a1 b1 ≡ false
    → sweep ((a0, a1) ∷ ss) ((b0, b1) ∷ ts)
      ≡ push_overlap (a0, a1) (b0, b1) (sweep ((a0, a1) ∷ ss) ts)
unfolding sweep
sweep_right a0 a1 b0 b1 ss ts p = rw (p, sweep)

has-sweep :
    (x y m v : ℕ) (ss ts : List Span)
    → Canonical x m ss
    → Canonical y m ts
    → has v (sweep ss ts) ≡ (has v ss && has v ts)
unfolding sweep
has-sweep x y m v [] ts cs ct = refl
has-sweep x y m v (a ∷ ss) [] cs ct = ground arith
has-sweep x y m v ((a0, a1) ∷ ss) ((b0, b1) ∷ ts) cs ct = elim (Bool-cases (ltb a1 b1)) [
  | inl p ↦
      rw
        (
          sweep_left a0 a1 b0 b1 ss ts p,
          has-push_overlap,
          has-sweep (a1 + 2) y m v ss ((b0, b1) ∷ ts) cs.3 ct,
        )
        (join_overlap_left _ _ _ _ (apart m v a0 a1 b1 ts ct.3 (le_of_ltb a1 b1 p)))
  | inr p ↦
      rw
        (
          sweep_right a0 a1 b0 b1 ss ts p,
          has-push_overlap,
          has-sweep x (b1 + 2) m v ((a0, a1) ∷ ss) ts cs ct.3,
        )
        (join_overlap_right _ _ _ _ (apart m v b0 b1 a1 ss cs.3 (le_of_not_ltb a1 b1 p)))
]

push_overlap-Canonical :
    (z m a0 a1 b0 b1 : ℕ) (out : List Span)
    → z ≤ max a0 b0
    → min a1 b1 ≤ m
    → Canonical z m out
    → Canonical (min a1 b1 + 2) m out
    → Canonical z m (push_overlap (a0, a1) (b0, b1) out)
unfolding push_overlap
push_overlap-Canonical z m a0 a1 b0 b1 out h k c d = ground arith

sweep-Canonical :
    (x y z m : ℕ) (ss ts : List Span)
    → z ≤ max x y
    → Canonical x m ss
    → Canonical y m ts
    → Canonical z m (sweep ss ts)
unfolding sweep
sweep-Canonical x y z m [] ts h cs ct = tt
sweep-Canonical x y z m (a ∷ ss) [] h cs ct = tt
sweep-Canonical x y z m ((a0, a1) ∷ ss) ((b0, b1) ∷ ts) h cs ct = elim (Bool-cases (ltb a1 b1)) [
  | inl p ↦
      let lt = ltb→lt a1 b1 p in
      let rest = λ (w : ℕ) (k : w ≤ max (a1 + 2) y).
        sweep-Canonical (a1 + 2) y w m ss ((b0, b1) ∷ ts) k cs.3 ct in
      rw (sweep_left a0 a1 b0 b1 ss ts p) (
        push_overlap-Canonical z m a0 a1 b0 b1 _ (omega arith) (omega arith) (rest z (omega arith))
          (rest (min a1 b1 + 2) (omega arith)))
  | inr p ↦
      let le = le_of_not_ltb a1 b1 p in
      let rest = λ (w : ℕ) (k : w ≤ max x (b1 + 2)).
        sweep-Canonical x (b1 + 2) w m ((a0, a1) ∷ ss) ts k cs ct.3 in
      rw (sweep_right a0 a1 b0 b1 ss ts p) (
        push_overlap-Canonical z m a0 a1 b0 b1 _ (omega arith) (omega arith) (rest z (omega arith))
          (rest (min a1 b1 + 2) (omega arith)))
]

-- The intersection of two canonical sets of one width is canonical, with no further merging, and
-- holds exactly the values of both.
pub contains-intersect :
    (s t : IntervalSet) (v : ℕ)
    → IsCanonical s
    → IsCanonical t
    → s.bits ≡ t.bits
    → IsCanonical (intersect s t) × (contains (intersect s t) v ≡ (contains s v && contains t v))
unfolding intersect contains
contains-intersect s t v cs ct e =
    let m = domain_max s.bits in
    let ct' : Canonical 0 m t.ranges =
      subst (λ b. Canonical 0 (domain_max b) t.ranges) (sym e) ct in
    (
      sweep-Canonical 0 0 0 m s.ranges t.ranges (omega arith) cs ct',
      has-sweep 0 0 m v s.ranges t.ranges cs ct',
    )
