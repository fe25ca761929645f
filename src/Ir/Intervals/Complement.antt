-- ===== src/Ir/Intervals/Complement.antt =====
-- `IntervalSet::complement` and `difference` of crates/ir/src/intervals.rs.
use fwdelta.Prelude.{
  ℕ, ◌+◌, ◌≤◌, ◌≡◌, refl, ◌∙◌, ap, sym, subst, ◌&&◌, not, true, List, [], ◌∷◌, arith, leb,
}
use fwdelta.Ir.Intervals.{Span, IntervalSet, domain_max, gaps, complement, difference, contains}
use fwdelta.Ir.Intervals.Normal.{Canonical, IsCanonical, Canonical-weaken}
use fwdelta.Ir.Intervals.Members.{has, has-le}
use fwdelta.Ir.Intervals.Sweep.{contains-intersect}

has-gaps :
    (c m v : ℕ) (rs : List Span)
    → c ≤ m
    → Canonical c m rs
    → has v (gaps m c rs) ≡ (leb c v && leb v m && not (has v rs))
unfolding gaps
has-gaps c m v [] h cs = ground arith
has-gaps c m v ((lo, hi) ∷ rs) h cs = ground (
  arith,
  has-gaps (hi + 1) m v rs,
  Canonical-weaken (hi + 1) (hi + 2) m rs,
  has-le (hi + 2) m v rs cs.3,
)

gaps-Canonical : (c m : ℕ) (rs : List Span) → c ≤ m → Canonical c m rs → Canonical c m (gaps m c rs)
unfolding gaps
gaps-Canonical c m [] h cs = omega arith
gaps-Canonical c m ((lo, hi) ∷ rs) h cs = ground (
  arith,
  gaps-Canonical (hi + 1) m rs,
  Canonical-weaken (hi + 1) (hi + 2) m rs,
  Canonical-weaken c (hi + 1) m (gaps m (hi + 1) rs),
  Canonical-weaken (lo + 1) (hi + 1) m (gaps m (hi + 1) rs),
)

pub complement-IsCanonical : (s : IntervalSet) → IsCanonical s → IsCanonical (complement s)
unfolding complement
complement-IsCanonical s cs = gaps-Canonical 0 (domain_max s.bits) s.ranges (omega arith) cs

-- The complement of a canonical set is canonical and holds exactly the values of the domain that
-- the set does not.
pub contains-complement :
    (s : IntervalSet) (v : ℕ)
    → IsCanonical s
    → IsCanonical (complement s)
      × (contains (complement s) v ≡ (leb v (domain_max s.bits) && not (contains s v)))
unfolding complement contains
contains-complement s v cs = (
  complement-IsCanonical s cs,
  has-gaps 0 (domain_max s.bits) v s.ranges (omega arith) cs ∙ ground arith,
)

pub bits-complement : (s : IntervalSet) → (complement s).bits ≡ s.bits
unfolding complement
bits-complement s = refl

-- The values of a canonical set are in the domain.
pub contains-le :
    (s : IntervalSet) (v : ℕ) → IsCanonical s → contains s v ≡ true → v ≤ domain_max s.bits
unfolding contains
contains-le s v cs h = (has-le 0 (domain_max s.bits) v s.ranges cs h).1

-- The difference of two canonical sets of one width is canonical and holds exactly the values of
-- the first that the second does not hold.
pub contains-difference :
    (s t : IntervalSet) (v : ℕ)
    → IsCanonical s
    → IsCanonical t
    → s.bits ≡ t.bits
    → IsCanonical (difference s t)
      × (contains (difference s t) v ≡ (contains s v && not (contains t v)))
unfolding difference
contains-difference s t v cs ct e =
    let (cn, members) = contains-complement t v ct in
    let (ci, both) = contains-intersect s (complement t) v cs cn (e ∙ sym (bits-complement t)) in
    (ci, both ∙ ap (λ b. contains s v && b) members ∙ within)
  where
    within :
        (contains s v && (leb v (domain_max t.bits) && not (contains t v)))
        ≡ (contains s v && not (contains t v))
    within =
        ground (arith, contains-le s v cs, subst (λ b. domain_max s.bits ≡ domain_max b) e refl)
