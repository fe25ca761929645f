-- ===== src/Ir/Rule/Literals.antt =====
-- The sets that the parsers write down fit their fields.
use fwdelta.Prelude.{ℕ, ◌≤◌, ◌<◌, ◌≡◌, refl}
use fwdelta.Ir.Field.{Field, bits}
use fwdelta.Ir.Intervals.{IntervalSet, domain_max, point, range, prefix_range, union, empty}
use fwdelta.Ir.Intervals.Normal.{from_ranges-IsCanonical}
use fwdelta.Ir.Intervals.Literals.{
  point-IsCanonical, range-IsCanonical, bits-range, prefix_range-IsCanonical, bits-prefix_range,
}
use fwdelta.Ir.Rule.WellFormed.{Fits}

pub union-Fits : (f : Field) (s t : IntervalSet) → Fits f s → Fits f (union s t)
unfolding union
union-Fits f s t p = (from_ranges-IsCanonical s.bits _, p.1)

pub empty-Fits : (f : Field) → Fits f (empty (bits f))
empty-Fits f = (tt, refl)

pub point-Fits : (f : Field) (v : ℕ) → v ≤ domain_max (bits f) → Fits f (point (bits f) v)
point-Fits f v h = (point-IsCanonical (bits f) v h, refl)

pub range-Fits : (f : Field) (lo hi : ℕ) → Fits f (range (bits f) lo hi)
range-Fits f lo hi = (range-IsCanonical (bits f) lo hi, bits-range (bits f) lo hi)

-- A prefix of an address.
pub prefix_range-Fits :
    (f : Field) (v len : ℕ)
    → bits f < 64
    → len ≤ bits f
    → v ≤ domain_max (bits f)
    → Fits f (prefix_range (bits f) v len)
prefix_range-Fits f v len w l h =
    (prefix_range-IsCanonical (bits f) v len w l h, bits-prefix_range (bits f) v len)

pub domain_max_32 : domain_max 32 ≡ 4294967295
unfolding domain_max
domain_max_32 = refl

pub domain_max_16 : domain_max 16 ≡ 65535
unfolding domain_max
domain_max_16 = refl

pub domain_max_8 : domain_max 8 ≡ 255
unfolding domain_max
domain_max_8 = refl
