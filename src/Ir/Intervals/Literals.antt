-- ===== src/Ir/Intervals/Literals.antt =====
-- Sets written down as one value, one range or one prefix, in crates/ir/src/intervals.rs.
use native.Mathlib.Nat.{
  div-mul-le_self, lt-div-mul-add, div-eq_of_lt-le, div-lt_iff_lt-mul, mul-le-mul_right, pow-succ',
  mul_assoc,
}
use fwdelta.Prelude.{
  ℕ, zero, suc, ◌+◌, ◌-◌, ◌*◌, ◌/◌, ◌^◌, ◌≤◌, ◌<◌, ◌≡◌, refl, false, some, ◌&&◌, [], ◌∷◌, arith,
  leb, ◌==◌, ltb, Bool-cases, inl, inr, sym, ap, subst, ◌∙◌,
}
use fwdelta.Ir.Intervals.{domain_max, point, range, prefix_range, prefix, contains, IntervalSet}
use fwdelta.Ir.Intervals.Normal.{IsCanonical}

pub point-IsCanonical : (w v : ℕ) → v ≤ domain_max w → IsCanonical (point w v)
point-IsCanonical w v h = omega arith

pub range-IsCanonical : (w lo hi : ℕ) → IsCanonical (range w lo hi)
unfolding range
range-IsCanonical w lo hi = elim (Bool-cases (ltb hi lo)) [
  | inl e ↦ rw (e, range) tt
  | inr e ↦ rw (e, range) (ground arith)
]

pub bits-range : (w lo hi : ℕ) → (range w lo hi).bits ≡ w
unfolding range
bits-range w lo hi = elim (Bool-cases (ltb hi lo)) [
  | inl e ↦ rw (e, range) refl
  | inr e ↦ rw (e, range) refl
]

-- A range that does not run backwards holds what it says, in the domain.
pub contains-range :
    (w lo hi v : ℕ)
    → lo ≤ hi
    → hi ≤ domain_max w
    → contains (range w lo hi) v ≡ (leb lo v && leb v hi)
unfolding range contains
contains-range w lo hi v h k = elim (Bool-cases (ltb hi lo)) [
  | inl e ↦ absurd (ground arith)
  | inr e ↦ rw (e, range) (ground arith)
]

pub pow_add : (a b : ℕ) → 2 ^ (a + b) ≡ 2 ^ a * 2 ^ b
pow_add zero b = omega (arith, ap (λ (x : ℕ). 2 ^ x) zero_add)
  where
    zero_add : 0 + b ≡ b
    zero_add = omega arith
pow_add (suc a) b =
    ap (λ (x : ℕ). 2 ^ x) shift
    ∙ pow-succ' 2 (a + b)
    ∙ ap (λ (x : ℕ). 2 * x) (pow_add a b)
    ∙ sym (mul_assoc 2 (2 ^ a) (2 ^ b))
    ∙ ap (λ (x : ℕ). x * 2 ^ b) (sym (pow-succ' 2 a))
  where
    shift : suc a + b ≡ suc (a + b)
    shift = omega arith

-- `x` is in the block of `v` exactly when both have the same block.
pub same_block : (x v b : ℕ) → 0 < b → v / b * b ≤ x → x ≤ v / b * b + (b - 1) → x / b ≡ v / b
same_block x v b h lo hi = div-eq_of_lt-le b lo above
  where
    above : x < (v / b + 1) * b
    above = omega arith

pub own_block : (x v b : ℕ) → 0 < b → x / b ≡ v / b → (v / b * b ≤ x) × (x ≤ v / b * b + (b - 1))
own_block x v b h e =
    let lo = div-mul-le_self x b in
    let hi = lt-div-mul-add {a = x} h in
    let same = ap (λ (q : ℕ). q * b) e in (omega arith, omega arith)

in_block :
    (w x v b : ℕ)
    → 0 < b
    → contains (record { bits = w; ranges = (v / b * b, v / b * b + (b - 1)) ∷ [] }) x
      ≡ (x / b == v / b)
unfolding contains
in_block w x v b h = ground (arith, same_block x v b h, own_block x v b h)

pub pow_pos : (n : ℕ) → 0 < 2 ^ n
pow_pos zero = omega arith
pow_pos (suc n) = omega (arith, pow-succ' 2 n, pow_pos n)

-- The block of `b` numbers that `v` is in ends below a multiple of `b` that `v` is below.
block_below : (v b k : ℕ) → 0 < b → v < k * b → v / b * b + (b - 1) < k * b
block_below v b k h lt =
    let q : suc (v / b) ≤ k = (div-lt_iff_lt-mul h).1 lt in omega (arith, mul-le-mul_right b q)

-- A prefix of a narrow field is the block of its value.
prefix_range_lem :
    (w v len : ℕ)
    → w < 64
    → prefix_range w v len ≡ (
        let b = 2 ^ (w - len) in
        record { bits = w; ranges = (v / b * b, v / b * b + (b - 1)) ∷ [] })
unfolding prefix_range
prefix_range_lem w v len small = rw (narrow, prefix_range) refl
  where
    narrow : leb 64 (w - len) ≡ false
    narrow = ground arith

domain_max_lem : (w : ℕ) → w < 64 → domain_max w ≡ 2 ^ w - 1
unfolding domain_max
domain_max_lem w small = ground arith

-- The block lies in the domain.
prefix_below :
    (w v len : ℕ)
    → len ≤ w
    → v < 2 ^ w
    → v / 2 ^ (w - len) * 2 ^ (w - len) + (2 ^ (w - len) - 1) < 2 ^ w
prefix_below w v len h k =
    subst (λ (x : ℕ). v / b * b + (b - 1) < x) whole
      (block_below v b (2 ^ len) (pow_pos (w - len)) (subst (λ (x : ℕ). v < x) (sym whole) k))
  where
    b : ℕ
    b = 2 ^ (w - len)

    split : len + (w - len) ≡ w
    split = omega arith

    whole : 2 ^ len * 2 ^ (w - len) ≡ 2 ^ w
    whole = sym (pow_add len (w - len)) ∙ ap (λ (x : ℕ). 2 ^ x) split

pub prefix_range-IsCanonical :
    (w v len : ℕ) → w < 64 → len ≤ w → v ≤ domain_max w → IsCanonical (prefix_range w v len)
prefix_range-IsCanonical w v len small h k =
    let d = domain_max_lem w small in
    let p = pow_pos w in
    let below = prefix_below w v len h (omega arith) in
    subst IsCanonical (sym (prefix_range_lem w v len small)) (rw (d) (omega arith))

pub bits-prefix_range : (w v len : ℕ) → (prefix_range w v len).bits ≡ w
unfolding prefix_range
bits-prefix_range w v len = refl

-- A prefix that is no longer than its field has a range.
pub prefix_lem : (w v len : ℕ) → len ≤ w → prefix w v len ≡ some (prefix_range w v len)
unfolding prefix
prefix_lem w v len h = ground arith

-- A prefix of a field narrower than 64 bits, no longer than the field, does not panic; it is canonical,
-- and it holds exactly the values that agree with its value above the host bits.
pub contains-prefix :
    (w v len x : ℕ)
    → w < 64
    → len ≤ w
    → v ≤ domain_max w
    → (s : IntervalSet) × (prefix w v len ≡ some s)
      × IsCanonical s
      × (contains s x ≡ (x / 2 ^ (w - len) == v / 2 ^ (w - len)))
contains-prefix w v len x small h k = (
  prefix_range w v len,
  prefix_lem w v len h,
  prefix_range-IsCanonical w v len small h k,
  rw (prefix_range_lem w v len small) (in_block w x v (2 ^ (w - len)) (pow_pos (w - len))),
)
