-- ===== src/Engine/Header/Bits.antt =====
-- The comparisons of crates/engine/src/header.rs, bit by bit.
use native.Mathlib.Nat.{
  pow-succ', div-add-mod, add-mul-mod_self_left, mod-eq_of_lt, mod-lt, zero-add,
}
use fwdelta.Prelude.{
  ℕ, zero, suc, ◌+◌, ◌-◌, ◌*◌, ◌/◌, ◌%◌, ◌^◌, ◌<◌, ◌≡◌, ◌∙◌, ap, ap₂, sym, if_cong, Bool, true,
  false, ◌&&◌, ◌||◌, not, arith, leb, ◌==◌, if◌then◌else◌,
}
use fwdelta.Ir.Field.{Field, bits}
use fwdelta.Engine.Bdd.{BddLib, Valuation}
use fwdelta.Engine.Header.{Layout, var, lit, bit_at, geq_low, leq_low, geq, leq}
use fwdelta.Engine.Packet.{field_bits, field}

-- The remainder by twice a number, from the digit above.
pub mod_double : (x p : ℕ) → 0 < p → x % (2 * p) ≡ x / p % 2 * p + x % p
mod_double x p h =
    let d = x / p % 2 in
    let e : x ≡ (d * p + x % p) + 2 * p * (x / p / 2) =
      omega (arith, div-add-mod x p, ap (λ (t : ℕ). p * t) halves) in
    ap (λ (t : ℕ). t % (2 * p)) e
    ∙ add-mul-mod_self_left (d * p + x % p) (2 * p) (x / p / 2)
    ∙ mod-eq_of_lt (below d (omega arith))
  where
    halves : x / p ≡ 2 * (x / p / 2) + x / p % 2
    halves = omega arith

    below : (d : ℕ) → d < 2 → d * p + x % p < 2 * p
    below zero k = omega (arith, mod-lt x h)
    below (suc zero) k = omega (arith, mod-lt x h)
    below (suc (suc d)) k = absurd (omega arith)

pub pow_pos : (n : ℕ) → 0 < 2 ^ n
pow_pos zero = omega arith
pow_pos (suc n) = omega (arith, pow-succ' 2 n, pow_pos n)

pub mod_pow_suc : (x n : ℕ) → x % 2 ^ suc n ≡ x / 2 ^ n % 2 * 2 ^ n + x % 2 ^ n
mod_pow_suc x n = ap (λ (t : ℕ). x % t) (pow-succ' 2 n) ∙ mod_double x (2 ^ n) (pow_pos n)

-- The value of the last `n` bits of a field.
unfoldable pub low : Layout → Valuation → Field → ℕ → ℕ
low l v f zero = 0
low l v f (suc n) = (if v (var l f (bits f - 1 - n)) then 2 ^ n else 0) + low l v f n

pub low-lt : (l : Layout) (v : Valuation) (f : Field) (n : ℕ) → low l v f n < 2 ^ n
unfolding low
low-lt l v f zero = omega arith
low-lt l v f (suc n) = ground (arith, low-lt l v f n, pow-succ' 2 n)

-- One step of a comparison: the digits `x` and `y` above what is compared by `below`.
geq_step :
    (x : Bool) (d p lo below : ℕ)
    → d < 2
    → lo < p
    → below < p
    → (if d == 1 then x && leb lo below else x || leb lo below)
      ≡ leb (d * p + lo) ((if x then p else 0) + below)
geq_step x zero p lo below h k j = ground arith
geq_step x (suc zero) p lo below h k j = ground arith
geq_step x (suc (suc d)) p lo below h k j = absurd (omega arith)

leq_step :
    (x : Bool) (d p hi below : ℕ)
    → d < 2
    → hi < p
    → below < p
    → (if d == 1 then not x || leb below hi else not x && leb below hi)
      ≡ leb ((if x then p else 0) + below) (d * p + hi)
leq_step x zero p hi below h k j = ground arith
leq_step x (suc zero) p hi below h k j = ground arith
leq_step x (suc (suc d)) p hi below h k j = absurd (omega arith)

-- The two loops over a field's bits, from either end, meet.
both_ends :
    (l : Layout) (v : Valuation) (f : Field) (n k : ℕ)
    → n + k ≡ bits f
    → field_bits l v f n + low l v f k ≡ low l v f (bits f)
unfolding field_bits low
both_ends l v f zero k h =
    let e : k ≡ bits f = omega arith in zero-add (low l v f k) ∙ ap (low l v f) e
both_ends l v f (suc n) k h =
    let e : bits f - 1 - k ≡ n = omega arith in
    let e' : bits f - 1 - n ≡ k = omega arith in
    let here = ap (λ (b : ℕ). if v (var l f b) then 2 ^ k else 0) e in
    let there = ap (λ (j : ℕ). if v (var l f n) then 2 ^ j else 0) e' in
    omega (arith, both_ends l v f n (suc k) (omega arith), here, there)

pub field-low : (l : Layout) (v : Valuation) (f : Field) → field l v f ≡ low l v f (bits f)
unfolding field low
field-low l v f = omega (arith, both_ends l v f (bits f) 0 (omega arith))

pub field-lt : (l : Layout) (v : Valuation) (f : Field) → field l v f < 2 ^ bits f
field-lt l v f = rw field-low (low-lt l v f (bits f))

module _ ⦃lib : BddLib⦄ (l : Layout) (v : Valuation) (f : Field) where
  open lib use {eval, eval-mk_true, eval-mk_literal, eval-and, eval-or}

  eval-lit :
      (b : ℕ) (x : Bool) → eval (lit l f b x) v ≡ (if x then v (var l f b) else not (v (var l f b)))
  unfolding lit
  eval-lit b x = eval-mk_literal (var l f b) x v

  eval-geq_low : (lo n : ℕ) → eval (geq_low l f lo n) v ≡ leb (lo % 2 ^ n) (low l v f n)
  unfolding geq_low low
  eval-geq_low lo zero = eval-mk_true v ∙ ground arith
  eval-geq_low lo (suc n) =
      let x = v (var l f (bits f - 1 - n)) in
      let acc = geq_low l f lo n in
      let ih = eval-geq_low lo n in
      if_cong (λ t. eval t v) (bit_at lo n)
        (eval-and _ acc v ∙ ap₂ ◌&&◌ (eval-lit (bits f - 1 - n) true) ih)
        (eval-or _ acc v ∙ ap₂ ◌||◌ (eval-lit (bits f - 1 - n) true) ih)
      ∙ geq_step x (lo / 2 ^ n % 2) (2 ^ n) (lo % 2 ^ n) (low l v f n) (mod-lt _ (omega arith))
          (mod-lt lo (pow_pos n)) (low-lt l v f n)
      ∙ ap (λ (t : ℕ). leb t (low l v f (suc n))) (sym (mod_pow_suc lo n))

  eval-leq_low : (hi n : ℕ) → eval (leq_low l f hi n) v ≡ leb (low l v f n) (hi % 2 ^ n)
  unfolding leq_low low
  eval-leq_low hi zero = eval-mk_true v ∙ ground arith
  eval-leq_low hi (suc n) =
      let x = v (var l f (bits f - 1 - n)) in
      let acc = leq_low l f hi n in
      let ih = eval-leq_low hi n in
      if_cong (λ t. eval t v) (bit_at hi n)
        (eval-or _ acc v ∙ ap₂ ◌||◌ (eval-lit (bits f - 1 - n) false) ih)
        (eval-and _ acc v ∙ ap₂ ◌&&◌ (eval-lit (bits f - 1 - n) false) ih)
      ∙ leq_step x (hi / 2 ^ n % 2) (2 ^ n) (hi % 2 ^ n) (low l v f n) (mod-lt _ (omega arith))
          (mod-lt hi (pow_pos n)) (low-lt l v f n)
      ∙ ap (λ (t : ℕ). leb (low l v f (suc n)) t) (sym (mod_pow_suc hi n))

  -- `field >= lo` and `field <= hi`, for bounds that fit the field.
  pub eval-geq : (lo : ℕ) → lo < 2 ^ bits f → eval (geq l f lo) v ≡ leb lo (field l v f)
  unfolding geq
  eval-geq lo h =
      eval-geq_low lo (bits f) ∙ ap₂ (λ (a b : ℕ). leb a b) (mod-eq_of_lt h) (sym (field-low l v f))

  pub eval-leq : (hi : ℕ) → hi < 2 ^ bits f → eval (leq l f hi) v ≡ leb (field l v f) hi
  unfolding leq
  eval-leq hi h =
      eval-leq_low hi (bits f) ∙ ap₂ (λ (a b : ℕ). leb a b) (sym (field-low l v f)) (mod-eq_of_lt h)
