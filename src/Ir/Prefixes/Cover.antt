-- ===== src/Ir/Prefixes/Cover.antt =====
-- The blocks of `range_to_prefixes` in crates/ir/src/intervals.rs cover the range exactly.
use native.Mathlib.Nat.{pow-succ', mul_assoc, mul_comm, div-eq_of_lt-le}
use fwdelta.Prelude.{
  ℕ, zero, suc, ◌+◌, ◌-◌, ◌*◌, ◌/◌, ◌^◌, ◌≤◌, ◌<◌, ◌≡◌, refl, sym, ap, ◌∙◌, Bool, true, ◌&&◌, ◌||◌,
  List, [], ◌∷◌, arith, ltb, leb, ◌==◌, Bool-cases, inl, inr, any, any-append, All, ==_iff, leb→le,
  lt→ltb, ap₂,
}
use fwdelta.Ir.Intervals.Literals.{same_block, own_block, pow_pos}
use fwdelta.Ir.Intervals.{IntervalSet, Span, span_has, contains}
use fwdelta.Ir.Prefixes.{
  ranges_to_prefixes, set_to_prefixes, Prefix, trailing_zeros, log_floor, block_power,
  prefixes_loop, range_to_prefixes,
}

-- A multiple of `2 ^ n`.
abbrev pub Divides : ℕ → ℕ → Type 0
Divides n v = (q : ℕ) × (v ≡ q * 2 ^ n)

double : (q n : ℕ) → 2 * (q * 2 ^ n) ≡ q * 2 ^ suc n
double q n =
    sym (mul_assoc 2 q (2 ^ n))
    ∙ ap (λ (x : ℕ). x * 2 ^ n) (mul_comm 2 q)
    ∙ mul_assoc q 2 (2 ^ n)
    ∙ ap (λ (x : ℕ). q * x) (sym (pow-succ' 2 n))

trailing_zeros-Divides : (f v n : ℕ) → n ≤ trailing_zeros f v → Divides n v
unfolding trailing_zeros
trailing_zeros-Divides f v zero h = (v, omega arith)
trailing_zeros-Divides zero v (suc n) h = absurd (omega arith)
trailing_zeros-Divides (suc f) v (suc n) h =
    let (q, e) = trailing_zeros-Divides f (v / 2) n (ground (arith)) in
    let even : v ≡ 2 * (v / 2) = ground (arith) in (q, even ∙ ap (λ (x : ℕ). 2 * x) e ∙ double q n)

log_floor-le : (f v n : ℕ) → 1 ≤ v → n ≤ log_floor f v → 2 ^ n ≤ v
unfolding log_floor
log_floor-le f v zero p h = omega arith
log_floor-le zero v (suc n) p h = absurd (omega arith)
log_floor-le (suc f) v (suc n) p h =
    let big : 2 ≤ v = ground (arith) in
    let half : 2 ^ n ≤ v / 2 = log_floor-le f (v / 2) n (omega arith) (ground (arith)) in
    omega (arith, pow-succ' 2 n)

block_power-le : (bits cur r : ℕ) → block_power bits cur r ≤ bits
unfolding block_power
block_power-le bits cur r = omega arith

zero_multiple : (v b : ℕ) → v ≡ 0 → v ≡ 0 * b
zero_multiple v b e = omega (arith, e)

block_power-Divides : (bits cur r : ℕ) → Divides (block_power bits cur r) cur
unfolding block_power
block_power-Divides bits cur r = elim (Bool-cases (cur == 0)) [
  | inl e ↦ (0, zero_multiple cur (2 ^ block_power bits cur r) ((==_iff cur 0).0 e))
  | inr e ↦ trailing_zeros-Divides 64 cur (block_power bits cur r) (ground (arith))
]

block_power-fits : (bits cur r : ℕ) → 1 ≤ r → 2 ^ block_power bits cur r ≤ r
unfolding block_power
block_power-fits bits cur r h = log_floor-le 63 r (block_power bits cur r) h (omega arith)

-- A prefix has a value if they agree above the host bits.
abbrev pub prefix_has : ℕ → ℕ → Prefix → Bool
prefix_has bits x (v, len) = x / 2 ^ (bits - len) == v / 2 ^ (bits - len)

-- The block of an aligned number starts at it.
aligned : (x v n : ℕ) → Divides n v → (x / 2 ^ n == v / 2 ^ n) ≡ (leb v x && ltb x (v + 2 ^ n))
aligned x v n (q, e) =
    let start : v / 2 ^ n * 2 ^ n ≡ v =
      ap (λ (x : ℕ). x * 2 ^ n)
        (div-eq_of_lt-le (2 ^ n) (omega (arith, e)) (omega (arith, e, pow_pos n)))
      ∙ sym e in
    ground (arith, pow_pos n, same_block x v (2 ^ n) (pow_pos n), own_block x v (2 ^ n) (pow_pos n))

-- The block of a round.
block :
    (bits x cur r : ℕ)
    → let n = block_power bits cur r in
      prefix_has bits x (cur, bits - n) ≡ (leb cur x && ltb x (cur + 2 ^ n))
block bits x cur r =
    let n = block_power bits cur r in
    let back : bits - (bits - n) ≡ n = omega (arith, block_power-le bits cur r) in
    rw (back) (aligned x cur n (block_power-Divides bits cur r))

joined :
    (cur b hi x : ℕ)
    → cur + b ≤ suc hi
    → (leb cur x && ltb x (cur + b) || leb (cur + b) x && leb x hi) ≡ (leb cur x && leb x hi)
joined cur b hi x h = ground arith

loop_cover :
    (fuel bits hi cur x : ℕ)
    → hi < 2 ^ 63
    → hi < cur + fuel
    → any (prefix_has bits x) (prefixes_loop fuel bits hi cur) ≡ (leb cur x && leb x hi)
unfolding prefixes_loop
loop_cover zero bits hi cur x small h = ground arith
loop_cover (suc fuel) bits hi cur x small h =
    elim (Bool-cases (leb cur hi))
      as (λ c.
        any (prefix_has bits x) (prefixes_loop (suc fuel) bits hi cur) ≡ (leb cur x && leb x hi)) [
          | inl e ↦
              let r = hi - cur + 1 in
              let n = block_power bits cur r in
              let below : cur ≤ hi = leb→le cur hi e in
              let fits : 2 ^ n ≤ r = block_power-fits bits cur r (omega arith) in
              let room : ltb (cur + 2 ^ n) (2 ^ 64) ≡ true =
                lt→ltb (cur + 2 ^ n) (2 ^ 64) (omega arith) in
              let rest = loop_cover fuel bits hi (cur + 2 ^ n) x small (omega (arith, pow_pos n)) in
              let here = block bits x cur r in
              rw (prefixes_loop, e, room)
                (ap₂ (λ a b. a || b) here rest ∙ joined cur (2 ^ n) hi x (omega arith))
          | inr e ↦ rw (prefixes_loop, e) (ground arith)
        ]

-- The blocks of a range whose end is below 2 ^ 63 hold exactly the values of the range: the loop
-- ends, and no addition overflows.
pub range_to_prefixes-cover :
    (bits lo hi x : ℕ)
    → hi < 2 ^ 63
    → any (prefix_has bits x) (range_to_prefixes bits lo hi) ≡ (leb lo x && leb x hi)
unfolding range_to_prefixes
range_to_prefixes-cover bits lo hi x h = loop_cover (suc hi - lo + 1) bits hi lo x h (omega arith)

ranges-cover :
    (bits : ℕ) (rs : List Span) (x : ℕ)
    → All (λ r. r.1 < 2 ^ 63) rs
    → any (prefix_has bits x) (ranges_to_prefixes bits rs) ≡ any (span_has x) rs
unfolding ranges_to_prefixes
ranges-cover bits [] x h = refl
ranges-cover bits ((lo, hi) ∷ rs) x h =
    any-append (prefix_has bits x) (range_to_prefixes bits lo hi) (ranges_to_prefixes bits rs)
    ∙ ap₂ (λ a b. a || b) (range_to_prefixes-cover bits lo hi x h.0) (ranges-cover bits rs x h.1)

-- The prefixes of a set hold exactly the values of the set, if its ranges end below 2 ^ 63.
pub set_to_prefixes-cover :
    (s : IntervalSet) (x : ℕ)
    → All (λ r. r.1 < 2 ^ 63) s.ranges
    → any (prefix_has s.bits x) (set_to_prefixes s) ≡ contains s x
unfolding set_to_prefixes contains
set_to_prefixes-cover s x h = ranges-cover s.bits s.ranges x h
