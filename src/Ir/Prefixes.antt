-- ===== src/Ir/Prefixes.antt =====
-- `range_to_prefixes` and `set_to_prefixes` of crates/ir/src/intervals.rs: a range as aligned blocks.
pub mod Cover
use fwdelta.Prelude.{
  ℕ, zero, suc, ◌+◌, ◌-◌, ◌/◌, ◌%◌, ◌^◌, Bool, true, false, List, [], ◌∷◌, ◌++◌, ltb, leb, ◌==◌,
  if◌then◌else◌, min,
}
use fwdelta.Ir.Intervals.{IntervalSet, Span}

-- A value and a prefix length.
abbrev pub Prefix : Type 0
Prefix = ℕ × ℕ

-- `trailing_zeros` of a number other than 0, which has at most `n` of them.
unfoldable pub trailing_zeros : ℕ → ℕ → ℕ
trailing_zeros zero v = 0
trailing_zeros (suc n) v = let rest = trailing_zeros n (v / 2) in if v % 2 == 0 then suc rest else 0

-- `63 - leading_zeros`, the logarithm of a number from 1 on, which is at most `n`.
unfoldable pub log_floor : ℕ → ℕ → ℕ
log_floor zero v = 0
log_floor (suc n) v = let rest = log_floor n (v / 2) in if ltb v 2 then 0 else suc rest

abbrev alignment : ℕ → ℕ → ℕ
alignment bits cur = if cur == 0 then bits else min (trailing_zeros 64 cur) bits

-- The power of the block at `cur`, with `remaining` values left.
unfoldable pub block_power : ℕ → ℕ → ℕ → ℕ
unfolding trailing_zeros log_floor
block_power bits cur remaining = min (min (alignment bits cur) (log_floor 63 remaining)) bits

-- The loop, on fuel; it ends where an addition overflows.
unfoldable pub prefixes_loop : ℕ → ℕ → ℕ → ℕ → List Prefix
unfolding block_power
prefixes_loop zero bits hi cur = []
prefixes_loop (suc fuel) bits hi cur =
    let n = block_power bits cur (hi - cur + 1) in
    elim (leb cur hi) [
      | true ↦ (cur, bits - n) ∷ elim (ltb (cur + 2 ^ n) (2 ^ 64)) [
        | true ↦ prefixes_loop fuel bits hi (cur + 2 ^ n)
        | false ↦ []
      ]
      | false ↦ []
    ]

unfoldable pub range_to_prefixes : ℕ → ℕ → ℕ → List Prefix
unfolding prefixes_loop
range_to_prefixes bits lo hi = prefixes_loop (suc hi - lo + 1) bits hi lo

unfoldable pub ranges_to_prefixes : ℕ → List Span → List Prefix
unfolding range_to_prefixes
ranges_to_prefixes bits [] = []
ranges_to_prefixes bits ((lo, hi) ∷ rs) = range_to_prefixes bits lo hi ++ ranges_to_prefixes bits rs

unfoldable pub set_to_prefixes : IntervalSet → List Prefix
unfolding ranges_to_prefixes
set_to_prefixes s = ranges_to_prefixes s.bits s.ranges
