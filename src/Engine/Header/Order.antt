-- ===== src/Engine/Header/Order.antt =====
-- The variable orders of crates/engine/src/header.rs: every field bit has a variable of its own, so
-- every packet has a valuation.
use fwdelta.Prelude.{
  ℕ, zero, suc, ◌<◌, ◌≡◌, refl, Bool, true, false, ◌&&◌, Option, none, some, arith, get_elem?, ◌==◌,
  length,
}
use fwdelta.Ir.Field.{
  Field, src_addr, dst_addr, src_port, dst_port, proto, if_in, if_out, bits, field_eq,
  index_injective, header_bits,
}
use fwdelta.Engine.Header.{VarOrder, field_major, addr_interleaved, FieldBit, sequence, new, var}

-- The field bit `(f, b)` stands at a position of the sequence.
abbrev stands_at : Option FieldBit → Field → ℕ → Bool
stands_at none f b = false
stands_at (some (g, c)) f b = field_eq g f && c == b

stands : VarOrder → Field → ℕ → Bool
stands o f b = stands_at (get_elem? (sequence o) (var (new o) f b)) f b

-- The first `n` bits of a field do.
first_stand : VarOrder → Field → ℕ → Bool
first_stand o f zero = true
first_stand o f (suc n) = first_stand o f n && stands o f n

bit_stands :
    (o : VarOrder) (f : Field) (b n : ℕ) → b < n → first_stand o f n ≡ true → stands o f b ≡ true
unfolding first_stand
bit_stands o f b zero below all = absurd (omega arith)
bit_stands o f b (suc n) below all = ground (arith, bit_stands o f b n)

checked : (o : VarOrder) (f : Field) → first_stand o f (bits f) ≡ true
unfolding first_stand stands sequence new var
checked field_major src_addr = refl
checked field_major dst_addr = refl
checked field_major src_port = refl
checked field_major dst_port = refl
checked field_major proto = refl
checked field_major if_in = refl
checked field_major if_out = refl
checked addr_interleaved src_addr = refl
checked addr_interleaved dst_addr = refl
checked addr_interleaved src_port = refl
checked addr_interleaved dst_port = refl
checked addr_interleaved proto = refl
checked addr_interleaved if_in = refl
checked addr_interleaved if_out = refl

stands_at_eq : (e : Option FieldBit) (f : Field) (b : ℕ) → stands_at e f b ≡ true → e ≡ some (f, b)
stands_at_eq none f b h = cc
stands_at_eq (some (g, c)) f b h = ground (arith, index_injective g f)

-- In both orders, the variable of each bit of each field is the place of that bit in the sequence,
-- and the sequence has the 120 variables of the header. So no variable stands for two bits.
pub sequence-var :
    (o : VarOrder) (f : Field) (b : ℕ)
    → b < bits f
    → (get_elem? (sequence o) (var (new o) f b) ≡ some (f, b)) × (length (sequence o) ≡ header_bits)
sequence-var o f b h =
    (stands_at_eq _ f b (unfold stands in bit_stands o f b (bits f) h (checked o f)), count o)
  where
    count : (o : VarOrder) → length (sequence o) ≡ header_bits
    count field_major = unfold sequence in refl
    count addr_interleaved = unfold sequence in refl
