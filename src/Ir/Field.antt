-- ===== src/Ir/Field.antt =====
-- crates/ir/src/field.rs: the seven match dimensions and their widths.
use fwdelta.Prelude.{ℕ, ◌≡◌, Bool, true, false, List, [], ◌∷◌, arith, ◌==◌}

pub data Field : Type 0 where
  src_addr dst_addr src_port dst_port proto if_in if_out : Field

-- `Field::ALL`
abbrev pub all_fields : List Field
all_fields = src_addr ∷ dst_addr ∷ src_port ∷ dst_port ∷ proto ∷ if_in ∷ if_out ∷ []

abbrev pub bits : Field → ℕ
bits src_addr = 32
bits dst_addr = 32
bits src_port = 16
bits dst_port = 16
bits proto = 8
bits if_in = 8
bits if_out = 8

abbrev pub index : Field → ℕ
index src_addr = 0
index dst_addr = 1
index src_port = 2
index dst_port = 3
index proto = 4
index if_in = 5
index if_out = 6

unfoldable pub is_interface : Field → Bool
is_interface if_in = true
is_interface if_out = true
is_interface _ = false

-- The total width of the header space.
abbrev pub header_bits : ℕ
header_bits = 120

-- `==` on fields, which the source derives.
abbrev pub field_eq : Field → Field → Bool
field_eq f g = index f == index g

-- The indices are distinct.
pub index_injective : (f g : Field) → index f ≡ index g → f ≡ g
index_injective f g h = ground arith
