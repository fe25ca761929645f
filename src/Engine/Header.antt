-- ===== src/Engine/Header.antt =====
-- crates/engine/src/header.rs: the header space on the variables of decision diagrams. Variable
-- `i` of the library's variable set is the number `i`.
pub mod Order
pub mod Bits
pub mod Encode
pub mod Ranges
pub mod Matches
use fwdelta.Prelude.{
  ℕ, zero, suc, ◌+◌, ◌-◌, ◌/◌, ◌%◌, ◌^◌, Bool, true, false, ◌&&◌, List, [], ◌∷◌, ◌++◌, ltb, leb,
  ◌==◌, if◌then◌else◌,
}
use fwdelta.Ir.Field.{
  Field, src_addr, dst_addr, src_port, dst_port, proto, if_in, if_out, all_fields, bits, field_eq,
}
use fwdelta.Ir.Intervals.{IntervalSet, Span, domain_max, is_full}
use fwdelta.Ir.Interface.{SymbolTable, resolve}
use fwdelta.Ir.Rule.{Match}
use fwdelta.Engine.Bdd.{BddLib}

pub data VarOrder : Type 0 where
  field_major addr_interleaved : VarOrder

abbrev pub FieldBit : Type 0
FieldBit = Field × ℕ

-- `for b in b..b + n { v.push((f, b)) }`
unfoldable pub bits_of : Field → ℕ → ℕ → List FieldBit
bits_of f b zero = []
bits_of f b (suc n) = (f, b) ∷ bits_of f (b + 1) n

-- The same, for two fields in turn.
unfoldable pub interleaved : Field → Field → ℕ → ℕ → List FieldBit
interleaved f g b zero = []
interleaved f g b (suc n) = (f, b) ∷ (g, b) ∷ interleaved f g (b + 1) n

unfoldable pub each_bits : List Field → List FieldBit
unfolding bits_of
each_bits [] = []
each_bits (f ∷ fs) = bits_of f 0 (bits f) ++ each_bits fs

unfoldable pub order_tail : VarOrder → List FieldBit
unfolding each_bits interleaved
order_tail field_major = each_bits (src_addr ∷ dst_addr ∷ src_port ∷ dst_port ∷ [])
order_tail addr_interleaved =
    interleaved src_addr dst_addr 0 32 ++ interleaved src_port dst_port 0 16

-- `VarOrder::sequence`: position `i` is variable `i`.
unfoldable pub sequence : VarOrder → List FieldBit
unfolding order_tail
sequence order = each_bits (proto ∷ if_in ∷ if_out ∷ []) ++ order_tail order

-- `u16::MAX`, which fills the table of positions at first.
abbrev pub u16_max : ℕ
u16_max = 65535

abbrev pub Positions : Type 0
Positions = Field → ℕ → ℕ

-- `pos[f.index()][b] = i`
abbrev pub set_position : Positions → FieldBit → ℕ → Positions
set_position pos (f, b) i g c = if field_eq f g && b == c then i else pos g c

-- The loop that fills the table.
unfoldable pub fill : ℕ → List FieldBit → Positions → Positions
fill i [] pos = pos
fill i (fb ∷ s) pos = fill (i + 1) s (set_position pos fb i)

pub record Layout : Type 0 where
  pub order : VarOrder
  pub pos : Positions
  pub sequence : List FieldBit

unfoldable pub new : VarOrder → Layout
unfolding fill
new order = record {
  order = order;
  pos = fill 0 (sequence order) (λ f b. u16_max);
  sequence = sequence order;
}

-- `Layout::var` and `Layout::var_index`.
unfoldable pub var : Layout → Field → ℕ → ℕ
var l f b = l.pos f b

-- `(value >> k) & 1 == 1`
abbrev pub bit_at : ℕ → ℕ → Bool
bit_at value k = value / 2 ^ k % 2 == 1

-- The set that `match_bdd` takes for each dimension: the interfaces resolved, the others as stored.
unfoldable pub dim_set : Match → SymbolTable → Field → IntervalSet
dim_set m t src_addr = m.src_addr_set
dim_set m t dst_addr = m.dst_addr_set
dim_set m t src_port = m.src_port_set
dim_set m t dst_port = m.dst_port_set
dim_set m t proto = m.proto_set
dim_set m t if_in = resolve t m.iif
dim_set m t if_out = resolve t m.oif

module _ ⦃lib : BddLib⦄ where
  open lib use {Bdd, mk_true, mk_false, mk_literal, and, or, is_false}

  unfoldable pub lit : Layout → Field → ℕ → Bool → Bdd
  lit l f b value = mk_literal (var l f b) value

  -- The loop of `prefix` after `n` rounds.
  unfoldable pub prefix_bits : Layout → Field → ℕ → ℕ → Bdd
  prefix_bits l f value zero = mk_true
  prefix_bits l f value (suc n) =
      and (prefix_bits l f value n) (lit l f n (bit_at value (bits f - 1 - n)))

  -- `prefix`, under its assertion `len <= bits`.
  unfoldable pub prefix : Layout → Field → ℕ → ℕ → Bdd
  unfolding prefix_bits
  prefix l f value len = prefix_bits l f value len

  unfoldable pub eq : Layout → Field → ℕ → Bdd
  unfolding prefix
  eq l f value = prefix l f value (bits f)

  -- The loop of `geq` over the last `n` bits, the least significant first.
  unfoldable pub geq_low : Layout → Field → ℕ → ℕ → Bdd
  geq_low l f lo zero = mk_true
  geq_low l f lo (suc n) =
      let acc = geq_low l f lo n in
      if bit_at lo n
      then and (lit l f (bits f - 1 - n) true) acc
      else or (lit l f (bits f - 1 - n) true) acc

  unfoldable pub geq : Layout → Field → ℕ → Bdd
  unfolding geq_low
  geq l f lo = geq_low l f lo (bits f)

  unfoldable pub leq_low : Layout → Field → ℕ → ℕ → Bdd
  leq_low l f hi zero = mk_true
  leq_low l f hi (suc n) =
      let acc = leq_low l f hi n in
      if bit_at hi n
      then or (lit l f (bits f - 1 - n) false) acc
      else and (lit l f (bits f - 1 - n) false) acc

  unfoldable pub leq : Layout → Field → ℕ → Bdd
  unfolding leq_low
  leq l f hi = leq_low l f hi (bits f)

  unfoldable pub range : Layout → Field → ℕ → ℕ → Bdd
  unfolding geq leq
  range l f lo hi =
      if ltb hi lo
      then mk_false
      else if lo == 0
      then (if leb (domain_max (bits f)) hi then mk_true else leq l f hi)
      else if leb (domain_max (bits f)) hi
      then geq l f lo
      else and (geq l f lo) (leq l f hi)

  unfoldable pub union_of : Layout → Field → List Span → Bdd → Bdd
  union_of l f [] acc = acc
  union_of l f ((lo, hi) ∷ rs) acc = union_of l f rs (or acc (range l f lo hi))

  unfoldable pub set : Layout → Field → IntervalSet → Bdd
  unfolding union_of
  set l f s = if is_full s then mk_true else union_of l f s.ranges mk_false

  -- The loop of `match_bdd`, with its `continue` and its `break`.
  unfoldable pub match_loop : Layout → Match → SymbolTable → List Field → Bdd → Bdd
  match_loop l m t [] acc = acc
  match_loop l m t (f ∷ fs) acc =
      let s = dim_set m t f in
      let skipped = match_loop l m t fs acc in
      let acc' = and acc (set l f s) in
      let rest = match_loop l m t fs acc' in
      if is_full s then skipped else if is_false acc' then acc' else rest

  unfoldable pub match_bdd : Layout → Match → SymbolTable → Bdd
  unfolding match_loop dim_set set range lit
  match_bdd l m t = match_loop l m t all_fields mk_true
