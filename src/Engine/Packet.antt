-- ===== src/Engine/Packet.antt =====
-- crates/engine/src/packet.rs: one packet, read off a valuation. Printing it is not modelled.
use fwdelta.Prelude.{ℕ, zero, suc, ◌+◌, ◌-◌, ◌^◌, Option, none, some, if◌then◌else◌}
use fwdelta.Ir.Field.{Field, src_addr, dst_addr, src_port, dst_port, proto, if_in, if_out, bits}
use fwdelta.Engine.Bdd.{BddLib, Valuation}
use fwdelta.Engine.Header.{Layout, var}

pub record Packet : Type 0 where
  pub src : ℕ
  pub dst : ℕ
  pub sport : ℕ
  pub dport : ℕ
  pub protocol : ℕ
  pub iif : ℕ
  pub oif : ℕ

-- The value of a packet in each dimension.
unfoldable pub value_of : Packet → Field → ℕ
value_of p src_addr = p.src
value_of p dst_addr = p.dst
value_of p src_port = p.sport
value_of p dst_port = p.dport
value_of p proto = p.protocol
value_of p if_in = p.iif
value_of p if_out = p.oif

-- The loop of `witness` over the bits of a field after `n` rounds. Each round sets a bit that is
-- still clear, so `|=` adds.
unfoldable pub field_bits : Layout → Valuation → Field → ℕ → ℕ
field_bits l v f zero = 0
field_bits l v f (suc n) = field_bits l v f n + (if v (var l f n) then 2 ^ (bits f - 1 - n) else 0)

unfoldable pub field : Layout → Valuation → Field → ℕ
unfolding field_bits
field l v f = field_bits l v f (bits f)

-- The casts to the widths of the fields lose nothing.
unfoldable pub packet_of : Layout → Valuation → Packet
unfolding field
packet_of l v = record {
  src = field l v src_addr;
  dst = field l v dst_addr;
  sport = field l v src_port;
  dport = field l v dst_port;
  protocol = field l v proto;
  iif = field l v if_in;
  oif = field l v if_out;
}

module _ ⦃lib : BddLib⦄ where
  open lib use {Bdd, sat_witness}

  unfoldable pub witness : Layout → Bdd → Option Packet
  unfolding packet_of
  witness l set = elim (sat_witness set) [ none ↦ none | some v ↦ some (packet_of l v) ]
