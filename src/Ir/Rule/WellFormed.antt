-- ===== src/Ir/Rule/WellFormed.antt =====
-- The invariant of match predicates of crates/ir/src/rule.rs: every stored set is canonical and has
-- the width of its dimension. Every operation keeps it.
use fwdelta.Prelude.{ℕ, ◌≡◌, refl, Bool, true, Option, none, some, ◌∙◌, sym}
use fwdelta.Ir.Field.{Field, src_addr, dst_addr, src_port, dst_port, proto, if_in, if_out, bits}
use fwdelta.Ir.Intervals.{IntervalSet, full, intersect, contains}
use fwdelta.Ir.Intervals.Normal.{IsCanonical}
use fwdelta.Ir.Intervals.Equality.{full-IsCanonical}
use fwdelta.Ir.Intervals.Sweep.{contains-intersect}
use fwdelta.Ir.Rule.{Match, any_match, packet_dim, constrain, relax}

abbrev pub Fits : Field → IntervalSet → Type 0
Fits f s = IsCanonical s × (s.bits ≡ bits f)

pub record IsWellFormed (m : Match) : Type 0 where
  pub src_addr_fits : Fits src_addr m.src_addr_set
  pub dst_addr_fits : Fits dst_addr m.dst_addr_set
  pub src_port_fits : Fits src_port m.src_port_set
  pub dst_port_fits : Fits dst_port m.dst_port_set
  pub proto_fits : Fits proto m.proto_set

pub full-Fits : (f : Field) → Fits f (full (bits f))
full-Fits f = (full-IsCanonical (bits f), refl)

pub any_match-IsWellFormed : IsWellFormed any_match
any_match-IsWellFormed = record {
  src_addr_fits = full-Fits src_addr;
  dst_addr_fits = full-Fits dst_addr;
  src_port_fits = full-Fits src_port;
  dst_port_fits = full-Fits dst_port;
  proto_fits = full-Fits proto;
}

bits-intersect : (s t : IntervalSet) → (intersect s t).bits ≡ s.bits
unfolding intersect
bits-intersect s t = refl

intersect-Fits : (f : Field) (s t : IntervalSet) → Fits f s → Fits f t → Fits f (intersect s t)
intersect-Fits f s t p q =
    ((contains-intersect s t 0 p.0 q.0 (p.1 ∙ sym q.1)).0, bits-intersect s t ∙ p.1)

-- The match after `constrain`; a panic leaves none.
abbrev pub Keeps : Option Match → Type 0
Keeps none = Unit
Keeps (some m) = IsWellFormed m

pub constrain-IsWellFormed :
    (m : Match) (f : Field) (s : IntervalSet) → IsWellFormed m → Fits f s → Keeps (constrain m f s)
unfolding constrain
constrain-IsWellFormed m src_addr s w p = record {
  src_addr_fits = intersect-Fits src_addr m.src_addr_set s w.src_addr_fits p;
  dst_addr_fits = w.dst_addr_fits;
  src_port_fits = w.src_port_fits;
  dst_port_fits = w.dst_port_fits;
  proto_fits = w.proto_fits;
}
constrain-IsWellFormed m dst_addr s w p = record {
  src_addr_fits = w.src_addr_fits;
  dst_addr_fits = intersect-Fits dst_addr m.dst_addr_set s w.dst_addr_fits p;
  src_port_fits = w.src_port_fits;
  dst_port_fits = w.dst_port_fits;
  proto_fits = w.proto_fits;
}
constrain-IsWellFormed m src_port s w p = record {
  src_addr_fits = w.src_addr_fits;
  dst_addr_fits = w.dst_addr_fits;
  src_port_fits = intersect-Fits src_port m.src_port_set s w.src_port_fits p;
  dst_port_fits = w.dst_port_fits;
  proto_fits = w.proto_fits;
}
constrain-IsWellFormed m dst_port s w p = record {
  src_addr_fits = w.src_addr_fits;
  dst_addr_fits = w.dst_addr_fits;
  src_port_fits = w.src_port_fits;
  dst_port_fits = intersect-Fits dst_port m.dst_port_set s w.dst_port_fits p;
  proto_fits = w.proto_fits;
}
constrain-IsWellFormed m proto s w p = record {
  src_addr_fits = w.src_addr_fits;
  dst_addr_fits = w.dst_addr_fits;
  src_port_fits = w.src_port_fits;
  dst_port_fits = w.dst_port_fits;
  proto_fits = intersect-Fits proto m.proto_set s w.proto_fits p;
}
constrain-IsWellFormed m if_in s w p = tt
constrain-IsWellFormed m if_out s w p = tt

pub relax-IsWellFormed : (m : Match) (f : Field) → IsWellFormed m → IsWellFormed (relax m f)
unfolding relax
relax-IsWellFormed m src_addr w = record {
  src_addr_fits = full-Fits src_addr;
  dst_addr_fits = w.dst_addr_fits;
  src_port_fits = w.src_port_fits;
  dst_port_fits = w.dst_port_fits;
  proto_fits = w.proto_fits;
}
relax-IsWellFormed m dst_addr w = record {
  src_addr_fits = w.src_addr_fits;
  dst_addr_fits = full-Fits dst_addr;
  src_port_fits = w.src_port_fits;
  dst_port_fits = w.dst_port_fits;
  proto_fits = w.proto_fits;
}
relax-IsWellFormed m src_port w = record {
  src_addr_fits = w.src_addr_fits;
  dst_addr_fits = w.dst_addr_fits;
  src_port_fits = full-Fits src_port;
  dst_port_fits = w.dst_port_fits;
  proto_fits = w.proto_fits;
}
relax-IsWellFormed m dst_port w = record {
  src_addr_fits = w.src_addr_fits;
  dst_addr_fits = w.dst_addr_fits;
  src_port_fits = w.src_port_fits;
  dst_port_fits = full-Fits dst_port;
  proto_fits = w.proto_fits;
}
relax-IsWellFormed m proto w = record {
  src_addr_fits = w.src_addr_fits;
  dst_addr_fits = w.dst_addr_fits;
  src_port_fits = w.src_port_fits;
  dst_port_fits = w.dst_port_fits;
  proto_fits = full-Fits proto;
}
relax-IsWellFormed m if_in w = record {
  src_addr_fits = w.src_addr_fits;
  dst_addr_fits = w.dst_addr_fits;
  src_port_fits = w.src_port_fits;
  dst_port_fits = w.dst_port_fits;
  proto_fits = w.proto_fits;
}
relax-IsWellFormed m if_out w = record {
  src_addr_fits = w.src_addr_fits;
  dst_addr_fits = w.dst_addr_fits;
  src_port_fits = w.src_port_fits;
  dst_port_fits = w.dst_port_fits;
  proto_fits = w.proto_fits;
}

-- The dimension `f` of `m`, if it is a packet dimension, holds `v`.
abbrev pub dim_has : Match → Field → ℕ → Bool
dim_has m f v = elim (packet_dim m f) [ none ↦ true | some s ↦ contains s v ]
