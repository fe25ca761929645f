-- ===== src/Engine/Header/Matches.antt =====
-- `Layout::match_bdd` of crates/engine/src/header.rs against the meaning of a match.
use fwdelta.Prelude.{ℕ, ◌≤◌, ◌≡◌, refl, ◌∙◌, ap, Bool, true, ◌&&◌, List, [], ◌∷◌, arith, all}
use fwdelta.Ir.Field.{
  Field, src_addr, dst_addr, src_port, dst_port, proto, if_in, if_out, all_fields,
}
use fwdelta.Ir.Intervals.{contains, domain_max}
use fwdelta.Ir.Intervals.Equality.{contains-is_full}
use fwdelta.Ir.Interface.{SymbolTable}
use fwdelta.Ir.Interface.Resolve
use fwdelta.Ir.Interface.Resolve.{contains-resolve}
use fwdelta.Ir.Rule.{Match}
use fwdelta.Ir.Rule.WellFormed.{IsWellFormed, Fits}
use fwdelta.Engine.Bdd.{BddLib, Valuation}
use fwdelta.Engine.Header.{Layout, dim_set, set, match_loop, match_bdd}
use fwdelta.Engine.Header.Ranges.{field-le, eval-set}
use fwdelta.Engine.Packet.{field}

-- The values of a packet, one for each dimension.
abbrev pub Values : Type 0
Values = Field → ℕ

-- What a match says of each value of a packet: its set holds an address, a port or the protocol, and
-- the symbol of an interface is one that the names stand for.
abbrev pub admits : Match → SymbolTable → Values → Field → Bool
admits m t p src_addr = contains m.src_addr_set (p src_addr)
admits m t p dst_addr = contains m.dst_addr_set (p dst_addr)
admits m t p src_port = contains m.src_port_set (p src_port)
admits m t p dst_port = contains m.dst_port_set (p dst_port)
admits m t p proto = contains m.proto_set (p proto)
admits m t p if_in = Resolve.admits t m.iif (p if_in)
admits m t p if_out = Resolve.admits t m.oif (p if_out)

abbrev pub matches : Match → SymbolTable → Values → Bool
matches m t p = all (admits m t p) all_fields

pub dim_set-Fits :
    (m : Match) (t : SymbolTable) (f : Field) → IsWellFormed m → Fits f (dim_set m t f)
unfolding dim_set
dim_set-Fits m t src_addr w = w.src_addr_fits
dim_set-Fits m t dst_addr w = w.dst_addr_fits
dim_set-Fits m t src_port w = w.src_port_fits
dim_set-Fits m t dst_port w = w.dst_port_fits
dim_set-Fits m t proto w = w.proto_fits
dim_set-Fits m t if_in w = (contains-resolve t m.iif 0).0
dim_set-Fits m t if_out w = (contains-resolve t m.oif 0).0

-- The set that the code takes in a dimension holds what the match says.
contains-dim_set :
    (m : Match) (t : SymbolTable) (p : Values) (f : Field)
    → contains (dim_set m t f) (p f) ≡ admits m t p f
unfolding dim_set
contains-dim_set m t p src_addr = refl
contains-dim_set m t p dst_addr = refl
contains-dim_set m t p src_port = refl
contains-dim_set m t p dst_port = refl
contains-dim_set m t p proto = refl
contains-dim_set m t p if_in = (contains-resolve t m.iif (p if_in)).1
contains-dim_set m t p if_out = (contains-resolve t m.oif (p if_out)).1

module _ ⦃lib : BddLib⦄ (l : Layout) (v : Valuation) (m : Match) (t : SymbolTable)
    (w : IsWellFormed m) where
  open lib use {eval, eval-mk_true, eval-and, is_false, is_false_iff}

  eval-match_loop :
      (fs : List Field) (acc : lib.Bdd)
      → eval (match_loop l m t fs acc) v ≡ (eval acc v && all (admits m t (field l v)) fs)
  unfolding match_loop
  eval-match_loop [] acc = ground arith
  eval-match_loop (f ∷ fs) acc = ground (
    arith,
    contains-is_full (dim_set m t f) (field l v f),
    in_domain,
    contains-dim_set m t (field l v) f,
    eval-and acc (set l f (dim_set m t f)) v,
    eval-set l v f (dim_set m t f) (dim_set-Fits m t f w),
    λ (e : is_false (lib.and acc (set l f (dim_set m t f))) ≡ true).
        (is_false_iff (lib.and acc (set l f (dim_set m t f)))).0 e v,
    eval-match_loop fs acc,
    eval-match_loop fs (lib.and acc (set l f (dim_set m t f))),
  )
    where
      in_domain : field l v f ≤ domain_max (dim_set m t f).bits
      in_domain = rw ((dim_set-Fits m t f w).1) (field-le l v f)

  -- The diagram of a well-formed match holds a valuation exactly when the match admits the packet
  -- that the valuation encodes, in each of the seven dimensions.
  pub eval-match_bdd : eval (match_bdd l m t) v ≡ matches m t (field l v)
  unfolding match_bdd
  eval-match_bdd =
      eval-match_loop all_fields lib.mk_true
      ∙ ap (λ b. b && matches m t (field l v)) (eval-mk_true v)
