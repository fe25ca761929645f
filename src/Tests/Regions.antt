-- ===== src/Tests/Regions.antt =====
-- Regions of crates/engine on small inputs.
use fwdelta.Prelude.{ℕ, ◌≤◌, ◌≡◌, List, [], ◌∷◌, arith}
use fwdelta.Ir.Field.{src_addr, dst_addr, src_port, dst_port, proto, if_in, if_out}
use fwdelta.Ir.Intervals.{point, domain_max}
use fwdelta.Ir.Rule.WellFormed.{full-Fits}
use fwdelta.Ir.Rule.Literals.{point-Fits}
use fwdelta.Engine.Bdd.{Valuation}
use fwdelta.Engine.Bdd.TreeLib.{tree_lib}
use fwdelta.Engine.Header.{field_major, new}
use fwdelta.Engine.Header.Encode.{encode}
use fwdelta.Engine.Header.Matches.{Values}
use fwdelta.Engine.Packet.{field}
use fwdelta.Engine.Region.{Region, full_region, with, merge, to_bdd}
use fwdelta.Engine.Region.Packets.{IsRegion, AllRegions, holds, covered}
use fwdelta.Engine.Region.Union.{covered-merge}
use fwdelta.Engine.Region.Diagram.{eval-to_bdd}
use fwdelta.Tests.Engine.{knock}

-- Everything to one port.
abbrev to_port : ℕ → Region
to_port n = with full_region dst_port (point 16 n)

to_port-IsRegion : (n : ℕ) → n ≤ domain_max 16 → IsRegion (to_port n)
to_port-IsRegion n h src_addr = full-Fits src_addr
to_port-IsRegion n h dst_addr = full-Fits dst_addr
to_port-IsRegion n h src_port = full-Fits src_port
to_port-IsRegion n h dst_port = point-Fits dst_port n h
to_port-IsRegion n h proto = full-Fits proto
to_port-IsRegion n h if_in = full-Fits if_in
to_port-IsRegion n h if_out = full-Fits if_out

port_fits : (n : ℕ) → n ≤ 65535 → n ≤ domain_max 16
unfolding domain_max
port_fits n h = h

abbrev two_ports : List Region
two_ports = to_port 22 ∷ to_port 80 ∷ []

two_ports-AllRegions : AllRegions two_ports
two_ports-AllRegions = (
  to_port-IsRegion 22 (port_fits 22 (omega arith)),
  (to_port-IsRegion 80 (port_fits 80 (omega arith)), tt),
)

covered-merge_example :
    AllRegions (merge two_ports 8)
    × ((p : Values) → covered (merge two_ports 8) p ≡ covered two_ports p)
covered-merge_example = covered-merge two_ports 8 two_ports-AllRegions

abbrev knocked : Valuation
knocked = encode field_major knock

eval-to_bdd_example :
    tree_lib.eval (to_bdd (new field_major) (to_port 22)) knocked
    ≡ holds (field (new field_major) knocked) (to_port 22)
eval-to_bdd_example =
    eval-to_bdd (new field_major) knocked (to_port 22)
      (to_port-IsRegion 22 (port_fits 22 (omega arith)))
