-- ===== src/Engine/Region/Diagram.antt =====
-- `Region::to_bdd` of crates/engine/src/region.rs.
use fwdelta.Prelude.{◌≡◌, ◌∙◌, ap, ◌&&◌, List, [], ◌∷◌, arith, all}
use fwdelta.Ir.Field.{Field, all_fields}
use fwdelta.Ir.Intervals.{contains}
use fwdelta.Engine.Bdd.{BddLib, Valuation}
use fwdelta.Engine.Header.{Layout, set}
use fwdelta.Engine.Header.Ranges.{eval-set}
use fwdelta.Engine.Packet.{field}
use fwdelta.Engine.Region.{Region, bdd_loop, to_bdd}
use fwdelta.Engine.Region.Packets.{IsRegion, holds}

module _ ⦃lib : BddLib⦄ (l : Layout) (v : Valuation) (r : Region) (w : IsRegion r) where
  open lib use {eval, eval-mk_true, eval-and}

  eval-bdd_loop :
      (fs : List Field) (acc : lib.Bdd)
      → eval (bdd_loop l r fs acc) v ≡ (eval acc v && all (λ f. contains (r f) (field l v f)) fs)
  unfolding bdd_loop
  eval-bdd_loop [] acc = ground arith
  eval-bdd_loop (f ∷ fs) acc = ground (
    arith,
    eval-and acc (set l f (r f)) v,
    eval-set l v f (r f) (w f),
    eval-bdd_loop fs (lib.and acc (set l f (r f))),
  )

  -- The diagram of a region whose sets are canonical and have the widths of their fields holds a
  -- valuation exactly when each dimension of the region holds the value that the valuation encodes.
  pub eval-to_bdd : eval (to_bdd l r) v ≡ holds (field l v) r
  unfolding to_bdd holds
  eval-to_bdd =
      eval-bdd_loop all_fields lib.mk_true ∙ ap (λ b. b && holds (field l v) r) (eval-mk_true v)
