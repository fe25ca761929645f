-- ===== src/Engine/Region/Packets.antt =====
-- The packets that a region of crates/engine/src/region.rs holds.
use fwdelta.Prelude.{
  ℕ, ◌≡◌, refl, sym, ◌∙◌, subst, Bool, true, false, ◌||◌, List, [], ◌∷◌, arith, ==_iff,
  if◌then◌else◌, all, any, All, Bool-cases, inl, inr,
}
use fwdelta.Ir.Field.{Field, all_fields, field_eq, index, index_injective}
use fwdelta.Ir.Intervals.{contains, union, is_empty}
use fwdelta.Ir.Intervals.Members.{contains-union}
use fwdelta.Ir.Intervals.Equality.{contains-is_empty}
use fwdelta.Ir.Rule.WellFormed.{Fits}
use fwdelta.Engine.Header.Matches.{Values}
use fwdelta.Engine.Region.{Region, with, region_is_empty, cmp_set, cmp_fields, is_equal, same_key}
use fwdelta.Engine.Region.Compare.{contains-cmp_set, all-cmp_fields}
use fwdelta.Engine.Region.Once.{all-merged}

-- The set of each dimension is canonical and has its width.
abbrev pub IsRegion : Region → Type 0
IsRegion r = (f : Field) → Fits f (r f)

abbrev pub AllRegions : List Region → Type 0
AllRegions rs = All IsRegion rs

-- A region holds a packet if each dimension holds the packet's value.
unfoldable pub holds : Values → Region → Bool
holds p r = all (λ f. contains (r f) (p f)) all_fields

abbrev pub covered : List Region → Values → Bool
covered rs p = any (holds p) rs

empty_dim :
    (fs : List Field) (r : Region) (p : Values)
    → any (λ f. is_empty (r f)) fs ≡ true
    → all (λ f. contains (r f) (p f)) fs ≡ false
empty_dim [] r p h = absurd (cc (h))
empty_dim (f ∷ fs) r p h = ground (arith, contains-is_empty (r f) (p f), empty_dim fs r p)

pub empty_holds : (r : Region) (p : Values) → region_is_empty r ≡ true → holds p r ≡ false
unfolding holds region_is_empty
empty_holds r p h = empty_dim all_fields r p h

pub holds-equal :
    (r q : Region) (p : Values)
    → is_equal (cmp_fields all_fields q r) ≡ true
    → holds p q ≡ holds p r
unfolding holds
holds-equal r q p h = all-cmp_fields all_fields q r p h

field_eq-eq : (f g : Field) → field_eq f g ≡ true → f ≡ g
field_eq-eq f g h = index_injective f g ((==_iff (index f) (index g)).0 h)

field_eq_comm : (f g : Field) → field_eq f g ≡ field_eq g f
field_eq_comm f g = ground arith

-- Two regions with one key, joined along `d`.
abbrev pub joined : Field → Region → Region → Region
joined d q r = with q d (union (q d) (r d))

union-dim :
    (q r : Region) (d : Field) (v : ℕ)
    → IsRegion q
    → IsRegion r
    → Fits d (union (q d) (r d))
      × (contains (union (q d) (r d)) v ≡ (contains (q d) v || contains (r d) v))
unfolding union
union-dim q r d v hq hr =
    let u = contains-union (q d) (r d) v (hq d).0 (hr d).0 ((hq d).1 ∙ sym (hr d).1) in
    ((u.0, (hq d).1), u.1)

pub joined-dim :
    (d : Field) (q r : Region) (f : Field) (v : ℕ)
    → IsRegion q
    → IsRegion r
    → Fits f (joined d q r f)
      × (contains (joined d q r f) v
          ≡ (if field_eq f d then contains (q f) v || contains (r f) v else contains (q f) v))
joined-dim d q r f v hq hr =
    elim (Bool-cases (field_eq f d))
      as (λ x.
        Fits f (joined d q r f)
        × (contains (joined d q r f) v
            ≡ (if field_eq f d then contains (q f) v || contains (r f) v else contains (q f) v))) [
              | inl e ↦
                  rw (field_eq_comm d f, e)
                    (subst
                      (λ g.
                        Fits f (union (q g) (r g))
                        × (contains (union (q g) (r g)) v ≡ (contains (q f) v || contains (r f) v)))
                      (field_eq-eq f d e) (union-dim q r f v hq hr))
              | inr e ↦ rw (field_eq_comm d f, e) (hq f, refl)
            ]

pub holds-joined :
    (d : Field) (q r : Region) (p : Values)
    → IsRegion q
    → IsRegion r
    → same_key d q r ≡ true
    → holds p (joined d q r) ≡ (holds p q || holds p r)
unfolding holds same_key
holds-joined d q r p hq hr h =
    all-merged d (λ f. contains (q f) (p f)) (λ f. contains (r f) (p f))
      (λ f. contains (joined d q r f) (p f)) (λ f. is_equal (cmp_set (q f) (r f)))
      (λ f. (joined-dim d q r f (p f) hq hr).1) (λ f e n. contains-cmp_set (q f) (r f) (p f) e) h
