-- ===== src/Engine/Region/Union.antt =====
-- `merge` of crates/engine/src/region.rs against the packets that its regions hold.
use fwdelta.Prelude.{
  ℕ, zero, suc, ◌≡◌, refl, ◌∙◌, ap, Bool, true, false, ◌||◌, List, [], ◌∷◌, arith, length, ◌==◌,
  if◌then◌else◌,
}
use fwdelta.Ir.Field.{Field, all_fields}
use fwdelta.Engine.Header.Matches.{Values}
use fwdelta.Engine.Region.{
  Region, region_is_empty, cmp_fields, is_equal, is_greater, retain, insert, sort, dedup_from,
  dedup, same_key, absorb, merge_loop, merge_along, merge_dims, merge_passes, merge,
}
use fwdelta.Engine.Region.Packets.{
  IsRegion, AllRegions, holds, covered, empty_holds, holds-equal, joined, joined-dim, holds-joined,
}

-- A list of regions that holds the packets of `covers`.
record Keeps (p : Values) (covers : Bool) (rs : List Region) : Type 0 where
  pub regions : AllRegions rs
  pub same : covered rs p ≡ covers

Keeps-if :
    (p : Values) (c b : Bool) (xs ys : List Region)
    → (b ≡ true → Keeps p c xs)
    → (b ≡ false → Keeps p c ys)
    → Keeps p c (if b then xs else ys)
Keeps-if p c true xs ys f g = f refl
Keeps-if p c false xs ys f g = g refl

Keeps-elim :
    (p : Values) (c b : Bool) (xs ys : List Region)
    → (b ≡ true → Keeps p c xs)
    → (b ≡ false → Keeps p c ys)
    → Keeps p c (elim b [ true ↦ xs | false ↦ ys ])
Keeps-elim p c true xs ys f g = f refl
Keeps-elim p c false xs ys f g = g refl

-- Empty regions hold no packet.
retain-Keeps : (p : Values) (rs : List Region) → AllRegions rs → Keeps p (covered rs p) (retain rs)
unfolding retain
retain-Keeps p [] h = record { regions = tt; same = refl }
retain-Keeps p (r ∷ rs) h =
    let rest = retain-Keeps p rs h.1 in
    Keeps-if p (covered (r ∷ rs) p) (region_is_empty r) (retain rs) (r ∷ retain rs)
      (λ e. record { regions = rest.regions; same = ground (arith, rest.same, empty_holds r p e) })
      (λ e. record { regions = (h.0, rest.regions); same = ap (λ b. holds p r || b) rest.same })

insert-Keeps :
    (p : Values) (r : Region) (rs : List Region)
    → IsRegion r
    → AllRegions rs
    → Keeps p (holds p r || covered rs p) (insert r rs)
unfolding insert
insert-Keeps p r [] h k = record { regions = (h, tt); same = refl }
insert-Keeps p r (q ∷ qs) h k =
    let rest = insert-Keeps p r qs h k.1 in
    Keeps-if p _ (is_greater (cmp_fields all_fields r q)) (q ∷ insert r qs) (r ∷ q ∷ qs)
      (λ e. record { regions = (k.0, rest.regions); same = ground (arith, rest.same) })
      (λ e. record { regions = (h, k); same = refl })

sort-Keeps : (p : Values) (rs : List Region) → AllRegions rs → Keeps p (covered rs p) (sort rs)
unfolding sort
sort-Keeps p [] h = record { regions = tt; same = refl }
sort-Keeps p (r ∷ rs) h =
    let rest = sort-Keeps p rs h.1 in
    let here = insert-Keeps p r (sort rs) h.0 rest.regions in
    record { regions = here.regions; same = here.same ∙ ap (λ b. holds p r || b) rest.same }

dedup_from-Keeps :
    (p : Values) (r : Region) (rs : List Region)
    → IsRegion r
    → AllRegions rs
    → Keeps p (holds p r || covered rs p) (dedup_from r rs)
unfolding dedup_from
dedup_from-Keeps p r [] h k = record { regions = (h, tt); same = refl }
dedup_from-Keeps p r (q ∷ qs) h k =
    Keeps-elim p (holds p r || covered (q ∷ qs) p) (is_equal (cmp_fields all_fields q r))
      (dedup_from r qs) (r ∷ dedup_from q qs)
      (λ e.
        let rest = dedup_from-Keeps p r qs h k.1 in
        record { regions = rest.regions; same = ground (arith, rest.same, holds-equal r q p e) })
      (λ e.
        let rest = dedup_from-Keeps p q qs k.0 k.1 in
        record { regions = (h, rest.regions); same = ap (λ b. holds p r || b) rest.same })

dedup-Keeps : (p : Values) (rs : List Region) → AllRegions rs → Keeps p (covered rs p) (dedup rs)
unfolding dedup
dedup-Keeps p [] h = record { regions = tt; same = refl }
dedup-Keeps p (r ∷ rs) h = dedup_from-Keeps p r rs h.0 h.1

absorb-Keeps :
    (p : Values) (d : Field) (r : Region) (out : List Region)
    → IsRegion r
    → AllRegions out
    → Keeps p (holds p r || covered out p) (absorb d r out)
unfolding absorb
absorb-Keeps p d r [] h k = record { regions = (h, tt); same = refl }
absorb-Keeps p d r (q ∷ qs) h k =
    Keeps-if p (holds p r || covered (q ∷ qs) p) (same_key d q r) (joined d q r ∷ qs)
      (q ∷ absorb d r qs)
      (λ e. record {
        regions = ((λ f. (joined-dim d q r f 0 k.0 h).0), k.1);
        same = ground (arith, holds-joined d q r p k.0 h e);
      })
      (λ e.
        let rest = absorb-Keeps p d r qs h k.1 in
        record { regions = (k.0, rest.regions); same = ground (arith, rest.same) })

merge_loop-Keeps :
    (p : Values) (d : Field) (rs out : List Region)
    → AllRegions rs
    → AllRegions out
    → Keeps p (covered rs p || covered out p) (merge_loop d rs out)
unfolding merge_loop
merge_loop-Keeps p d [] out h k = record { regions = k; same = refl }
merge_loop-Keeps p d (r ∷ rs) out h k =
    let here = absorb-Keeps p d r out h.0 k in
    let rest = merge_loop-Keeps p d rs (absorb d r out) h.1 here.regions in
    record { regions = rest.regions; same = ground (arith, rest.same, here.same) }

merge_along-Keeps :
    (p : Values) (d : Field) (rs : List Region)
    → AllRegions rs
    → Keeps p (covered rs p) (merge_along rs d)
unfolding merge_along
merge_along-Keeps p d rs h =
    let rest = merge_loop-Keeps p d rs [] h tt in
    record { regions = rest.regions; same = ground (arith, rest.same) }

merge_dims-Keeps :
    (p : Values) (ds : List Field) (rs : List Region)
    → AllRegions rs
    → Keeps p (covered rs p) (merge_dims ds rs)
unfolding merge_dims
merge_dims-Keeps p [] rs h = record { regions = h; same = refl }
merge_dims-Keeps p (d ∷ ds) rs h =
    let here = merge_along-Keeps p d rs h in
    let rest = merge_dims-Keeps p ds (merge_along rs d) here.regions in
    record { regions = rest.regions; same = rest.same ∙ here.same }

merge_passes-Keeps :
    (p : Values) (n : ℕ) (rs : List Region)
    → AllRegions rs
    → Keeps p (covered rs p) (merge_passes n rs)
unfolding merge_passes
merge_passes-Keeps p zero rs h = record { regions = h; same = refl }
merge_passes-Keeps p (suc n) rs h =
    let here = merge_dims-Keeps p all_fields rs h in
    let rest = merge_passes-Keeps p n (merge_dims all_fields rs) here.regions in
    Keeps-if p (covered rs p) (length (merge_dims all_fields rs) == length rs) _ _ (λ e. here)
      (λ e. record { regions = rest.regions; same = rest.same ∙ here.same })

-- Merging regions whose sets are canonical and have the widths of their fields gives such regions
-- again, which hold together exactly the packets that the regions given held, after any number of
-- passes.
pub covered-merge :
    (rs : List Region) (passes : ℕ)
    → AllRegions rs
    → AllRegions (merge rs passes) × ((p : Values) → covered (merge rs passes) p ≡ covered rs p)
unfolding merge
covered-merge rs passes h = ((kept (λ f. 0)).regions, λ p. (kept p).same)
  where
    kept : (p : Values) → Keeps p (covered rs p) (merge_passes passes (dedup (sort (retain rs))))
    kept p =
        let a = retain-Keeps p rs h in
        let b = sort-Keeps p (retain rs) a.regions in
        let c = dedup-Keeps p (sort (retain rs)) b.regions in
        let d = merge_passes-Keeps p passes (dedup (sort (retain rs))) c.regions in
        record { regions = d.regions; same = d.same ∙ c.same ∙ b.same ∙ a.same }
