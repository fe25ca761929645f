-- ===== src/Ir/Intervals/Equality.antt =====
-- The canonical form of crates/ir/src/intervals.rs: equal sets are equal values.
use fwdelta.Prelude.{
  ℕ, ◌+◌, ◌<◌, ◌≤◌, ◌≡◌, refl, sym, subst, true, false, ◌↔◌, List, [], ◌∷◌, arith, leb, ap₂,
}
use fwdelta.Ir.Intervals.{
  Span, IntervalSet, domain_max, contains, is_empty, is_full, is_full_ranges, full,
}
use fwdelta.Ir.Intervals.Normal.{Canonical, IsCanonical}
use fwdelta.Ir.Intervals.Members.{has, has-le}
use fwdelta.Ir.Intervals.Complement.{contains-le}

-- Below the bound there is nothing.
has_below : (b m v : ℕ) (rs : List Span) → Canonical b m rs → v < b → has v rs ≡ false
has_below b m v rs c h = ground (arith, has-le b m v rs c)

-- The first range of one list starts no earlier than that of another with the same values.
start-le :
    (b m lo hi x y : ℕ) (rs ss : List Span)
    → Canonical b m ((x, y) ∷ ss)
    → lo ≤ hi
    → (has lo ((lo, hi) ∷ rs) ≡ has lo ((x, y) ∷ ss))
    → x ≤ lo
start-le b m lo hi x y rs ss c p e = ground (arith, has_below (y + 2) m lo ss c.3)

end-le :
    (m lo hi y : ℕ) (rs ss : List Span)
    → Canonical (hi + 2) m rs
    → lo ≤ hi
    → (has (hi + 1) ((lo, hi) ∷ rs) ≡ has (hi + 1) ((lo, y) ∷ ss))
    → y ≤ hi
end-le m lo hi y rs ss c p e = ground (arith, has_below (hi + 2) m (hi + 1) rs c)

rest-eq :
    (m n lo hi v : ℕ) (rs ss : List Span)
    → Canonical (hi + 2) m rs
    → Canonical (hi + 2) n ss
    → (has v ((lo, hi) ∷ rs) ≡ has v ((lo, hi) ∷ ss))
    → has v rs ≡ has v ss
rest-eq m n lo hi v rs ss c d e =
    ground (arith, has_below (hi + 2) m v rs c, has_below (hi + 2) n v ss d)

ranges_eq :
    (b c m n : ℕ) (rs ss : List Span)
    → Canonical b m rs
    → Canonical c n ss
    → ((v : ℕ) → has v rs ≡ has v ss)
    → rs ≡ ss
ranges_eq b c m n [] [] cr cs e = refl
ranges_eq b c m n [] ((x, y) ∷ ss) cr cs e = absurd (ground (arith, e x))
ranges_eq b c m n ((lo, hi) ∷ rs) [] cr cs e = absurd (ground (arith, e lo))
ranges_eq b c m n ((lo, hi) ∷ rs) ((x, y) ∷ ss) cr cs e =
    let p : lo ≡ x = omega (
      arith,
      start-le c n lo hi x y rs ss cs cr.1 (e lo),
      start-le b m x y lo hi ss rs cr cs.1 (sym (e x)),
    ) in
    let f : (v : ℕ) → has v ((lo, hi) ∷ rs) ≡ has v ((lo, y) ∷ ss) = rw (← p) at e in
    let q : hi ≡ y = omega (
      arith,
      end-le m lo hi y rs ss cr.3 cr.1 (f (hi + 1)),
      end-le n lo y hi ss rs cs.3 (rw p cs.1) (sym (f (y + 1))),
    ) in
    ap₂ ◌∷◌ (ap₂ (λ a b. (a, b)) p q) (
      ranges_eq (hi + 2) (hi + 2) m n rs ss cr.3 (rw q cs.3)
        (λ v. rest-eq m n lo hi v rs ss cr.3 (rw q cs.3) (rw (← q) at (f v))))

-- Two canonical sets of one width with the same values are equal, so the derived `==`, which
-- compares the ranges, is equality of sets.
pub IsCanonical-ext :
    (s t : IntervalSet)
    → IsCanonical s
    → IsCanonical t
    → s.bits ≡ t.bits
    → ((v : ℕ) → contains s v ≡ contains t v)
    → s ≡ t
unfolding contains
IsCanonical-ext s t cs ct e same =
    let r : s.ranges ≡ t.ranges = ranges_eq 0 0 _ _ s.ranges t.ranges cs ct same in
    λ i. record { bits = e i; ranges = r i }

pub full-IsCanonical : (b : ℕ) → IsCanonical (full b)
full-IsCanonical b = omega arith

pub contains-full : (b v : ℕ) → contains (full b) v ≡ leb v (domain_max b)
unfolding contains
contains-full b v = ground arith

no_values : (b m : ℕ) (rs : List Span) → Canonical b m rs → ((v : ℕ) → has v rs ≡ false) → rs ≡ []
no_values b m [] c h = refl
no_values b m ((lo, hi) ∷ rs) c h = absurd (ground (arith, h lo))

full_values :
    (b v : ℕ) (rs : List Span) → is_full_ranges b rs ≡ true → v ≤ domain_max b → has v rs ≡ true
unfolding is_full_ranges
full_values b v [] h k = cc
full_values b v ((lo, hi) ∷ []) h k = ground arith
full_values b v (r ∷ r' ∷ rs) h k = cc

pub contains-is_full :
    (s : IntervalSet) (v : ℕ) → is_full s ≡ true → v ≤ domain_max s.bits → contains s v ≡ true
unfolding contains is_full
contains-is_full s v h k = full_values s.bits v s.ranges h k

pub contains-is_empty : (s : IntervalSet) (v : ℕ) → is_empty s ≡ true → contains s v ≡ false
unfolding contains is_empty
contains-is_empty s v h = ground arith

is_empty_no_values :
    (s : IntervalSet) → IsCanonical s → ((v : ℕ) → contains s v ≡ false) → is_empty s ≡ true
unfolding contains is_empty
is_empty_no_values s c h = rw (no_values 0 _ s.ranges c h, is_empty)

is_full-full : (b : ℕ) → is_full (full b) ≡ true
unfolding is_full
is_full-full b = ground arith

is_full_values :
    (s : IntervalSet)
    → IsCanonical s
    → ((v : ℕ) → v ≤ domain_max s.bits → contains s v ≡ true)
    → is_full s ≡ true
is_full_values s c h =
    subst (λ t. is_full t ≡ true)
      (sym (IsCanonical-ext s (full s.bits) c (full-IsCanonical s.bits) refl same))
      (is_full-full s.bits)
  where
    same : (v : ℕ) → contains s v ≡ contains (full s.bits) v
    same v = ground (arith, contains-full s.bits v, contains-le s v c, h v)

-- A canonical set is reported empty exactly when it has no value, and full exactly when it has
-- every value of its domain.
pub is_empty-is_full_iff :
    (s : IntervalSet)
    → IsCanonical s
    → ((is_empty s ≡ true) ↔ ((v : ℕ) → contains s v ≡ false))
      × ((is_full s ≡ true) ↔ ((v : ℕ) → v ≤ domain_max s.bits → contains s v ≡ true))
is_empty-is_full_iff s cs = (
  (λ h v. contains-is_empty s v h, is_empty_no_values s cs),
  (λ h v. contains-is_full s v h, is_full_values s cs),
)
