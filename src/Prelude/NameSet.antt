-- ===== src/Prelude/NameSet.antt =====
-- `BTreeSet<String>`: a strictly increasing list of names.
use Prim.Native.Nat.Ordering.{lt, eq, gt}
use mathlib.Core.Path.{◌≡◌, refl, ◌∙◌, ap, ap₂, sym, subst}
use mathlib.Core.Bool.{Bool, false, ◌||◌}
use mathlib.Core.List.{List, [], ◌∷◌}
use native.Mathlib.Omega.{arith}
use fwdelta.Prelude.Text.{Text, cmp, cmp_refl, eq_of_cmp, gt_of_lt, lt_of_gt, lt_trans, text_eq}

unfoldable pub insert : Text → List Text → List Text
insert x [] = x ∷ []
insert x (y ∷ ys) = elim (cmp x y) [ lt ↦ x ∷ y ∷ ys | eq ↦ y ∷ ys | gt ↦ y ∷ insert x ys ]

unfoldable pub from_list : List Text → List Text
from_list [] = []
from_list (x ∷ xs) = insert x (from_list xs)

abbrev pub member : Text → List Text → Bool
member x [] = false
member x (y ∷ ys) = text_eq x y || member x ys

-- Every name of the list comes after `b`.
abbrev pub After : Text → List Text → Type 0
After b [] = Unit
After b (x ∷ xs) = (cmp b x ≡ lt) × After x xs

abbrev pub IsIncreasing : List Text → Type 0
IsIncreasing [] = Unit
IsIncreasing (x ∷ xs) = After x xs

insert-After : (b x : Text) (ys : List Text) → cmp b x ≡ lt → After b ys → After b (insert x ys)
unfolding insert
insert-After b x [] h a = (h, tt)
insert-After b x (y ∷ ys) h a = ground (arith, insert-After y x ys, lt_of_gt x y)

pub insert-IsIncreasing : (x : Text) (ys : List Text) → IsIncreasing ys → IsIncreasing (insert x ys)
unfolding insert
insert-IsIncreasing x [] a = tt
insert-IsIncreasing x (y ∷ ys) a = ground (arith, insert-After y x ys, lt_of_gt x y)

pub from_list-IsIncreasing : (xs : List Text) → IsIncreasing (from_list xs)
unfolding from_list
from_list-IsIncreasing [] = tt
from_list-IsIncreasing (x ∷ xs) = insert-IsIncreasing x (from_list xs) (from_list-IsIncreasing xs)

pub member-insert :
    (z x : Text) (ys : List Text) → member z (insert x ys) ≡ (text_eq z x || member z ys)
unfolding insert
member-insert z x [] = refl
member-insert z x (y ∷ ys) = ground (arith, member-insert z x ys, eq_of_cmp x y)

pub member-from_list : (z : Text) (xs : List Text) → member z (from_list xs) ≡ member z xs
unfolding from_list
member-from_list z [] = refl
member-from_list z (x ∷ xs) =
    member-insert z x (from_list xs) ∙ ap (λ b. text_eq z x || b) (member-from_list z xs)

-- A name that comes no later than `b` is in no list after `b`.
pub not_member-After :
    (b z : Text) (ys : List Text) → After b ys → cmp z b ≡ lt → member z ys ≡ false
not_member-After b z [] a h = refl
not_member-After b z (y ∷ ys) a h = ground (arith, lt_trans z b y, not_member-After y z ys a.1)

pub not_member_self : (b : Text) (ys : List Text) → After b ys → member b ys ≡ false
not_member_self b [] a = refl
not_member_self b (y ∷ ys) a = ground (arith, not_member-After y b ys a.1)

heads_eq :
    (x y : Text) (xs ys : List Text)
    → After x xs
    → After y ys
    → member x (x ∷ xs) ≡ member x (y ∷ ys)
    → member y (x ∷ xs) ≡ member y (y ∷ ys)
    → x ≡ y
heads_eq x y xs ys a b h k = ground (
  arith,
  cmp_refl x,
  cmp_refl y,
  eq_of_cmp x y,
  lt_of_gt x y,
  gt_of_lt x y,
  not_member-After y x ys b,
  not_member-After x y xs a,
)

tails_eq :
    (x z : Text) (xs ys : List Text)
    → After x xs
    → After x ys
    → member z (x ∷ xs) ≡ member z (x ∷ ys)
    → member z xs ≡ member z ys
tails_eq x z xs ys a b h =
    ground (arith, eq_of_cmp z x, not_member_self x xs a, not_member_self x ys b)

pub After-IsIncreasing : (b : Text) (xs : List Text) → After b xs → IsIncreasing xs
After-IsIncreasing b [] a = tt
After-IsIncreasing b (x ∷ xs) a = a.1

-- Two increasing lists with the same members are equal.
pub IsIncreasing-ext :
    (xs ys : List Text)
    → IsIncreasing xs
    → IsIncreasing ys
    → ((z : Text) → member z xs ≡ member z ys)
    → xs ≡ ys
IsIncreasing-ext [] [] a b h = refl
IsIncreasing-ext [] (y ∷ ys) a b h = absurd (ground (arith, h y, cmp_refl y))
IsIncreasing-ext (x ∷ xs) [] a b h = absurd (ground (arith, h x, cmp_refl x))
IsIncreasing-ext (x ∷ xs) (y ∷ ys) a b h =
    let e : x ≡ y = heads_eq x y xs ys a b (h x) (h y) in
    let b' : After x ys = subst (λ w. After w ys) (sym e) b in
    let h' : (z : Text) → member z (x ∷ xs) ≡ member z (x ∷ ys) =
      subst (λ w. (z : Text) → member z (x ∷ xs) ≡ member z (w ∷ ys)) (sym e) h in
    ap₂ ◌∷◌ e (
      IsIncreasing-ext xs ys (After-IsIncreasing x xs a) (After-IsIncreasing x ys b')
        (λ z. tails_eq x z xs ys a b' (h' z)))
