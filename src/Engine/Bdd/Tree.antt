-- ===== src/Engine/Bdd/Tree.antt =====
-- A value of the interface of Engine/Bdd.antt: unreduced decision trees. It shows that the promises
-- can be kept, and lets tests run the engine; it is no model of the library.
use fwdelta.Prelude.{
  ℕ, Bool, true, false, not, ◌≡◌, ◌↔◌, refl, List, [], ◌∷◌, Option, none, some, ◌==◌, if◌then◌else◌,
  arith, Option-cases, inl, inr, Bool-cases, ap, sym, subst,
}
use fwdelta.Engine.Bdd.{Valuation, Witnessed}

pub data Tree : Type 0 where
  leaf : Bool → Tree
  node : ℕ → Tree → Tree → Tree

unfoldable pub eval : Tree → Valuation → Bool
eval (leaf b) v = b
eval (node x t f) v = if v x then eval t v else eval f v

-- Put a tree in the place of each leaf.
unfoldable pub graft : (Bool → Tree) → Tree → Tree
graft g (leaf b) = g b
graft g (node x t f) = node x (graft g t) (graft g f)

unfoldable pub and : Tree → Tree → Tree
unfolding graft
and a b = graft (λ c. if c then b else leaf false) a

unfoldable pub or : Tree → Tree → Tree
unfolding graft
or a b = graft (λ c. if c then leaf true else b) a

unfoldable pub complement : Tree → Tree
unfolding graft
complement a = graft (λ c. leaf (not c)) a

-- What a path has decided, latest first.
abbrev pub Decisions : Type 0
Decisions = List (ℕ × Bool)

unfoldable pub decided : ℕ → Decisions → Option Bool
decided x [] = none
decided x ((y, b) ∷ p) = if x == y then some b else decided x p

abbrev either : Option Decisions → Option Decisions → Option Decisions
either none o = o
either (some p) o = some p

-- A path to a true leaf that decides no variable in two ways.
unfoldable pub path_to : Tree → Decisions → Option Decisions
path_to (leaf true) p = some p
path_to (leaf false) p = none
path_to (node x t f) p =
    let on_true = path_to t p in
    let on_false = path_to f p in
    let both = either (path_to t ((x, true) ∷ p)) (path_to f ((x, false) ∷ p)) in
    elim (decided x p) [ none ↦ both | some b ↦ if b then on_true else on_false ]

unfoldable pub follow : Decisions → Valuation
unfolding decided
follow p x = elim (decided x p) [ none ↦ false | some b ↦ b ]

abbrev Agrees : Valuation → Decisions → Type 0
Agrees v p = (x : ℕ) (b : Bool) → decided x p ≡ some b → v x ≡ b

Agrees-tail :
    (v : Valuation) (p : Decisions) (x : ℕ) (c : Bool)
    → decided x p ≡ none
    → Agrees v ((x, c) ∷ p)
    → Agrees v p × (v x ≡ c)
unfolding decided
Agrees-tail v p x c n a =
    ((λ y b e. ground (arith, a y b, n, e, subst_decided y)), ground (arith, a x c))
  where
    subst_decided : (y : ℕ) → x ≡ y → decided x p ≡ decided y p
    subst_decided y e = ap (λ z. decided z p) e

Agrees-cons :
    (v : Valuation) (p : Decisions) (x : ℕ) (c : Bool)
    → v x ≡ c
    → Agrees v p
    → Agrees v ((x, c) ∷ p)
unfolding decided
Agrees-cons v p x c e a y b h = ground (arith, a y b, e, ap v)

path_to_sound :
    (t : Tree) (p q : Decisions) (v : Valuation)
    → path_to t p ≡ some q
    → Agrees v q
    → Agrees v p × (eval t v ≡ true)
unfolding path_to eval
path_to_sound (leaf true) p q v e a = let same : p ≡ q = cc in (subst (Agrees v) (sym same) a, refl)
path_to_sound (leaf false) p q v e a = cc
path_to_sound (node x t f) p q v e a = elim (Option-cases (decided x p)) [
  | inr (true, d) ↦
      let (ag, ev) = path_to_sound t p q v (ground (arith, e, d)) a in
      (ag, ground (arith, ev, ag x true d))
  | inr (false, d) ↦
      let (ag, ev) = path_to_sound f p q v (ground (arith, e, d)) a in
      (ag, ground (arith, ev, ag x false d))
  | inl n ↦ elim (Option-cases (path_to t ((x, true) ∷ p))) [
    | inr (r, h) ↦
        let (ag, ev) = path_to_sound t ((x, true) ∷ p) q v (ground (arith, e, n, h)) a in
        let (tail, here) = Agrees-tail v p x true n ag in (tail, ground (arith, ev, here))
    | inl h ↦
        let (ag, ev) = path_to_sound f ((x, false) ∷ p) q v (ground (arith, e, n, h)) a in
        let (tail, here) = Agrees-tail v p x false n ag in (tail, ground (arith, ev, here))
  ]
]

path_to_complete :
    (t : Tree) (p : Decisions) (v : Valuation) → path_to t p ≡ none → Agrees v p → eval t v ≡ false
unfolding path_to eval
path_to_complete (leaf true) p v e a = cc
path_to_complete (leaf false) p v e a = refl
path_to_complete (node x t f) p v e a = elim (Option-cases (decided x p)) [
  | inr (true, d) ↦ ground (arith, a x true d, path_to_complete t p v (ground (arith, e, d)) a)
  | inr (false, d) ↦ ground (arith, a x false d, path_to_complete f p v (ground (arith, e, d)) a)
  | inl n ↦ elim (Option-cases (path_to t ((x, true) ∷ p))) [
    | inr (r, h) ↦ absurd (ground (arith, e, n, h))
    | inl h ↦
        let k : path_to f ((x, false) ∷ p) ≡ none = ground (arith, e, n, h) in
        elim (Bool-cases (v x)) [
          | inl y ↦ rw y (path_to_complete t ((x, true) ∷ p) v h (Agrees-cons v p x true y a))
          | inr y ↦ rw y (path_to_complete f ((x, false) ∷ p) v k (Agrees-cons v p x false y a))
        ]
  ]
]

pub eval-graft :
    (g : Bool → Tree) (a : Tree) (v : Valuation) → eval (graft g a) v ≡ eval (g (eval a v)) v
unfolding eval graft
eval-graft g (leaf b) v = refl
eval-graft g (node x t f) v = ground (arith, eval-graft g t v, eval-graft g f v)

Agrees-follow : (p : Decisions) → Agrees (follow p) p
unfolding follow
Agrees-follow p x b e = ground (arith, e)

path_to-none : (a : Tree) (v : Valuation) → path_to a [] ≡ none → eval a v ≡ false
unfolding decided
path_to-none a v h = path_to_complete a [] v h (λ x b e. cc)

path_to-some : (a : Tree) (p : Decisions) → path_to a [] ≡ some p → eval a (follow p) ≡ true
path_to-some a p h = (path_to_sound a [] p (follow p) h (Agrees-follow p)).1

unfoldable pub sat_witness : Tree → Option Valuation
unfolding path_to follow
sat_witness a = elim (path_to a []) [ none ↦ none | some p ↦ some (follow p) ]

pub sat_witness-Witnessed : (a : Tree) → Witnessed (eval a) (sat_witness a)
unfolding sat_witness
sat_witness-Witnessed a = go (path_to a []) refl
  where
    go :
        (o : Option Decisions)
        → path_to a [] ≡ o
        → Witnessed (eval a) (elim o [ none ↦ none | some p ↦ some (follow p) ])
    go none e = λ v. path_to-none a v e
    go (some p) e = path_to-some a p e

unfoldable pub is_false : Tree → Bool
unfolding path_to
is_false a = elim (path_to a []) [ none ↦ true | some _ ↦ false ]

pub is_false_iff : (a : Tree) → (is_false a ≡ true) ↔ ((v : Valuation) → eval a v ≡ false)
unfolding is_false
is_false_iff a = elim (Option-cases (path_to a [])) [
  | inl e ↦ ((λ h v. path_to-none a v e), λ h. rw (e, is_false))
  | inr (p, e) ↦ (
    (λ h. absurd (ground (arith, e))),
    λ h. absurd (ground (arith, h (follow p), path_to-some a p e)),
  )
]
