-- ===== src/Policy/Assertion/Gives.antt =====
-- What the results of crates/policy/src/parse.rs hold, and the addresses of endpoints.
use fwdelta.Prelude.{
  ℕ, ◌+◌, ◌*◌, ◌<◌, ◌≤◌, ◌^◌, ◌≡◌, refl, Bool, true, false, List, [], ◌∷◌, Option, none, some,
  arith, ltb, ◌==◌, length, le_of_not_ltb, ==_iff,
}
use fwdelta.Prelude.Text.{Text}
use fwdelta.Prelude.Strings.{trim, split_once, split, parse_u32}
use fwdelta.Ir.Field.{src_addr}
use fwdelta.Ir.Intervals.{IntervalSet, point, prefix_range}
use fwdelta.Ir.Intervals.Literals.{prefix_lem}
use fwdelta.Ir.Rule.WellFormed.{Fits}
use fwdelta.Ir.Rule.Literals.{point-Fits, range-Fits, prefix_range-Fits, domain_max_32}
use fwdelta.Policy.Assertion.{
  PolicyError, Result, ok, refused, panicked, and_then, unwrapped, not_an_address, parse_octets,
  parse_ipv4, parse_prefix, parse_span, parse_addr,
}

-- No panic, and a value has the property.
abbrev pub Gives {ℓ} : {A : Type ℓ} → (A → Type 0) → Result A → Type 0
Gives Q (ok a) = Q a
Gives Q (refused e) = Unit
Gives Q panicked = ⊥

pub Gives-and_then {ℓ κ} :
    {A : Type ℓ} {B : Type κ} (Q : A → Type 0) (R : B → Type 0) (r : Result A) (f : A → Result B)
    → Gives Q r
    → ((a : A) → Q a → Gives R (f a))
    → Gives R (and_then r f)
Gives-and_then Q R (ok a) f h k = k a h
Gives-and_then Q R (refused e) f h k = tt
Gives-and_then Q R panicked f h k = elim h [ ]

pub Gives-weaken {ℓ} :
    {A : Type ℓ} (Q R : A → Type 0) (r : Result A) → ((a : A) → Q a → R a) → Gives Q r → Gives R r
Gives-weaken Q R (ok a) k h = k a h
Gives-weaken Q R (refused e) k h = tt
Gives-weaken Q R panicked k h = h

-- A value is the value.
pub Gives-same :
    {A : Type 0} (Q : A → Type 0) (r : Result A) → Gives Q r → Gives (λ a. Q a × (r ≡ ok a)) r
Gives-same Q (ok a) h = (h, refl)
Gives-same Q (refused e) h = tt
Gives-same Q panicked h = h

pub Gives-test {ℓ} :
    {A : Type ℓ} (Q : A → Type 0) (b : Bool) (e : PolicyError) (r : Result A)
    → (b ≡ false → Gives Q r)
    → Gives Q (elim b [ true ↦ refused e | false ↦ r ])
Gives-test Q true e r k = tt
Gives-test Q false e r k = k refl

pub Gives-elim {ℓ} :
    {A : Type ℓ} (Q : A → Type 0) (b : Bool) (x y : Result A)
    → Gives Q x
    → Gives Q y
    → Gives Q (elim b [ true ↦ x | false ↦ y ])
Gives-elim Q true x y h k = h
Gives-elim Q false x y h k = k

pub Gives-option {ℓ κ} :
    {A : Type ℓ} {B : Type κ} (Q : B → Type 0) (o : Option A) (r : Result B) (k : A → Result B)
    → Gives Q r
    → ((a : A) → Gives Q (k a))
    → Gives Q (elim o [ none ↦ r | some a ↦ k a ])
Gives-option Q none r k h j = h
Gives-option Q (some a) r k h j = j a

octet-Gives :
    (Q : ℕ → Type 0) (p : Text) (ps : List Text) (v : ℕ)
    → ((o : ℕ) → o ≤ 255 → Gives Q (parse_octets ps (v * 256 + o)))
    → Gives Q (parse_octets (p ∷ ps) v)
unfolding parse_octets
octet-Gives Q p ps v k =
    Gives-option Q (parse_u32 p) _ _ tt
      (λ o. Gives-test Q (ltb 255 o) _ _ (λ e. k o (le_of_not_ltb 255 o e)))

-- Four octets.
octets-Gives :
    (ps : List Text) → (length ps == 4) ≡ true → Gives (λ a. a < 2 ^ 32) (parse_octets ps 0)
octets-Gives [] h = absurd (cc (h))
octets-Gives (p ∷ []) h = absurd (cc (h))
octets-Gives (p ∷ q ∷ []) h = absurd (cc (h))
octets-Gives (p ∷ q ∷ r ∷ []) h = absurd (cc (h))
octets-Gives (p ∷ q ∷ r ∷ s ∷ []) h =
    let Q = λ (a : ℕ). a < 2 ^ 32 in
    octet-Gives Q p (q ∷ r ∷ s ∷ []) 0 λ a la. octet-Gives Q q (r ∷ s ∷ []) (0 * 256 + a) λ b lb.
      octet-Gives Q r (s ∷ []) ((0 * 256 + a) * 256 + b) λ c lc.
        octet-Gives Q s [] (((0 * 256 + a) * 256 + b) * 256 + c)
          λ d ld. unfold parse_octets in omega arith
octets-Gives (p ∷ q ∷ r ∷ s ∷ t ∷ ps) h =
    absurd (omega (arith, (==_iff (length (p ∷ q ∷ r ∷ s ∷ t ∷ ps)) 4).0 h))

pub parse_ipv4-Gives : (text : Text) → Gives (λ a. a < 2 ^ 32) (parse_ipv4 text)
unfolding parse_ipv4
parse_ipv4-Gives text =
    four (length (split 46 (trim text)) == 4) (octets-Gives (split 46 (trim text)))
  where
    four :
        (b : Bool)
        → (b ≡ true → Gives (λ a. a < 2 ^ 32) (parse_octets (split 46 (trim text)) 0))
        → Gives
            (λ a. a < 2 ^ 32)
            (elim b [
              | true ↦ parse_octets (split 46 (trim text)) 0
              | false ↦ refused (not_an_address (trim text))
            ])
    four true k = k refl
    four false k = tt

unwrapped-Gives :
    (o : Option IntervalSet) (s : IntervalSet)
    → o ≡ some s
    → Fits src_addr s
    → Gives (Fits src_addr) (unwrapped o)
unwrapped-Gives o s e h = rw (e) h

parse_prefix-Gives : (base len : Text) → Gives (Fits src_addr) (parse_prefix base len)
unfolding parse_prefix
parse_prefix-Gives base len =
    Gives-and_then (λ a. a < 2 ^ 32) (Fits src_addr) (parse_ipv4 base) _ (parse_ipv4-Gives base)
      (λ a l. Gives-option (Fits src_addr) (parse_u32 (trim len)) _ _ tt (λ n.
        Gives-test (Fits src_addr) (ltb 32 n) _ _ (λ e.
          let short = le_of_not_ltb 32 n e in
          unwrapped-Gives _ (prefix_range 32 a n) (prefix_lem 32 a n short) (
            prefix_range-Fits src_addr a n (omega arith) short
              (rw (domain_max_32) (omega arith))))))

parse_span-Gives : (t lo hi : Text) → Gives (Fits src_addr) (parse_span t lo hi)
unfolding parse_span
parse_span-Gives t lo hi =
    Gives-and_then (λ a. a < 2 ^ 32) (Fits src_addr) (parse_ipv4 lo) _ (parse_ipv4-Gives lo)
      (λ a la.
        Gives-and_then (λ a. a < 2 ^ 32) (Fits src_addr) (parse_ipv4 hi) _ (parse_ipv4-Gives hi)
          (λ b lb. Gives-test (Fits src_addr) (ltb b a) _ _ (λ e. range-Fits src_addr a b)))

-- An address, a prefix or a range is a set of addresses.
pub parse_addr-Gives : (text : Text) → Gives (Fits src_addr) (parse_addr text)
unfolding parse_addr
parse_addr-Gives text = slash (split_once 47 (trim text)) (split_once 45 (trim text))
  where
    dash :
        (o : Option (Text × Text))
        → Gives (Fits src_addr) (elim o [
          | some (lo, hi) ↦ parse_span (trim text) lo hi
          | none ↦ and_then (parse_ipv4 (trim text)) (λ a. ok (point 32 a))
        ])
    dash (some (lo, hi)) = parse_span-Gives (trim text) lo hi
    dash none =
        Gives-and_then (λ a. a < 2 ^ 32) (Fits src_addr) (parse_ipv4 (trim text)) _
          (parse_ipv4-Gives (trim text))
          (λ a l. point-Fits src_addr a (rw (domain_max_32) (omega arith)))

    slash :
        (o d : Option (Text × Text))
        → Gives (Fits src_addr) (elim o [
          | some (base, len) ↦ parse_prefix base len
          | none ↦ elim d [
            | some (lo, hi) ↦ parse_span (trim text) lo hi
            | none ↦ and_then (parse_ipv4 (trim text)) (λ a. ok (point 32 a))
          ]
        ])
    slash (some (base, len)) d = parse_prefix-Gives base len
    slash none d = dash d
