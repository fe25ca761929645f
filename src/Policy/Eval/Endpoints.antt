-- ===== src/Policy/Eval/Endpoints.antt =====
-- The set that `Policy::resolve` of crates/policy/src/parse.rs finds is what the endpoint means.
use fwdelta.Prelude.{
  ℕ, ◌<◌, ◌≤◌, ◌^◌, ◌≡◌, refl, ◌∙◌, sym, ap, Bool, true, false, List, [], ◌∷◌, Option, none, some,
  arith, ltb, ◌==◌, le_of_not_ltb, if◌then◌else◌,
}
use fwdelta.Prelude.Text.{Text, text_eq}
use fwdelta.Prelude.Strings.{trim, split_once, parse_u32}
use fwdelta.Ir.Intervals.{IntervalSet, domain_max, point, prefix, contains}
use fwdelta.Ir.Intervals.Literals.{contains-range, contains-prefix}
use fwdelta.Ir.Rule.Literals.{domain_max_32}
use fwdelta.Policy.Assertion.{
  Endpoint, zone, literal, Policy, Result, ok, refused, and_then, unwrapped, not_a_prefix_length,
  long_prefix, parse_ipv4, parse_prefix, parse_span, parse_addr, find_zone, resolve,
}
use fwdelta.Policy.Assertion.Gives.{
  Gives, Gives-and_then, Gives-weaken, Gives-test, Gives-same, parse_ipv4-Gives,
}
use fwdelta.Policy.Eval.Meaning.{zone_has, quad_is, block_has, span_has, block_or_span_has, end_has}

-- A set that holds `v` if the test says so.
abbrev Says : ℕ → Bool → IntervalSet → Type 0
Says v b s = contains s v ≡ b

address_le : (a : ℕ) → a < 2 ^ 32 → a ≤ domain_max 32
address_le a h = rw (domain_max_32) (omega arith)

-- A result behind an address says of it what holds once the address is read.
quad-Gives :
    (v : ℕ) (text : Text) (f : ℕ → Bool) (k : ℕ → Result IntervalSet)
    → ((a : ℕ) → a < 2 ^ 32 → Gives (Says v (f a)) (k a))
    → Gives (Says v (quad_is (parse_ipv4 text) f)) (and_then (parse_ipv4 text) k)
quad-Gives v text f k h =
    Gives-and_then (λ a. (a < 2 ^ 32) × (parse_ipv4 text ≡ ok a))
      (Says v (quad_is (parse_ipv4 text) f)) (parse_ipv4 text) k
      (Gives-same (λ a. a < 2 ^ 32) (parse_ipv4 text) (parse_ipv4-Gives text))
      λ a i.
        Gives-weaken (Says v (f a)) (Says v (quad_is (parse_ipv4 text) f)) (k a)
          (λ s e. e ∙ sym (ap (λ r. quad_is r f) i.1)) (h a i.0)

point-Says : (a v : ℕ) → Says v (a == v) (point 32 a)
unfolding contains
point-Says a v = ground arith

unwrapped-Gives :
    (v : ℕ) (b : Bool) (o : Option IntervalSet) (s : IntervalSet)
    → o ≡ some s
    → Says v b s
    → Gives (Says v b) (unwrapped o)
unwrapped-Gives v b o s e h = rw (e) h

length-Gives :
    (v a : ℕ) (len : Text) (o : Option ℕ)
    → a < 2 ^ 32
    → Gives (Says v (block_has o a v)) (elim o [
      | none ↦ refused (not_a_prefix_length len)
      | some n ↦ elim (ltb 32 n) [
        | true ↦ refused (long_prefix n)
        | false ↦ unwrapped (prefix 32 a n)
      ]
    ])
length-Gives v a len none h = tt
length-Gives v a len (some n) h = Gives-test (Says v (block_has (some n) a v)) (ltb 32 n) _ _ (λ e.
    let (s, is, c, has) =
      contains-prefix 32 a n v (omega arith) (le_of_not_ltb 32 n e) (address_le a h) in
    unwrapped-Gives v (block_has (some n) a v) (prefix 32 a n) s is has)

parse_prefix-has :
    (v : ℕ) (base len t : Text)
    → Gives (Says v (block_or_span_has (some (base, len)) t v)) (parse_prefix base len)
unfolding parse_prefix
parse_prefix-has v base len t =
    quad-Gives v base (λ a. block_has (parse_u32 (trim len)) a v) _
      (λ a h. length-Gives v a len (parse_u32 (trim len)) h)

parse_span-has :
    (v : ℕ) (t lo hi : Text) → Gives (Says v (span_has (some (lo, hi)) t v)) (parse_span t lo hi)
unfolding parse_span
parse_span-has v t lo hi = quad-Gives v lo _ _ λ a la. quad-Gives v hi _ _ λ b lb.
    Gives-test _ (ltb b a) _ _
      (λ e. contains-range 32 a b v (le_of_not_ltb b a e) (address_le b lb))

parse_addr-has :
    (v : ℕ) (text : Text)
    → Gives (Says v (block_or_span_has (split_once 47 (trim text)) (trim text) v)) (parse_addr text)
unfolding parse_addr
parse_addr-has v text = slash (split_once 47 (trim text))
  where
    dash :
        (d : Option (Text × Text))
        → Gives (Says v (span_has d (trim text) v)) (elim d [
          | some (lo, hi) ↦ parse_span (trim text) lo hi
          | none ↦ and_then (parse_ipv4 (trim text)) (λ a. ok (point 32 a))
        ])
    dash (some (lo, hi)) = parse_span-has v (trim text) lo hi
    dash none = quad-Gives v (trim text) (λ a. a == v) _ (λ a h. point-Says a v)

    slash :
        (o : Option (Text × Text))
        → Gives (Says v (block_or_span_has o (trim text) v)) (elim o [
          | some (base, len) ↦ parse_prefix base len
          | none ↦ elim (split_once 45 (trim text)) [
            | some (lo, hi) ↦ parse_span (trim text) lo hi
            | none ↦ and_then (parse_ipv4 (trim text)) (λ a. ok (point 32 a))
          ]
        ])
    slash (some (base, len)) = parse_prefix-has v base len (trim text)
    slash none = dash (split_once 45 (trim text))

find_zone-has :
    (v : ℕ) (n : Text) (zs : List (Text × IntervalSet))
    → Gives (Says v (zone_has n zs v)) (find_zone n zs)
unfolding find_zone
find_zone-has v n [] = tt
find_zone-has v n ((m, s) ∷ zs) =
    elim (text_eq m n)
      as (λ b.
        Gives (Says v (if b then contains s v else zone_has n zs v))
          (elim b [ true ↦ ok s | false ↦ find_zone n zs ])) [
            | true ↦ refl
            | false ↦ find_zone-has v n zs
          ]

pub resolve-has :
    (v : ℕ) (p : Policy) (e : Endpoint) → Gives (Says v (end_has p (some e) v)) (resolve p e)
unfolding resolve
resolve-has v p (zone n) = find_zone-has v n p.zones
resolve-has v p (literal text) = parse_addr-has v text
