-- ===== src/Engine/Header/Encode.antt =====
-- Every packet has a valuation: the header space of crates/engine/src/header.rs loses no packet.
use native.Mathlib.Nat.{mod-eq_of_lt, mod-one}
use fwdelta.Prelude.{
  ℕ, zero, suc, ◌+◌, ◌-◌, ◌*◌, ◌^◌, ◌<◌, ◌≤◌, ◌≡◌, ◌∙◌, ap, sym, Bool, false, Option, none, some,
  arith, get_elem?, ◌/◌, ◌%◌, if◌then◌else◌, ◌==◌, fun_ext, ap₂,
}
use fwdelta.Ir.Field.{Field, bits}
use fwdelta.Ir.Interface.{SymbolTable}
use fwdelta.Ir.Rule.{Match}
use fwdelta.Ir.Rule.WellFormed.{IsWellFormed}
use fwdelta.Engine.Bdd.{BddLib, Valuation}
use fwdelta.Engine.Header.{VarOrder, FieldBit, sequence, new, var, bit_at, match_bdd}
use fwdelta.Engine.Header.Order.{sequence-var}
use fwdelta.Engine.Header.Bits.{low, field-low, mod_pow_suc}
use fwdelta.Engine.Header.Matches.{Values, matches, eval-match_bdd}
use fwdelta.Engine.Packet.{field}

-- Every value fits its field.
abbrev pub InRange : Values → Type 0
InRange p = (f : Field) → p f < 2 ^ bits f

abbrev bit_of : Values → Option FieldBit → Bool
bit_of p none = false
bit_of p (some (f, b)) = bit_at (p f) (bits f - 1 - b)

-- The valuation of a packet: each variable has the bit that the sequence puts there.
unfoldable pub encode : VarOrder → Values → Valuation
encode o p x = bit_of p (get_elem? (sequence o) x)

encode-var :
    (o : VarOrder) (p : Values) (f : Field) (b : ℕ)
    → b < bits f
    → encode o p (var (new o) f b) ≡ bit_at (p f) (bits f - 1 - b)
unfolding encode
encode-var o p f b h = ap (bit_of p) (sequence-var o f b h).0

bit_weight : (d q : ℕ) → d < 2 → (if d == 1 then q else 0) ≡ d * q
bit_weight zero q h = omega arith
bit_weight (suc zero) q h = omega arith
bit_weight (suc (suc d)) q h = absurd (omega arith)

low-encode :
    (o : VarOrder) (p : Values) (f : Field) (n : ℕ)
    → n ≤ bits f
    → low (new o) (encode o p) f n ≡ p f % 2 ^ n
unfolding low
low-encode o p f zero h = sym (mod-one (p f))
low-encode o p f (suc n) h =
    let b = bits f - 1 - n in
    let back : bits f - 1 - b ≡ n = omega arith in
    let bit : encode o p (var (new o) f b) ≡ bit_at (p f) n =
      encode-var o p f b (omega arith) ∙ ap (bit_at (p f)) back in
    ap₂ (λ (x y : ℕ). x + y)
      (ap (λ c. if c then 2 ^ n else 0) bit ∙ bit_weight (p f / 2 ^ n % 2) (2 ^ n) (omega arith))
      (low-encode o p f n (omega arith))
    ∙ sym (mod_pow_suc (p f) n)

-- Reading the fields back from a packet's valuation gives the packet, in both orders.
pub field-encode :
    (o : VarOrder) (p : Values) (f : Field) → InRange p → field (new o) (encode o p) f ≡ p f
field-encode o p f h =
    field-low (new o) (encode o p) f ∙ low-encode o p f (bits f) (omega arith) ∙ mod-eq_of_lt (h f)

pub fields-encode : (o : VarOrder) (p : Values) → InRange p → field (new o) (encode o p) ≡ p
fields-encode o p h = fun_ext (λ f. field-encode o p f h)

-- The diagram of a well-formed match holds the valuation of a packet whose values fit their fields
-- exactly when the match admits the packet, in both variable orders: each of the five sets holds the
-- packet's value, and the symbol of each interface is one of those that the match names, in a negated
-- list one of the others, and any where the match leaves it free.
pub match_bdd_exact :
    ⦃lib : BddLib⦄ (o : VarOrder) (m : Match) (t : SymbolTable) (p : Values)
    → IsWellFormed m
    → InRange p
    → lib.eval (match_bdd (new o) m t) (encode o p) ≡ matches m t p
match_bdd_exact o m t p w h =
    eval-match_bdd (new o) (encode o p) m t w ∙ ap (matches m t) (fields-encode o p h)
