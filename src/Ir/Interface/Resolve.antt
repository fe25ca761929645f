-- ===== src/Ir/Interface/Resolve.antt =====
-- `IfMatch::resolve` of crates/ir/src/interface.rs: which symbols a match admits.
use fwdelta.Prelude.{
  ℕ, ◌<◌, ◌≡◌, refl, ◌∙◌, ap, Bool, false, ◌&&◌, ◌||◌, not, List, [], ◌∷◌, none, some, arith, leb,
  ◌==◌, Option-cases, inl, inr,
}
use fwdelta.Prelude.{any as any_of}
use fwdelta.Prelude.Text.{Text}
use fwdelta.Ir.Intervals.{IntervalSet, domain_max, empty, point, union, contains}
use fwdelta.Ir.Intervals.Normal.{IsCanonical}
use fwdelta.Ir.Intervals.Members.{contains-union}
use fwdelta.Ir.Intervals.Complement.{contains-complement, bits-complement}
use fwdelta.Ir.Intervals.Equality.{full-IsCanonical, contains-full}
use fwdelta.Ir.Interface.{
  SymbolTable, IfMatch, any, one_of, none_of, index_of, add_symbol, symbols, resolve,
}

-- The symbol `v` stands for the name.
abbrev pub stands_for : SymbolTable → ℕ → Text → Bool
stands_for t v n = elim (index_of t n) [ none ↦ false | some i ↦ i == v ]

-- A set of the 8-bit dimension, in canonical form.
abbrev pub IsSymbols : IntervalSet → Type 0
IsSymbols s = IsCanonical s × (s.bits ≡ 8)

-- What `resolve` means: the symbols of the names, or all 256 others.
abbrev pub admits : SymbolTable → IfMatch → ℕ → Bool
admits t any v = leb v 255
admits t (one_of ns) v = any_of (stands_for t v) ns
admits t (none_of ns) v = leb v 255 && not (any_of (stands_for t v) ns)

index_of-lt : (t : SymbolTable) (n : Text) (i : ℕ) → index_of t n ≡ some i → i < 256
unfolding index_of
index_of-lt t n i h = ground arith

domain_max-byte : domain_max 8 ≡ 255
unfolding domain_max
domain_max-byte = refl

point-IsSymbols : (i : ℕ) → i < 256 → IsSymbols (point 8 i)
point-IsSymbols i h = ((omega arith, omega arith, omega (arith, domain_max-byte), tt), refl)

contains-point : (i v : ℕ) → contains (point 8 i) v ≡ (i == v)
unfolding contains
contains-point i v = ground arith

bits-union : (s t : IntervalSet) → (union s t).bits ≡ s.bits
unfolding union
bits-union s t = refl

stands_for-some :
    (t : SymbolTable) (v i : ℕ) (n : Text) → index_of t n ≡ some i → (i == v) ≡ stands_for t v n
stands_for-some t v i n e = ground (arith, e)

add_symbol_lem :
    (t : SymbolTable) (n : Text) (acc : IntervalSet) (v : ℕ)
    → IsSymbols acc
    → IsSymbols (add_symbol t n acc)
      × (contains (add_symbol t n acc) v ≡ (contains acc v || stands_for t v n))
unfolding add_symbol
add_symbol_lem t n acc v c = elim (Option-cases (index_of t n)) [
  | inl e ↦ rw (e, add_symbol) (c, ground arith)
  | inr (i, e) ↦
      let p = point-IsSymbols i (index_of-lt t n i e) in
      let (u, members) = contains-union acc (point 8 i) v c.0 p.0 c.1 in
      rw (e, add_symbol)
        (
          (u, bits-union acc (point 8 i) ∙ c.1),
          members ∙ ap (λ b. contains acc v || b) (contains-point i v ∙ stands_for-some t v i n e),
        )
]

symbols_lem :
    (t : SymbolTable) (ns : List Text) (acc : IntervalSet) (v : ℕ)
    → IsSymbols acc
    → IsSymbols (symbols t ns acc)
      × (contains (symbols t ns acc) v ≡ (contains acc v || any_of (stands_for t v) ns))
unfolding symbols
symbols_lem t [] acc v c = (c, ground arith)
symbols_lem t (n ∷ ns) acc v c =
    let (c', here) = add_symbol_lem t n acc v c in
    let (cs, rest) = symbols_lem t ns (add_symbol t n acc) v c' in (cs, ground (arith, here, rest))

none-IsSymbols : (v : ℕ) → IsSymbols (empty 8) × (contains (empty 8) v ≡ false)
unfolding contains
none-IsSymbols v = ((tt, refl), refl)

-- A match on interfaces resolves to a canonical set of 8-bit symbols. Unconstrained, it is every
-- symbol, whatever the table; a list of names gives the symbols that stand for one of them; a
-- negated list gives all other symbols of the 256, the unnamed ones included.
pub contains-resolve :
    (t : SymbolTable) (m : IfMatch) (v : ℕ)
    → IsSymbols (resolve t m) × (contains (resolve t m) v ≡ admits t m v)
unfolding resolve
contains-resolve t any v =
    ((full-IsCanonical 8, refl), contains-full 8 v ∙ ap (leb v) domain_max-byte)
contains-resolve t (one_of ns) v =
    let (c, e) = none-IsSymbols v in
    let (cs, members) = symbols_lem t ns (empty 8) v c in (cs, ground (arith, members, e))
contains-resolve t (none_of ns) v =
    let (c, e) = none-IsSymbols v in
    let (cs, members) = symbols_lem t ns (empty 8) v c in
    let (cc', others) = contains-complement (symbols t ns (empty 8)) v cs.0 in
    (
      (cc', bits-complement (symbols t ns (empty 8)) ∙ cs.1),
      others ∙ ground (arith, members, e, ap domain_max cs.1 ∙ domain_max-byte),
    )
