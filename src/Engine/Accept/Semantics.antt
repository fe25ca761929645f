-- ===== src/Engine/Accept/Semantics.antt =====
-- First-match evaluation of a chain, as docs/SEMANTICS.md describes it, independent of any diagram.
use fwdelta.Prelude.{
  ℕ, zero, suc, Bool, true, false, List, [], ◌∷◌, Option, none, some, ◌==◌, if◌then◌else◌, ◌≡◌,
  refl, arith, get_elem?, All,
}
use fwdelta.Ir.Interface.{SymbolTable}
use fwdelta.Ir.Rule.{permits, Rule, Chain}
use fwdelta.Ir.Rule.WellFormed.{IsWellFormed}
use fwdelta.Engine.Header.Matches.{Values, matches}

abbrev pub hits : SymbolTable → Values → Rule → Bool
hits t p r = matches r.matches t p

-- The verdict on a packet: that of the first rule that matches, or else `default`.
abbrev pub verdict_or : Bool → SymbolTable → List Rule → Values → Bool
verdict_or default t [] p = default
verdict_or default t (r ∷ rs) p = if hits t p r then permits r.action else verdict_or default t rs p

-- The chain permits the packet.
abbrev pub permitted : SymbolTable → Chain → Values → Bool
permitted t c p = verdict_or (permits c.policy) t c.rules p

abbrev pub later : Option ℕ → Option ℕ
later none = none
later (some i) = some (suc i)

-- The place of the first rule that matches.
abbrev pub first_match : SymbolTable → List Rule → Values → Option ℕ
first_match t [] p = none
first_match t (r ∷ rs) p = if hits t p r then some 0 else later (first_match t rs p)

abbrev pub is_at : ℕ → Option ℕ → Bool
is_at i none = false
is_at i (some j) = i == j

abbrev pub is_none : Option ℕ → Bool
is_none none = true
is_none (some _) = false

-- The rules without the one at place `i`.
abbrev pub without : ℕ → List Rule → List Rule
without i [] = []
without zero (r ∷ rs) = rs
without (suc i) (r ∷ rs) = r ∷ without i rs

-- The rules after the one at place `i`.
abbrev pub after : ℕ → List Rule → List Rule
after i [] = []
after zero (r ∷ rs) = rs
after (suc i) (r ∷ rs) = after i rs

abbrev pub WellFormedRules : List Rule → Type 0
WellFormedRules rs = All (λ r. IsWellFormed r.matches) rs

-- Leaving out the rule at `i` changes the verdict exactly where that rule decides and the rules
-- after it decide otherwise.
pub verdict_or-without :
    (d : Bool) (t : SymbolTable) (rs : List Rule) (p : Values) (i : ℕ)
    → verdict_or d t (without i rs) p ≡ (
        if is_at i (first_match t rs p) then verdict_or d t (after i rs) p else verdict_or d t rs p)
verdict_or-without d t [] p i = refl
verdict_or-without d t (r ∷ rs) p zero = ground arith
verdict_or-without d t (r ∷ rs) p (suc i) = ground (arith, verdict_or-without d t rs p i)

-- Where the rule at `i` decides, the verdict is its action's.
pub verdict_or-first_match :
    (d : Bool) (t : SymbolTable) (rs : List Rule) (p : Values) (i : ℕ) {r : Rule}
    → get_elem? rs i ≡ some r
    → is_at i (first_match t rs p) ≡ true
    → verdict_or d t rs p ≡ permits r.action
verdict_or-first_match d t [] p i h k = cc
verdict_or-first_match d t (q ∷ rs) p zero h k = ground arith
verdict_or-first_match d t (q ∷ rs) p (suc i) h k =
    ground (arith, verdict_or-first_match d t rs p i h)
