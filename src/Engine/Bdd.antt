-- ===== src/Engine/Bdd.antt =====
-- The decision-diagram library that crates/engine calls, as the interface that the engine uses: the
-- operations, and what they promise about the Boolean function that a diagram represents.
pub mod Tree
pub mod TreeLib
use fwdelta.Prelude.{
  ℕ, Bool, true, false, ◌&&◌, ◌||◌, not, ◌≡◌, ◌↔◌, Option, none, some, ◌==◌, if◌then◌else◌,
}

-- A valuation gives each variable, by its index, a value.
abbrev pub Valuation : Type 0
Valuation = ℕ → Bool

-- What `sat_witness` promises: a valuation of the function, unless it is constantly false.
abbrev pub Witnessed : (Valuation → Bool) → Option Valuation → Type 0
Witnessed f none = (v : Valuation) → f v ≡ false
Witnessed f (some v) = f v ≡ true

pub record BddLib : Type 1 where
  pub Bdd : Type 0
  pub mk_true : Bdd
  pub mk_false : Bdd
  pub mk_literal : ℕ → Bool → Bdd
  pub and : Bdd → Bdd → Bdd
  pub or : Bdd → Bdd → Bdd
  pub and_not : Bdd → Bdd → Bdd
  pub complement : Bdd → Bdd
  pub is_true : Bdd → Bool
  pub is_false : Bdd → Bool
  -- `==` on diagrams
  pub same : Bdd → Bdd → Bool
  pub sat_witness : Bdd → Option Valuation
  -- the function that a diagram represents
  pub eval : Bdd → Valuation → Bool
  pub eval-mk_true : (v : Valuation) → eval mk_true v ≡ true
  pub eval-mk_false : (v : Valuation) → eval mk_false v ≡ false
  pub eval-mk_literal :
      (x : ℕ) (b : Bool) (v : Valuation) → eval (mk_literal x b) v ≡ (if b then v x else not (v x))
  pub eval-and : (a b : Bdd) (v : Valuation) → eval (and a b) v ≡ (eval a v && eval b v)
  pub eval-or : (a b : Bdd) (v : Valuation) → eval (or a b) v ≡ (eval a v || eval b v)
  pub eval-and_not :
      (a b : Bdd) (v : Valuation) → eval (and_not a b) v ≡ (eval a v && not (eval b v))
  pub eval-complement : (a : Bdd) (v : Valuation) → eval (complement a) v ≡ not (eval a v)
  pub is_true_iff : (a : Bdd) → (is_true a ≡ true) ↔ ((v : Valuation) → eval a v ≡ true)
  pub is_false_iff : (a : Bdd) → (is_false a ≡ true) ↔ ((v : Valuation) → eval a v ≡ false)
  pub same_iff : (a b : Bdd) → (same a b ≡ true) ↔ ((v : Valuation) → eval a v ≡ eval b v)
  pub sat_witness-Witnessed : (a : Bdd) → Witnessed (eval a) (sat_witness a)
