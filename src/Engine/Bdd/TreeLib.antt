-- ===== src/Engine/Bdd/TreeLib.antt =====
-- The interface of Engine/Bdd.antt, filled by the decision trees of Engine/Bdd/Tree.antt.
use fwdelta.Prelude.{
  ℕ, Bool, true, false, ◌&&◌, ◌||◌, not, ◌≡◌, ◌↔◌, refl, if◌then◌else◌, arith, ◌∙◌,
}
use fwdelta.Engine.Bdd.{Valuation, BddLib}
use fwdelta.Engine.Bdd.Tree.{
  Tree, leaf, node, eval, and, or, complement, eval-graft, sat_witness, sat_witness-Witnessed,
  is_false, is_false_iff,
}

pub eval-and : (a b : Tree) (v : Valuation) → eval (and a b) v ≡ (eval a v && eval b v)
unfolding and eval
eval-and a b v = eval-graft _ a v ∙ ground arith

pub eval-or : (a b : Tree) (v : Valuation) → eval (or a b) v ≡ (eval a v || eval b v)
unfolding or eval
eval-or a b v = eval-graft _ a v ∙ ground arith

pub eval-complement : (a : Tree) (v : Valuation) → eval (complement a) v ≡ not (eval a v)
unfolding complement eval
eval-complement a v = eval-graft _ a v

-- Two diagrams are compared by their symmetric difference.
abbrev pub differ : Tree → Tree → Tree
differ a b = or (and a (complement b)) (and b (complement a))

eval-differ :
    (a b : Tree) (v : Valuation)
    → eval (differ a b) v ≡ (eval a v && not (eval b v) || eval b v && not (eval a v))
eval-differ a b v = ground (
  arith,
  eval-or (and a (complement b)) (and b (complement a)) v,
  eval-and a (complement b) v,
  eval-and b (complement a) v,
  eval-complement a v,
  eval-complement b v,
)

pub is_true_iff :
    (a : Tree) → (is_false (complement a) ≡ true) ↔ ((v : Valuation) → eval a v ≡ true)
is_true_iff a = (
  (λ h v. ground (arith, (is_false_iff (complement a)).0 h v, eval-complement a v)),
  λ h. (is_false_iff (complement a)).1 (λ v. ground (arith, h v, eval-complement a v)),
)

pub same_iff :
    (a b : Tree) → (is_false (differ a b) ≡ true) ↔ ((v : Valuation) → eval a v ≡ eval b v)
same_iff a b = (
  (λ h v. ground (arith, (is_false_iff (differ a b)).0 h v, eval-differ a b v)),
  λ h. (is_false_iff (differ a b)).1 (λ v. ground (arith, h v, eval-differ a b v)),
)

abbrev pub literal : ℕ → Bool → Tree
literal x b = node x (leaf b) (leaf (not b))

pub eval-leaf : (b : Bool) (v : Valuation) → eval (leaf b) v ≡ b
unfolding eval
eval-leaf b v = refl

pub eval-literal :
    (x : ℕ) (b : Bool) (v : Valuation) → eval (literal x b) v ≡ (if b then v x else not (v x))
unfolding eval
eval-literal x b v = ground arith

pub eval-and_not :
    (a b : Tree) (v : Valuation) → eval (and a (complement b)) v ≡ (eval a v && not (eval b v))
eval-and_not a b v = ground (arith, eval-and a (complement b) v, eval-complement b v)

instance abbrev pub tree_lib : BddLib
tree_lib = record {
  Bdd = Tree;
  mk_true = leaf true;
  mk_false = leaf false;
  mk_literal = literal;
  and = and;
  or = or;
  and_not = λ a b. and a (complement b);
  complement = complement;
  is_true = λ a. is_false (complement a);
  is_false = is_false;
  same = λ a b. is_false (differ a b);
  sat_witness = sat_witness;
  eval = eval;
  eval-mk_true = eval-leaf true;
  eval-mk_false = eval-leaf false;
  eval-mk_literal = eval-literal;
  eval-and = eval-and;
  eval-or = eval-or;
  eval-and_not = eval-and_not;
  eval-complement = eval-complement;
  is_true_iff = is_true_iff;
  is_false_iff = is_false_iff;
  same_iff = same_iff;
  sat_witness-Witnessed = sat_witness-Witnessed;
}
