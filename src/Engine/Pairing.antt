-- ===== src/Engine/Pairing.antt =====
-- crates/engine/src/diff.rs: the pairing of the rules of two revisions, and the order of the report.
use fwdelta.Prelude.{
  ℕ, Bool, true, ◌&&◌, List, [], ◌∷◌, map, Option, none, some, ◌==◌, ltb, leb, if◌then◌else◌,
}
use fwdelta.Engine.Accept.{RuleModel, ChainModel}

pub data Structural : Type 0 where
  now_unreachable now_reachable : ℕ → List ℕ → Structural
  now_redundant no_longer_redundant added removed modified : ℕ → Structural

unfoldable pub number : Structural → ℕ
number (now_unreachable n by) = n
number (now_reachable n by) = n
number (now_redundant n) = n
number (no_longer_redundant n) = n
number (added n) = n
number (removed n) = n
number (modified n) = n

-- A rule by its content key and its number.
abbrev pub Keyed : Type 0
Keyed = ℕ × ℕ

abbrev pub Taken : Type 0
Taken = Option (ℕ × List Keyed)

abbrev pub keep : Keyed → Taken → Taken
keep k none = none
keep k (some (n, rest)) = some (n, k ∷ rest)

-- The map from keys to numbers is the list of the head's rules in file order: reversing each entry
-- and popping its end takes the first rule with the key that is left.
unfoldable pub take_key : ℕ → List Keyed → Taken
take_key key [] = none
take_key key ((k, n) ∷ rest) = if k == key then some (n, rest) else keep (k, n) (take_key key rest)

pub record Pairing : Type 0 where
  pub paired : List (ℕ × ℕ)
  pub removed_rules : List ℕ
  pub left : List Keyed

-- One base rule, with the outcome of the search for its partner.
unfoldable pub pair_one : ℕ → Taken → List Keyed → (List Keyed → Pairing) → Pairing
pair_one n none left go = let p = go left in record p { removed_rules = n ∷ p.removed_rules }
pair_one n (some (h, left')) left go = let p = go left' in record p { paired = (n, h) ∷ p.paired }

unfoldable pub pair_loop : List Keyed → List Keyed → Pairing
unfolding pair_one take_key
pair_loop [] left = record { paired = []; removed_rules = []; left = left }
pair_loop ((k, n) ∷ base) left = pair_one n (take_key k left) left (pair_loop base)

-- `sort_unstable` on numbers.
unfoldable pub insert_number : ℕ → List ℕ → List ℕ
insert_number n [] = n ∷ []
insert_number n (m ∷ ms) = if leb n m then n ∷ m ∷ ms else m ∷ insert_number n ms

unfoldable pub sort_numbers : List ℕ → List ℕ
unfolding insert_number
sort_numbers [] = []
sort_numbers (n ∷ ns) = insert_number n (sort_numbers ns)

abbrev pub keyed : {B : Type 0} → RuleModel B → Keyed
keyed r = (r.content_key, r.number)

unfoldable pub pair_rules :
    {B : Type 0} → ChainModel B → ChainModel B → List (ℕ × ℕ) × List ℕ × List ℕ
unfolding pair_loop sort_numbers
pair_rules base head =
    let p = pair_loop (map keyed base.rules) (map keyed head.rules) in
    (p.paired, p.removed_rules, sort_numbers (map (λ k. k.1) p.left))

unfoldable pub find_rule : {B : Type 0} → ℕ → List (RuleModel B) → Option (RuleModel B)
find_rule n [] = none
find_rule n (r ∷ rs) = if r.number == n then some r else find_rule n rs

-- `added_left.remove(pos)` at the first equal number, if there is one.
unfoldable pub remove_first : ℕ → List ℕ → Option (List ℕ)
remove_first n [] = none
remove_first n (m ∷ ms) =
    if m == n then some ms else elim (remove_first n ms) [ none ↦ none | some r ↦ some (m ∷ r) ]

pub record Edits : Type 0 where
  pub changed : List Structural
  pub removed_left : List ℕ
  pub added_left : List ℕ

-- The pairing of an unmatched removal with an unmatched addition at the same number.
unfoldable pub in_place : List ℕ → List ℕ → Edits
unfolding remove_first
in_place [] fresh = record { changed = []; removed_left = []; added_left = fresh }
in_place (n ∷ ns) fresh =
    let kept = in_place ns fresh in
    let matched = λ (fresh' : List ℕ). in_place ns fresh' in
    elim (remove_first n fresh) [
      | none ↦ record kept { removed_left = n ∷ kept.removed_left }
      | some fresh' ↦ record (matched fresh') { changed = modified n ∷ (matched fresh').changed }
    ]

-- The place of a variant's name among those of the derived `Debug` text, which breaks ties between
-- entries of one number; no two entries have the same number and variant.
unfoldable pub debug_rank : Structural → ℕ
debug_rank (added n) = 0
debug_rank (modified n) = 1
debug_rank (no_longer_redundant n) = 2
debug_rank (now_reachable n by) = 3
debug_rank (now_redundant n) = 4
debug_rank (now_unreachable n by) = 5
debug_rank (removed n) = 6

abbrev pub structural_le : Structural → Structural → Bool
structural_le a b =
    if ltb (number a) (number b)
    then true
    else number a == number b && leb (debug_rank a) (debug_rank b)

unfoldable pub insert_structural : Structural → List Structural → List Structural
unfolding number debug_rank
insert_structural s [] = s ∷ []
insert_structural s (t ∷ ts) = if structural_le s t then s ∷ t ∷ ts else t ∷ insert_structural s ts

unfoldable pub sort_structural : List Structural → List Structural
unfolding insert_structural
sort_structural [] = []
sort_structural (s ∷ ss) = insert_structural s (sort_structural ss)
