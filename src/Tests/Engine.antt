-- ===== src/Tests/Engine.antt =====
-- Header space, analysis and delta of crates/engine on a small chain, over decision trees.
use fwdelta.Prelude.{
  ◌+◌, if◌then◌else◌, ◌≡◌, refl, true, false, ◌&&◌, not, [], ◌∷◌, some, ◌↔◌, arith, get_elem?,
  length,
}
use fwdelta.Ir.Field.{src_addr, dst_addr, src_port, dst_port, proto, if_in, if_out, header_bits}
use fwdelta.Ir.Intervals.{domain_max, point}
use fwdelta.Ir.Interface.{SymbolTable}
use fwdelta.Ir.Rule.{accept, drop, permits, Origin, Match, any_match, Rule, input, Chain}
use fwdelta.Ir.Rule.WellFormed.{IsWellFormed, full-Fits, any_match-IsWellFormed}
use fwdelta.Engine.Bdd.Tree.{Tree}
use fwdelta.Engine.Bdd.TreeLib.{tree_lib}
use fwdelta.Engine.Header.{field_major, addr_interleaved, new, var, sequence, match_bdd}
use fwdelta.Engine.Header.Order.{sequence-var}
use fwdelta.Engine.Header.Matches.{Values, matches}
use fwdelta.Engine.Header.Encode.{InRange, encode, match_bdd_exact}
use fwdelta.Engine.Accept.{
  RuleModel, ContentKey, forward_model, cover, is_redundant, extend, analyse,
}
use fwdelta.Engine.Accept.Semantics.{
  permitted, first_match, is_at, is_none, without, verdict_or, WellFormedRules,
}
use fwdelta.Engine.Accept.Packets.{accept_exact, partition_exact, shadowed_iff, redundant_iff}
use fwdelta.Engine.Diff.{diff, is_behaviourally_identical}
use fwdelta.Engine.Diff.Delta.{delta_exact, identical_iff}

abbrev pub no_names : SymbolTable
no_names = record { names = [] }

-- A key that tells the rules of the samples apart.
abbrev pub sample_key : ContentKey
sample_key m a = length m.dst_port_set.ranges + (if permits a then 1 else 0)

abbrev nowhere : Origin
nowhere = record { file = []; line = 1; column = 1; text = [] }

-- `tcp dport 22`
abbrev pub ssh : Match
ssh = record any_match { dst_port_set = point 16 22; proto_set = point 8 6 }

pub ssh-IsWellFormed : IsWellFormed ssh
unfolding domain_max
ssh-IsWellFormed = record {
  src_addr_fits = full-Fits src_addr;
  dst_addr_fits = full-Fits dst_addr;
  src_port_fits = full-Fits src_port;
  dst_port_fits = (omega arith, refl);
  proto_fits = (omega arith, refl);
}

abbrev ssh_rule : Rule
ssh_rule = record { number = 1; matches = ssh; action = accept; origin = nowhere }

abbrev rest_rule : Rule
rest_rule = record { number = 2; matches = any_match; action = drop; origin = nowhere }

abbrev pub base : Chain
base = record { name = []; hook = input; policy = drop; rules = rest_rule ∷ [] }

abbrev pub head : Chain
head = record { name = []; hook = input; policy = drop; rules = ssh_rule ∷ rest_rule ∷ [] }

pub base_rules : WellFormedRules base.rules
base_rules = (any_match-IsWellFormed, tt)

pub head_rules : WellFormedRules head.rules
head_rules = (ssh-IsWellFormed, (any_match-IsWellFormed, tt))

-- A connection to port 22.
abbrev pub knock : Values
knock src_addr = 167772161
knock dst_addr = 167772162
knock src_port = 40000
knock dst_port = 22
knock proto = 6
knock if_in = 0
knock if_out = 0

pub knock-InRange : InRange knock
knock-InRange src_addr = omega arith
knock-InRange dst_addr = omega arith
knock-InRange src_port = omega arith
knock-InRange dst_port = omega arith
knock-InRange proto = omega arith
knock-InRange if_in = omega arith
knock-InRange if_out = omega arith

sequence-var_example :
    (get_elem? (sequence addr_interleaved) (var (new addr_interleaved) dst_port 15)
      ≡ some (dst_port, 15))
    × (length (sequence addr_interleaved) ≡ header_bits)
sequence-var_example = sequence-var addr_interleaved dst_port 15 (omega arith)

match_bdd_exact_example :
    tree_lib.eval (match_bdd (new addr_interleaved) ssh no_names) (encode addr_interleaved knock)
    ≡ matches ssh no_names knock
match_bdd_exact_example =
    match_bdd_exact addr_interleaved ssh no_names knock ssh-IsWellFormed knock-InRange

accept_exact_example :
    tree_lib.eval
      (analyse (new field_major) no_names sample_key head).accept
      (encode field_major knock)
    ≡ permitted no_names head knock
accept_exact_example =
    accept_exact field_major no_names sample_key head head_rules knock knock-InRange

-- The model of the first rule of `head`.
abbrev ssh_forward : RuleModel Tree
ssh_forward = forward_model (new field_major) no_names sample_key ssh_rule tree_lib.mk_false false

-- What it leaves covered, and the model of the second rule.
abbrev ssh_cover : Tree
ssh_cover = cover (new field_major) no_names ssh_rule tree_lib.mk_false false

abbrev rest_forward : RuleModel Tree
rest_forward =
    forward_model (new field_major) no_names sample_key rest_rule ssh_cover
      (tree_lib.is_true ssh_cover)

abbrev ssh_model : RuleModel Tree
ssh_model = record ssh_forward {
  redundant = is_redundant ssh_forward (extend rest_forward tree_lib.mk_false);
}

ssh_model_found :
    get_elem? (analyse (new field_major) no_names sample_key head).rules 0 ≡ some ssh_model
unfolding analyse permits
ssh_model_found = refl

partition_exact_example :
    (tree_lib.eval ssh_model.effective (encode field_major knock)
      ≡ is_at 0 (first_match no_names head.rules knock))
    × (tree_lib.eval
          (analyse (new field_major) no_names sample_key head).fallthrough
          (encode field_major knock)
        ≡ is_none (first_match no_names head.rules knock))
partition_exact_example =
    partition_exact field_major no_names sample_key head head_rules 0 ssh_model knock
      ssh_model_found knock-InRange

shadowed_iff_example :
    (ssh_model.shadowed ≡ true)
    ↔ ((p : Values) → InRange p → is_at 0 (first_match no_names head.rules p) ≡ false)
shadowed_iff_example =
    shadowed_iff field_major no_names sample_key head head_rules 0 ssh_model ssh_model_found

redundant_iff_example : (ssh_model.redundant ≡ true) ↔ (
    (p : Values)
    → InRange p
    → verdict_or (permits head.policy) no_names (without 0 head.rules) p
      ≡ permitted no_names head p)
redundant_iff_example =
    redundant_iff field_major no_names sample_key head head_rules 0 ssh_model ssh_model_found

delta_exact_example :
    (tree_lib.eval
        (diff
          (analyse (new field_major) no_names sample_key base)
          (analyse (new field_major) no_names sample_key head)).newly_allowed
        (encode field_major knock)
      ≡ (permitted no_names head knock && not (permitted no_names base knock)))
    × (tree_lib.eval
          (diff
            (analyse (new field_major) no_names sample_key base)
            (analyse (new field_major) no_names sample_key head)).newly_blocked
          (encode field_major knock)
        ≡ (permitted no_names base knock && not (permitted no_names head knock)))
delta_exact_example =
    delta_exact field_major no_names sample_key base head base_rules head_rules knock knock-InRange

identical_iff_example :
    (is_behaviourally_identical (
        diff
          (analyse (new field_major) no_names sample_key base)
          (analyse (new field_major) no_names sample_key head))
      ≡ true)
    ↔ ((p : Values) → InRange p → permitted no_names base p ≡ permitted no_names head p)
identical_iff_example =
    identical_iff field_major no_names sample_key base head base_rules head_rules
