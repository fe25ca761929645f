-- ===== src/Tests/Cells.antt =====
-- Attribution and the self-check of crates/engine on the sample chains, over decision trees.
use fwdelta.Prelude.{◌≤◌, ◌≡◌, refl, false, [], ◌∷◌, if◌then◌else◌, length}
use fwdelta.Ir.Intervals.{is_full, domain_max}
use fwdelta.Ir.Interface.{resolve}
use fwdelta.Ir.Rule.{permits}
use fwdelta.Engine.Bdd.Tree.{Tree, is_false, decided}
use fwdelta.Engine.Bdd.Tree
use fwdelta.Engine.Bdd.TreeLib.{tree_lib}
use fwdelta.Engine.Header.{field_major, new, match_bdd, var, sequence}
use fwdelta.Engine.Header.Encode.{encode}
use fwdelta.Engine.Accept.{analyse, verify, ok}
use fwdelta.Engine.Accept
use fwdelta.Engine.Accept.Cells.{decider, owners}
use fwdelta.Engine.Accept.SelfCheck.{verify-ok, attribute_exact}
use fwdelta.Engine.Diff.{attribute}
use fwdelta.Engine.Diff.Changes.{changes, attribution_exact, length-attribute}
use fwdelta.Tests.Engine.{
  no_names, sample_key, base, head, knock, base_rules, head_rules, knock-InRange,
}

verify-ok_example : verify (analyse (new field_major) no_names sample_key head) ≡ ok
verify-ok_example = verify-ok (new field_major) no_names sample_key head head_rules

-- The accept set of the head, to be attributed.
abbrev accepted : Tree
accepted = (analyse (new field_major) no_names sample_key head).accept

attribute_exact_example :
    owners
      (encode field_major knock)
      (Accept.attribute (analyse (new field_major) no_names sample_key head) accepted)
    ≡ (if tree_lib.eval accepted (encode field_major knock)
        then decider no_names head.rules knock ∷ []
        else [])
attribute_exact_example =
    attribute_exact field_major no_names sample_key head head_rules accepted knock knock-InRange

length-attribute_example :
    length
      (attribute
        (analyse (new field_major) no_names sample_key base)
        (analyse (new field_major) no_names sample_key head)
        accepted
        512).out
    ≤ 512
length-attribute_example =
    length-attribute (analyse (new field_major) no_names sample_key base)
      (analyse (new field_major) no_names sample_key head) accepted 512

not_cut :
    (attribute
      (analyse (new field_major) no_names sample_key base)
      (analyse (new field_major) no_names sample_key head)
      accepted
      512).capped
    ≡ false
unfolding attribute is_false analyse permits Tree.or match_bdd is_full domain_max Tree.and decided
    var new sequence resolve Tree.complement Accept.attribute
not_cut = refl

attribution_exact_example :
    changes
      (encode field_major knock)
      (attribute
        (analyse (new field_major) no_names sample_key base)
        (analyse (new field_major) no_names sample_key head)
        accepted
        512).out
    ≡ (if tree_lib.eval accepted (encode field_major knock)
        then (decider no_names base.rules knock, decider no_names head.rules knock) ∷ []
        else [])
attribution_exact_example =
    attribution_exact field_major no_names sample_key base head base_rules head_rules accepted 512
      knock knock-InRange not_cut
