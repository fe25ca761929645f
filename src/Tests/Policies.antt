-- ===== src/Tests/Policies.antt =====
-- The policy checks of crates/policy on the sample chain.
use fwdelta.Prelude.{◌≡◌, refl, arith, [], ◌∷◌, none, some}
use fwdelta.Ir.Intervals.{point, prefix, prefix_range}
use fwdelta.Ir.Field.{proto, src_port}
use fwdelta.Ir.Rule.Literals.{point-Fits, domain_max_8, domain_max_16}
use fwdelta.Engine.Bdd.TreeLib.{tree_lib}
use fwdelta.Engine.Header.{field_major, new}
use fwdelta.Engine.Accept.{analyse}
use fwdelta.Policy.Assertion.{isolation, Assertion, Policy, ok, refused, large_octet, parse_addr}
use fwdelta.Policy.Eval.{Report, mentioned_of, check}
use fwdelta.Policy.Eval.Meaning.{concerns}
use fwdelta.Policy.Load.Loaded.{SetsFit}
use fwdelta.Policy.Eval.Outcomes.{Established}
use fwdelta.Policy.Eval.Sound.{check_exact}
use fwdelta.Tests.Engine.{no_names, sample_key, head, head_rules}

-- ` 10.0.0.0/8`
parse_prefix_test :
    parse_addr (32 ∷ 49 ∷ 48 ∷ 46 ∷ 48 ∷ 46 ∷ 48 ∷ 46 ∷ 48 ∷ 47 ∷ 56 ∷ [])
    ≡ ok (record { bits = 32; ranges = (167772160, 184549375) ∷ [] })
unfolding parse_addr prefix prefix_range
parse_prefix_test = refl

-- `1.2.3.256`
parse_octet_test :
    parse_addr (49 ∷ 46 ∷ 50 ∷ 46 ∷ 51 ∷ 46 ∷ 50 ∷ 53 ∷ 54 ∷ []) ≡ refused (large_octet 256)
unfolding parse_addr
parse_octet_test = refl

-- 1.2.3.4 between a no-break space and an ideographic space.
parse_blank_test :
    parse_addr (194 ∷ 160 ∷ 49 ∷ 46 ∷ 50 ∷ 46 ∷ 51 ∷ 46 ∷ 52 ∷ 227 ∷ 128 ∷ 128 ∷ [])
    ≡ ok (point 32 16909060)
unfolding parse_addr
parse_blank_test = refl

-- A prefix longer than its field.
long_prefix_test : prefix 32 167772160 40 ≡ none
unfolding prefix
long_prefix_test = refl

-- No connection to port 22 is let in.
abbrev no_ssh : Assertion
no_ssh = record {
  name = [];
  kind = isolation;
  from = none;
  to = none;
  proto = some (point 8 6);
  sport = none;
  dport = some (point 16 22);
  iif = none;
  oif = none;
  chain = none;
  summary = [];
}

abbrev sample_policy : Policy
sample_policy = record { zones = []; assertions = no_ssh ∷ [] }

no_ssh-SetsFit : SetsFit no_ssh
no_ssh-SetsFit = record {
  proto_fits = point-Fits proto 6 (rw (domain_max_8) (omega arith));
  sport_fits = tt;
  dport_fits = point-Fits src_port 22 (rw (domain_max_16) (omega arith));
}

check_exact_example :
    (r : Report) × (check
        (new field_major)
        no_names
        sample_policy
        (analyse (new field_major) no_names sample_key head)
        (mentioned_of [])
        no_ssh
      ≡ ok r)
    × Established no_names head (concerns no_names sample_policy no_ssh) isolation r.outcome
check_exact_example =
    check_exact field_major no_names sample_key head head_rules sample_policy no_ssh
      (mentioned_of []) no_ssh-SetsFit (tt, tt)
