-- ===== src/Ir/Rule.antt =====
-- crates/ir/src/rule.rs: match predicates, rules, chains and rulesets. A panic is `none`.
pub mod WellFormed
pub mod Literals
use fwdelta.Prelude.{
  ℕ, ◌+◌, Bool, true, false, List, [], ◌∷◌, ◌++◌, Option, none, some, if◌then◌else◌, length, any,
  not, ◌%◌, ◌^◌,
}
use fwdelta.Prelude.Text.{Text, text_eq}
use fwdelta.Ir.Field.{
  Field, src_addr, dst_addr, src_port, dst_port, proto, if_in, if_out, all_fields, bits,
  is_interface,
}
use fwdelta.Ir.Intervals
use fwdelta.Ir.Intervals.{IntervalSet}
use fwdelta.Ir.Interface.{IfMatch, names, from_names, TableResult}
use fwdelta.Ir.Interface

pub data Action : Type 0 where
  accept drop reject : Action

unfoldable pub permits : Action → Bool
permits accept = true
permits drop = false
permits reject = false

pub record Origin : Type 0 where
  pub file : Text
  pub line : ℕ
  pub column : ℕ
  pub text : Text

pub record Match : Type 0 where
  pub src_addr_set : IntervalSet
  pub dst_addr_set : IntervalSet
  pub src_port_set : IntervalSet
  pub dst_port_set : IntervalSet
  pub proto_set : IntervalSet
  pub iif : IfMatch
  pub oif : IfMatch

abbrev pub any_match : Match
any_match = record {
  src_addr_set = Intervals.full (bits src_addr);
  dst_addr_set = Intervals.full (bits dst_addr);
  src_port_set = Intervals.full (bits src_port);
  dst_port_set = Intervals.full (bits dst_port);
  proto_set = Intervals.full (bits proto);
  iif = IfMatch.any;
  oif = IfMatch.any;
}

-- `Match::packet_dim`, which panics on the interface dimensions.
unfoldable pub packet_dim : Match → Field → Option IntervalSet
packet_dim m src_addr = some m.src_addr_set
packet_dim m dst_addr = some m.dst_addr_set
packet_dim m src_port = some m.src_port_set
packet_dim m dst_port = some m.dst_port_set
packet_dim m proto = some m.proto_set
packet_dim m if_in = none
packet_dim m if_out = none

-- `Match::constrain`, which panics there too.
unfoldable pub constrain : Match → Field → IntervalSet → Option Match
constrain m src_addr s = some (record m { src_addr_set = Intervals.intersect m.src_addr_set s })
constrain m dst_addr s = some (record m { dst_addr_set = Intervals.intersect m.dst_addr_set s })
constrain m src_port s = some (record m { src_port_set = Intervals.intersect m.src_port_set s })
constrain m dst_port s = some (record m { dst_port_set = Intervals.intersect m.dst_port_set s })
constrain m proto s = some (record m { proto_set = Intervals.intersect m.proto_set s })
constrain m if_in s = none
constrain m if_out s = none

unfoldable pub relax : Match → Field → Match
relax m src_addr = record m { src_addr_set = Intervals.full (bits src_addr) }
relax m dst_addr = record m { dst_addr_set = Intervals.full (bits dst_addr) }
relax m src_port = record m { src_port_set = Intervals.full (bits src_port) }
relax m dst_port = record m { dst_port_set = Intervals.full (bits dst_port) }
relax m proto = record m { proto_set = Intervals.full (bits proto) }
relax m if_in = record m { iif = IfMatch.any }
relax m if_out = record m { oif = IfMatch.any }

unfoldable pub with_prefix : Match → Field → ℕ → ℕ → Option Match
unfolding constrain Intervals.prefix
with_prefix m f value len = elim (Intervals.prefix (bits f) value len) [
  | none ↦ none
  | some s ↦ constrain m f s
]

unfoldable pub with_value : Match → Field → ℕ → Option Match
with_value m f value = constrain m f (Intervals.point (bits f) value)

unfoldable pub with_range : Match → Field → ℕ → ℕ → Option Match
with_range m f lo hi = constrain m f (Intervals.range (bits f) lo hi)

abbrev pub with_iif : Match → IfMatch → Match
with_iif m s = record m { iif = s }

abbrev pub with_oif : Match → IfMatch → Match
with_oif m s = record m { oif = s }

-- The test of `is_unsatisfiable` on one dimension; the interface ones are filtered out.
unfoldable pub dim_is_empty : Match → Field → Bool
dim_is_empty m f = elim (packet_dim m f) [ none ↦ false | some s ↦ Intervals.is_empty s ]

unfoldable pub is_unsatisfiable : Match → Bool
is_unsatisfiable m = any (λ f. if is_interface f then false else dim_is_empty m f) all_fields

unfoldable pub match_names : Match → List Text
match_names m = names m.iif ++ names m.oif

pub record Rule : Type 0 where
  pub number : ℕ
  pub matches : Match
  pub action : Action
  pub origin : Origin

pub data Hook : Type 0 where
  input output forward : Hook

pub record Chain : Type 0 where
  pub name : Text
  pub hook : Hook
  pub policy : Action
  pub rules : List Rule

abbrev pub new_chain : Text → Hook → Action → Chain
new_chain name hook policy = record { name = name; hook = hook; policy = policy; rules = [] }

-- `self.rules.len() as u32 + 1`; a chain of 2^32 rules is out of reach.
unfoldable pub push : Chain → Match → Action → Origin → Chain
push c m a o = record c {
  rules =
      c.rules ++ record { number = length c.rules + 1; matches = m; action = a; origin = o } ∷ [];
}

pub record Ruleset : Type 0 where
  pub label : Text
  pub chains : List Chain

unfoldable pub find_chain : Text → List Chain → Option Chain
find_chain name [] = none
find_chain name (c ∷ cs) = if text_eq c.name name then some c else find_chain name cs

unfoldable pub chain : Ruleset → Text → Option Chain
unfolding find_chain
chain rs name = find_chain name rs.chains

unfoldable pub rule_total : List Chain → ℕ
rule_total [] = 0
rule_total (c ∷ cs) = length c.rules + rule_total cs

unfoldable pub rule_count : Ruleset → ℕ
unfolding rule_total
rule_count rs = rule_total rs.chains

unfoldable pub rules_names : List Rule → List Text
rules_names [] = []
rules_names (r ∷ rs) = match_names r.matches ++ rules_names rs

unfoldable pub chains_names : List Chain → List Text
chains_names [] = []
chains_names (c ∷ cs) = rules_names c.rules ++ chains_names cs

unfoldable pub interface_names : Ruleset → List Text
unfolding chains_names rules_names match_names
interface_names rs = chains_names rs.chains

-- crates/ir/src/lib.rs: one table for both revisions.
unfoldable pub shared_symbols : Ruleset → Ruleset → TableResult
unfolding interface_names
shared_symbols base head = from_names (interface_names base ++ interface_names head)
