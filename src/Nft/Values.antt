-- ===== src/Nft/Values.antt =====
-- The value forms of crates/nft/src/parse.rs: addresses, ports, protocols and interface names, each
-- alone or as a set in braces, and each with an optional negation.
pub mod Fits
pub mod Ports
use fwdelta.Prelude.{
  ℕ, zero, suc, Bool, true, false, List, [], ◌∷◌, Option, none, some, ltb, ◌==◌, if◌then◌else◌,
  length, any, String,
}
use fwdelta.Prelude.Text.{Text}
use fwdelta.Prelude.NameSet
use fwdelta.Prelude.Strings.{is_literal, is_one_of}
use fwdelta.Ir.Intervals.{IntervalSet}
use fwdelta.Ir.Intervals
use fwdelta.Ir.Interface.{IfMatch}
use fwdelta.Nft.Token.{Tok, word, str, num, ip}
use fwdelta.Nft.Error.{
  syntax, out_of_scope, soundness, expected_address, backwards, long_prefix, large_port,
  large_protocol, service_name, unknown_protocol, wildcard, expected_protocol, expected_interface,
}
use fwdelta.Nft.Cursor.{
  Parser, Parsed, ok, no_fuel, Place, bind, ◌>>=◌, ◌>>◌, pure, peek, at, bump, eat_sym, skip_breaks,
  err_at, expect_sym, expect_num, reject_named_set, negation, is_sym,
}

-- The arms of `proto_number`, the first that has the name.
abbrev number_in : List (String × ℕ) → Text → Option ℕ
number_in [] w = none
number_in ((s, n) ∷ ns) w = if is_literal s w then some n else number_in ns w

abbrev protocols : List (String × ℕ)
protocols =
    ("icmp", 1)
    ∷ ("igmp", 2)
    ∷ ("tcp", 6)
    ∷ ("udp", 17)
    ∷ ("gre", 47)
    ∷ ("esp", 50)
    ∷ ("ah", 51)
    ∷ ("icmpv6", 58)
    ∷ ("ipv6-icmp", 58)
    ∷ ("ospf", 89)
    ∷ ("vrrp", 112)
    ∷ ("sctp", 132)
    ∷ ("udplite", 136)
    ∷ []

unfoldable pub proto_number : Text → Option ℕ
proto_number name = number_in protocols name

abbrev pub negate_if : Bool → IntervalSet → IntervalSet
negate_if negated s = if negated then Intervals.complement s else s

module _ (file src : Text) where
  -- The loop over the members of a set in braces: each is added to what there is.
  unfoldable pub members {ℓ κ} :
      {A : Type ℓ} {B : Type κ} → ℕ → Parser A → (B → A → B) → B → Parser B
  unfolding skip_breaks eat_sym expect_sym
  members zero atom add acc ts = no_fuel
  members (suc fuel) atom add acc ts = bind (skip_breaks ts) λ _ ts1. bind (atom ts1) λ a ts2.
      bind (skip_breaks ts2) λ _ ts3. bind (eat_sym b',' ts3) λ more ts4. elim more [
        | true ↦ members fuel atom add (add acc a) ts4
        | false ↦ bind (expect_sym file src b'}' ts4) λ _. pure (add acc a)
      ]

  -- A value, or a set of values in braces. The loop has a round for each token and one more.
  unfoldable pub value_or_set {ℓ κ} :
      {A : Type ℓ} {B : Type κ} → Parser A → (B → A → B) → B → (A → B) → Parser B
  unfolding members
  value_or_set atom add start one ts = bind (eat_sym b'{' ts) λ braced ts'. elim braced [
    | true ↦ members (suc (length ts')) atom add start ts'
    | false ↦ bind (atom ts') λ a. pure (one a)
  ]

  -- The token of an address.
  unfoldable pub ip_of : Place → Tok → Parser ℕ
  unfolding err_at
  ip_of place (ip v) = pure v
  ip_of place _ = err_at file src place syntax expected_address

  -- A prefix, or the panic of its assertion.
  unfoldable pub prefixed : Option IntervalSet → Parser IntervalSet
  prefixed none ts = Parsed.panicked
  prefixed (some s) ts = ok s ts

  unfoldable pub addr_prefix : Place → ℕ → Parser IntervalSet
  unfolding expect_num err_at prefixed Intervals.prefix
  addr_prefix place base = do
    len ← expect_num file src
    if ltb 32 len
        then err_at file src place syntax (long_prefix len)
        else prefixed (Intervals.prefix 32 base len)

  unfoldable pub addr_range : Place → ℕ → Parser IntervalSet
  unfolding bump ip_of err_at
  addr_range place base = do
    end_place ← at
    found ← bump
    hi ← ip_of end_place found
    if ltb hi base
        then err_at file src place syntax backwards
        else pure (Intervals.range 32 base hi)

  -- What may follow an address: `/`, or else `-`.
  unfoldable pub addr_range_arm : Place → ℕ → Bool → Parser IntervalSet
  unfolding addr_range
  addr_range_arm place base true = addr_range place base
  addr_range_arm place base false = pure (Intervals.point 32 base)

  unfoldable pub addr_prefix_arm : Place → ℕ → Bool → Parser IntervalSet
  unfolding addr_prefix addr_range_arm eat_sym
  addr_prefix_arm place base true = addr_prefix place base
  addr_prefix_arm place base false = do is_range ← eat_sym b'-'; addr_range_arm place base is_range

  unfoldable pub addr_atom : Parser IntervalSet
  unfolding bump ip_of eat_sym addr_prefix_arm
  addr_atom = do
    start ← at
    found ← bump
    base ← ip_of start found
    is_prefix ← eat_sym b'/'
    addr_prefix_arm start base is_prefix

  unfoldable pub addr_value : Parser IntervalSet
  unfolding value_or_set addr_atom
  addr_value = value_or_set addr_atom Intervals.union (Intervals.empty 32) (λ s. s)

  unfoldable pub addr_spec : Parser IntervalSet
  unfolding negation reject_named_set addr_value
  addr_spec = do
    negated ← negation
    reject_named_set file src
    s ← addr_value
    pure (negate_if negated s)

  -- A service name is refused before it is taken.
  unfoldable pub reject_service : Place → Tok → Parser (Unit {0})
  unfolding err_at
  reject_service place (word name) = err_at file src place out_of_scope (service_name name)
  reject_service place _ = pure tt

  unfoldable pub port_number : Place → Parser ℕ
  unfolding expect_num err_at
  port_number place = do
    n ← expect_num file src
    if ltb 65535 n then err_at file src place syntax (large_port n) else pure n

  unfoldable pub port_arm : Place → ℕ → Bool → Parser IntervalSet
  unfolding port_number err_at
  port_arm start lo true = do
    end_place ← at
    hi ← port_number end_place
    if ltb hi lo then err_at file src start syntax backwards else pure (Intervals.range 16 lo hi)
  port_arm start lo false = pure (Intervals.point 16 lo)

  unfoldable pub port_atom : Parser IntervalSet
  unfolding reject_service port_number eat_sym port_arm
  port_atom = do
    start ← at
    found ← peek
    reject_service start found
    lo ← port_number start
    is_range ← eat_sym b'-'
    port_arm start lo is_range

  unfoldable pub port_value : Parser IntervalSet
  unfolding value_or_set port_atom
  port_value = value_or_set port_atom Intervals.union (Intervals.empty 16) (λ s. s)

  unfoldable pub port_spec : Parser IntervalSet
  unfolding negation reject_named_set port_value
  port_spec = do
    negated ← negation
    reject_named_set file src
    s ← port_value
    pure (negate_if negated s)

  -- The name of a protocol, looked up.
  unfoldable pub proto_named : Place → Text → Option ℕ → Parser IntervalSet
  unfolding err_at
  proto_named place w (some n) = pure (Intervals.point 8 n)
  proto_named place w none = err_at file src place syntax (unknown_protocol w)

  unfoldable pub proto_of : Place → Tok → Parser IntervalSet
  unfolding err_at proto_named proto_number
  proto_of place (num n) =
      if ltb 255 n
      then err_at file src place syntax (large_protocol n)
      else pure (Intervals.point 8 n)
  proto_of place (word w) = proto_named place w (proto_number w)
  proto_of place found = err_at file src place syntax (expected_protocol found)

  unfoldable pub proto_atom : Parser IntervalSet
  unfolding bump proto_of
  proto_atom = do start ← at; found ← bump; proto_of start found

  unfoldable pub proto_spec : Parser IntervalSet
  unfolding negation reject_named_set value_or_set proto_atom
  proto_spec = do
    negated ← negation
    reject_named_set file src
    s ← value_or_set proto_atom Intervals.union (Intervals.empty 8) (λ s. s)
    pure (negate_if negated s)

  unfoldable pub name_of : Place → Tok → Parser Text
  unfolding err_at
  name_of place (str s) = pure s
  name_of place (word w) = pure w
  name_of place found = err_at file src place syntax (expected_interface found)

  -- A wildcard, in the name or as the symbol behind it.
  unfoldable pub if_name : Parser Text
  unfolding bump name_of err_at
  if_name = do
    start ← at
    found ← bump
    name ← name_of start found
    after ← peek
    if any (λ c. c == b'*') name
        then err_at file src start soundness (wildcard name)
        else if is_sym b'*' after
        then err_at file src start soundness (wildcard name)
        else pure name

  abbrev pub if_match : Bool → List Text → IfMatch
  if_match negated ns = if negated then IfMatch.none_of ns else IfMatch.one_of ns

  unfoldable pub if_spec : Parser IfMatch
  unfolding negation reject_named_set value_or_set if_name NameSet.insert
  if_spec = do
    negated ← negation
    reject_named_set file src
    ns ← value_or_set if_name (λ ns n. NameSet.insert n ns) [] (λ n. NameSet.insert n [])
    pure (if_match negated ns)
