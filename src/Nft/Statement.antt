-- ===== src/Nft/Statement.antt =====
-- The statements of a rule in crates/nft/src/parse.rs.
pub mod Keeps
pub mod Kept
use fwdelta.Prelude.{
  ℕ, zero, suc, Bool, true, false, ◌||◌, List, [], ◌∷◌, Option, none, some, ◌==◌, if◌then◌else◌,
  length, String,
}
use fwdelta.Prelude.Text.{Text}
use fwdelta.Prelude.Strings.{is_literal, is_one_of}
use fwdelta.Ir.Field.{Field, src_addr, dst_addr, src_port, dst_port, proto}
use fwdelta.Ir.Intervals.{IntervalSet}
use fwdelta.Ir.Intervals
use fwdelta.Ir.Rule.{
  Action, accept, drop, reject, Match, any_match, constrain, with_iif, Hook, input, output, forward,
}
use fwdelta.Nft.Token.{Tok, Token, word, str, num, break, eof, sym}
use fwdelta.Nft.Error.{
  Cause, Message, syntax, out_of_scope, unimplemented, soundness, ip_field, meta_field, port_field,
  unsupported_ports, ifindex, not_of_the_header, jump_to, not_a_verdict, translation, not_in_subset,
  meta_oifname, iifname_on_output, oifname_unsupported, connection_tracking, expected_comment,
  second_verdict,
}
use fwdelta.Nft.Cursor.{
  Tokens, Parser, Parsed, ok, no_fuel, panicked, Place, bind, ◌>>=◌, ◌>>◌, pure, next, peek, at,
  advance, bump, eat_if, eat_word, err, err_at, expect_word, is_sym,
}
use fwdelta.Nft.Skip.{skip_counter, skip_log, reason_arm}
use fwdelta.Nft.Values.{proto_number, addr_spec, port_spec, proto_spec, if_spec}

-- What the loop of `Parser::rule` keeps: the match, the verdict, and whether ports were matched.
pub record RuleState : Type 0 where
  pub matches : Match
  pub action : Option Action
  pub ports : Bool

-- The arms of the `match` on a statement's first word.
pub data Statement : Type 0 where
  ip_stmt meta_stmt l4_stmt other_l4 iifname_stmt oifname_stmt ifindex_stmt ct_stmt limit_stmt
        counter_stmt comment_stmt log_stmt accept_stmt drop_stmt reject_stmt jump_stmt verdict_stmt
        nat_stmt unknown_stmt :
      Statement

abbrev statement_in : List (List String × Statement) → Text → Statement
statement_in [] w = unknown_stmt
statement_in ((ss, s) ∷ rest) w = if is_one_of ss w then s else statement_in rest w

abbrev statements : List (List String × Statement)
statements =
    ("ip" ∷ [], ip_stmt)
    ∷ ("meta" ∷ [], meta_stmt)
    ∷ ("tcp" ∷ "udp" ∷ [], l4_stmt)
    ∷ ("sctp" ∷ "dccp" ∷ "udplite" ∷ [], other_l4)
    ∷ ("iifname" ∷ [], iifname_stmt)
    ∷ ("oifname" ∷ [], oifname_stmt)
    ∷ ("iif" ∷ "oif" ∷ [], ifindex_stmt)
    ∷ ("ct" ∷ [], ct_stmt)
    ∷ ("limit" ∷ "quota" ∷ [], limit_stmt)
    ∷ ("counter" ∷ [], counter_stmt)
    ∷ ("comment" ∷ [], comment_stmt)
    ∷ ("log" ∷ [], log_stmt)
    ∷ ("accept" ∷ [], accept_stmt)
    ∷ ("drop" ∷ [], drop_stmt)
    ∷ ("reject" ∷ [], reject_stmt)
    ∷ ("jump" ∷ "goto" ∷ [], jump_stmt)
    ∷ ("return" ∷ "queue" ∷ "dup" ∷ "fwd" ∷ "notrack" ∷ [], verdict_stmt)
    ∷ ("snat" ∷ "dnat" ∷ "masquerade" ∷ "redirect" ∷ [], nat_stmt)
    ∷ []

unfoldable pub statement_of : Text → Statement
statement_of w = statement_in statements w

-- `m.constrain(field, &set)`, which panics on an interface.
abbrev constrained : Option Match → Parser Match
constrained none ts = panicked
constrained (some m) ts = ok m ts

unfoldable pub narrow : Match → Field → IntervalSet → Parser Match
narrow m f s = constrained (constrain m f s)

module _ (file src : Text) where
  unfoldable pub set_action : Option Action → Action → Place → Parser Action
  unfolding err_at
  set_action none new place = pure new
  set_action (some old) new place = err_at file src place syntax (second_verdict old)

  -- The fields of `ip`, `meta` and a transport protocol.
  unfoldable pub ip_match : Match → Parser Match
  unfolding expect_word addr_spec proto_spec narrow err_at
  ip_match m = do
    start ← at
    what ← expect_word file src
    if is_literal "saddr" what
        then (do s ← addr_spec file src; narrow m src_addr s)
        else if is_literal "daddr" what
        then (do s ← addr_spec file src; narrow m dst_addr s)
        else if is_literal "protocol" what
        then (do s ← proto_spec file src; narrow m proto s)
        else err_at file src start unimplemented (ip_field what)

  unfoldable pub meta_match : Match → Place → Parser Match
  unfolding expect_word proto_spec if_spec narrow err_at
  meta_match m start = do
    what ← expect_word file src
    if is_literal "l4proto" what
        then (do s ← proto_spec file src; narrow m proto s)
        else if is_literal "iifname" what
        then (do s ← if_spec file src; pure (with_iif m s))
        else if is_literal "oifname" what
        then err_at file src start unimplemented meta_oifname
        else err_at file src start unimplemented (meta_field what)

  -- `IntervalSet::point(8, number)`; the panic is that of `expect`.
  abbrev protocol_point : Option ℕ → Parser IntervalSet
  protocol_point none ts = panicked
  protocol_point (some n) ts = ok (Intervals.point 8 n) ts

  unfoldable pub match_ports : Match → Text → Field → Parser Match
  unfolding port_spec narrow proto_number
  match_ports m protocol f = do
    ports ← port_spec file src
    number ← protocol_point (proto_number protocol)
    m' ← narrow m proto number
    narrow m' f ports

  unfoldable pub l4_match : Match → Text → Parser Match
  unfolding expect_word match_ports err_at
  l4_match m protocol = do
    start ← at
    what ← expect_word file src
    if is_literal "sport" what
        then match_ports m protocol src_port
        else if is_literal "dport" what
        then match_ports m protocol dst_port
        else err_at file src start unimplemented (port_field protocol what)

  abbrev matched : RuleState → Match → RuleState
  matched st m = record st { matches = m }

  abbrev decided : RuleState → Action → RuleState
  decided st a = record st { action = some a }

  -- `iifname` is refused on an output chain, `oifname` everywhere.
  unfoldable pub iifname : Hook → RuleState → Place → Parser RuleState
  unfolding if_spec err_at
  iifname output st start = err_at file src start soundness iifname_on_output
  iifname input st start = do s ← if_spec file src; pure (matched st (with_iif st.matches s))
  iifname forward st start = do s ← if_spec file src; pure (matched st (with_iif st.matches s))

  abbrev oifname_cause : Hook → Cause
  oifname_cause input = soundness
  oifname_cause output = unimplemented
  oifname_cause forward = unimplemented

  unfoldable pub comment_arm : Tok → RuleState → Parser RuleState
  unfolding bump err
  comment_arm (str s) st = do bump; pure st
  comment_arm _ st = err file src syntax expected_comment

  -- One statement behind its first word `w`, which stood at `start`.
  unfoldable pub statement : Hook → Place → Text → Statement → RuleState → Parser RuleState
  unfolding ip_match meta_match l4_match iifname skip_counter comment_arm skip_log set_action
      eat_word reason_arm err_at
  statement hook start w ip_stmt st = do m ← ip_match st.matches; pure (matched st m)
  statement hook start w meta_stmt st = do m ← meta_match st.matches start; pure (matched st m)
  statement hook start w l4_stmt st = do
    m ← l4_match st.matches w
    pure (record (matched st m) { ports = true })
  statement hook start w other_l4 st = err_at file src start unimplemented (unsupported_ports w)
  statement hook start w iifname_stmt st = iifname hook st start
  statement hook start w oifname_stmt st =
      err_at file src start (oifname_cause hook) oifname_unsupported
  statement hook start w ifindex_stmt st = err_at file src start out_of_scope (ifindex w)
  statement hook start w ct_stmt st = err_at file src start out_of_scope connection_tracking
  statement hook start w limit_stmt st = err_at file src start out_of_scope (not_of_the_header w)
  statement hook start w counter_stmt st = do skip_counter; pure st
  statement hook start w comment_stmt st = do found ← peek; comment_arm found st
  statement hook start w log_stmt st = do skip_log; pure st
  statement hook start w accept_stmt st = do
    a ← set_action st.action accept start
    pure (decided st a)
  statement hook start w drop_stmt st = do a ← set_action st.action drop start; pure (decided st a)
  statement hook start w reject_stmt st = do
    with_reason ← eat_word "with"
    reason_arm with_reason
    a ← set_action st.action reject start
    pure (decided st a)
  statement hook start w jump_stmt st = err_at file src start out_of_scope (jump_to w)
  statement hook start w verdict_stmt st = err_at file src start out_of_scope (not_a_verdict w)
  statement hook start w nat_stmt st = err_at file src start out_of_scope (translation w)
  statement hook start w unknown_stmt st = err_at file src start unimplemented (not_in_subset w)
