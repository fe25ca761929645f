-- ===== src/Nft/Rule/Accepts.antt =====
-- A rule that crates/nft/src/parse.rs accepts: what it matches, and that its loop ends.
use fwdelta.Prelude.{
  ℕ, zero, suc, ◌≤◌, ◌≡◌, refl, Bool, true, false, Option, none, some, [], ◌∷◌, arith, length, ◌==◌,
  ◌⊎◌, inl, inr,
}
use fwdelta.Prelude.Text.{Text}
use fwdelta.Ir.Field.{src_port, dst_port, proto, bits}
use fwdelta.Ir.Intervals.{contains, full}
use fwdelta.Ir.Interface.{IfMatch}
use fwdelta.Ir.Rule.{Action, Match, packet_dim, is_unsatisfiable, Hook}
use fwdelta.Ir.Rule.WellFormed.{IsWellFormed}
use fwdelta.Nft.Token.{Tok, word, str, num, ip, sym, break, eof, InBounds}
use fwdelta.Nft.Error.{syntax, unimplemented, named_sets, unexpected_token}
use fwdelta.Nft.Values.Ports.{IsNameSet}
use fwdelta.Nft.Cursor.{Tokens, Parsed, Parser, Place, place, next, bump, bind, err_at}
use fwdelta.Nft.Cursor.Post.{
  Fine, Fine-own, Post-weaken, Fine-le, Fine-zero, Post, Post-bind, Post-if, bump-shorter, at-bind,
}
use fwdelta.Nft.Cursor.Sound.{Sound, bind-Sound, if-Sound, pure-Sound, err_at-Sound, err-Post}
use fwdelta.Nft.Statement.{RuleState, statement, statement_of}
use fwdelta.Nft.Statement.Keeps.{Admits, any_match-Admits}
use fwdelta.Nft.Statement.Kept.{Kept, statement-Sound, statement_of-l4}
use fwdelta.Nft.Rule.{
  port_bearing, all_port_bearing, check_ports, check_soundness, rule_step, rule_loop, ParsedRule,
  finish_rule, start_state, rule,
}
use fwdelta.Nft.Rule.Transport.{all_port_bearing-contains}

-- The ports of a match are free, or its protocols have ports.
abbrev pub HasTransport : Match → Type 0
HasTransport m =
    ((m.src_port_set ≡ full (bits src_port)) × (m.dst_port_set ≡ full (bits dst_port)))
    ⊎ ((v : ℕ) → contains m.proto_set v ≡ true → port_bearing v ≡ true)

pub record IsAccepted (m : Match) : Type 0 where
  pub well_formed : IsWellFormed m
  pub satisfiable : is_unsatisfiable m ≡ false
  pub no_output : m.oif ≡ IfMatch.any
  pub input_names : IsNameSet m.iif
  pub transport : HasTransport m

abbrev pub AcceptsRule : ParsedRule → Type 0
AcceptsRule r = IsAccepted r.0

abbrev Undecided : RuleState → Type 0
Undecided st = st.action ≡ none

accepted :
    (b : Bool) (m : Match) → Admits b m → is_unsatisfiable m ≡ false → HasTransport m → IsAccepted m
accepted b m h s t = record {
  well_formed = h.well_formed;
  satisfiable = s;
  no_output = h.no_output;
  input_names = h.input_names;
  transport = t;
}

module _ (file src : Text) where
  check_ports-Sound :
      (m : Match) (start : Place) (Q : Unit {0} → Type 0)
      → (HasTransport m → Q tt)
      → Sound Q (check_ports file src start (packet_dim m proto))
  unfolding check_ports packet_dim
  check_ports-Sound m start Q k =
      if-Sound (all_port_bearing m.proto_set)
        (λ e. pure-Sound tt (k (inr (λ v h. all_port_bearing-contains m.proto_set v e h))))
        (λ e. err_at-Sound file src _ _ _)

  check_soundness-Sound :
      (b : Bool) (m : Match) (start : Place)
      → Admits b m
      → Sound (λ u. IsAccepted m) (check_soundness file src m b start)
  unfolding check_soundness
  check_soundness-Sound b m start h =
      if-Sound (is_unsatisfiable m) (λ e. err_at-Sound file src _ _ _)
        (λ e.
          if-Sound b (λ e'. check_ports-Sound m start (λ u. IsAccepted m) (λ t. accepted b m h e t))
            (λ e'. pure-Sound tt (accepted b m h e (inl (h.all_ports e')))))

  finish_rule-Sound :
      (start : Place) (st : RuleState) (a : Option Action)
      → Kept st
      → Sound AcceptsRule (finish_rule file src start st a)
  unfolding finish_rule
  finish_rule-Sound start st none h = err_at-Sound file src _ _ _
  finish_rule-Sound start st (some a) h =
      bind-Sound (λ u. IsAccepted st.matches) (check_soundness-Sound st.ports st.matches start h)
        (λ u p. pure-Sound _ p)

  -- A word starts a statement, and is taken.
  word-Post :
      (go : RuleState → Parser RuleState) (m n : ℕ) (hook : Hook) (st : RuleState) (w : Text)
      (ts : Tokens)
      → ((st' : RuleState) (ts' : Tokens) → Kept st' → Fine m ts' → Post n Kept (go st' ts'))
      → Kept st
      → Fine (suc m) ts
      → next ts ≡ word w
      → Post n Kept (rule_step file src go hook st (word w) ts)
  unfolding rule_step
  word-Post go m n hook st w ts k h f e = at-bind n Kept ts _ (
      Post-bind m n InBounds Kept (bump ts) _ (bump-shorter m ts f (rw (e) refl)) (λ t ts1 i f1.
        Post-bind m n Kept Kept (statement file src hook (place ts) w (statement_of w) st ts1) go
          ((statement-Sound file src hook (place ts) w (statement_of w) st (statement_of-l4 w)
              h).post
            m ts1 f1)
          (λ st' ts2 h' f2. k st' ts2 h' f2)))

  -- Another token ends the rule where it stands, or is an error.
  Q-sym :
      (go : RuleState → Parser RuleState) (Q : RuleState → Type 0) (n : ℕ) (hook : Hook)
      (st : RuleState) (c : ℕ) (ts : Tokens)
      → Q st
      → Fine n ts
      → Post n Q (rule_step file src go hook st (sym c) ts)
  unfolding rule_step
  Q-sym go Q n hook st c ts h f =
      Post-if n Q (c == b'}') _ _ ts (λ i. (h, f))
        (λ i.
          Post-if n Q (c == b'@') _ _ ts (λ j. err-Post file src n Q unimplemented named_sets ts)
            (λ j. err-Post file src n Q syntax (unexpected_token (sym c)) ts))

  rule_step-Post :
      (go : RuleState → Parser RuleState) (m n : ℕ) (hook : Hook) (st : RuleState) (t : Tok)
      (ts : Tokens)
      → ((st' : RuleState) (ts' : Tokens) → Kept st' → Fine m ts' → Post n Kept (go st' ts'))
      → Kept st
      → Fine (suc m) ts
      → suc m ≤ n
      → next ts ≡ t
      → Post n Kept (rule_step file src go hook st t ts)
  unfolding rule_step
  rule_step-Post go m n hook st break ts k h f l e = (h, Fine-le (suc m) n ts l f)
  rule_step-Post go m n hook st eof ts k h f l e = (h, Fine-le (suc m) n ts l f)
  rule_step-Post go m n hook st (word w) ts k h f l e = word-Post go m n hook st w ts k h f e
  rule_step-Post go m n hook st (sym c) ts k h f l e =
      Q-sym go Kept n hook st c ts h (Fine-le (suc m) n ts l f)
  rule_step-Post go m n hook st (str s) ts k h f l e =
      err-Post file src n Kept syntax (unexpected_token (str s)) ts
  rule_step-Post go m n hook st (num s) ts k h f l e =
      err-Post file src n Kept syntax (unexpected_token (num s)) ts
  rule_step-Post go m n hook st (ip s) ts k h f l e =
      err-Post file src n Kept syntax (unexpected_token (ip s)) ts

  rule_loop-Post :
      (fuel m n : ℕ) (hook : Hook) (st : RuleState) (ts : Tokens)
      → Kept st
      → Fine m ts
      → m ≤ fuel
      → m ≤ n
      → Post n Kept (rule_loop file src fuel hook st ts)
  unfolding rule_loop
  rule_loop-Post fuel zero n hook st ts h f lf ln = absurd (Fine-zero ts f)
  rule_loop-Post zero (suc m) n hook st ts h f lf ln = absurd (omega arith)
  rule_loop-Post (suc fuel) (suc m) n hook st ts h f lf ln =
      rule_step-Post (rule_loop file src fuel hook) m n hook st (next ts) ts
        (λ st' ts' h' f'. rule_loop-Post fuel m n hook st' ts' h' f' (omega arith) (omega arith)) h
        f ln refl

  -- A rule without a verdict is an error.
  Undecided-Post :
      (m n : ℕ) (start : Place) (r : Parsed RuleState)
      → Post m Undecided r
      → Post n AcceptsRule (bind r (λ st. finish_rule file src start st st.action))
  unfolding finish_rule err_at
  Undecided-Post m n start r h = Post-bind m n Undecided AcceptsRule r _ h (λ st ts e f. rw (e) tt)

  -- The first round of a rule.
  first_step-Post :
      (fuel m : ℕ) (hook : Hook) (t : Tok) (ts : Tokens)
      → Fine (suc m) ts
      → m ≤ fuel
      → next ts ≡ t
      → Post m AcceptsRule (
          bind
            (rule_step file src (rule_loop file src fuel hook) hook start_state t ts)
            (λ st. finish_rule file src (place ts) st st.action))
  unfolding rule_step
  first_step-Post fuel m hook (word w) ts f l e =
      Post-bind m m Kept AcceptsRule _ _
        (word-Post (rule_loop file src fuel hook) m m hook start_state w ts
          (λ st' ts' h' f'. rule_loop-Post fuel m m hook st' ts' h' f' l (omega arith))
          (any_match-Admits false) f e)
        (λ st ts' h f'. (finish_rule-Sound (place ts) st st.action h).post m ts' f')
  first_step-Post fuel m hook (sym c) ts f l e =
      Undecided-Post (suc m) m (place ts) _
        (Q-sym (rule_loop file src fuel hook) Undecided (suc m) hook start_state c ts refl f)
  first_step-Post fuel m hook break ts f l e = Undecided-Post (suc m) m (place ts) _ (refl, f)
  first_step-Post fuel m hook eof ts f l e = Undecided-Post (suc m) m (place ts) _ (refl, f)
  first_step-Post fuel m hook (str s) ts f l e =
      Undecided-Post (suc m) m (place ts) _
        (err-Post file src (suc m) Undecided syntax (unexpected_token (str s)) ts)
  first_step-Post fuel m hook (num s) ts f l e =
      Undecided-Post (suc m) m (place ts) _
        (err-Post file src (suc m) Undecided syntax (unexpected_token (num s)) ts)
  first_step-Post fuel m hook (ip s) ts f l e =
      Undecided-Post (suc m) m (place ts) _
        (err-Post file src (suc m) Undecided syntax (unexpected_token (ip s)) ts)

  -- A rule takes a token at least.
  pub rule-Post :
      (m : ℕ) (hook : Hook) (ts : Tokens)
      → Fine (suc m) ts
      → Post m AcceptsRule (rule file src hook ts)
  unfolding rule rule_loop
  rule-Post m hook [] f = absurd (cc (f.ended))
  rule-Post m hook (t ∷ ts) f =
      Post-weaken (length ts) m AcceptsRule AcceptsRule _ (omega (arith, f.short)) (λ a q. q)
        (first_step-Post (length (t ∷ ts)) (length ts) hook (next (t ∷ ts)) (t ∷ ts)
          (Fine-own (suc m) (t ∷ ts) f) (omega arith) refl)
