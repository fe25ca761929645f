-- ===== src/Nft/Chain/Accepts.antt =====
-- A chain that crates/nft/src/parse.rs accepts, and that its loop ends.
use fwdelta.Prelude.{
  ℕ, zero, suc, ◌+◌, ◌≤◌, ◌≡◌, refl, Bool, true, false, List, [], ◌∷◌, ◌++◌, arith, length, All,
  All-append,
}
use fwdelta.Prelude.Text.{Text}
use fwdelta.Prelude.Strings.{is_literal, is_one_of}
use fwdelta.Ir.Rule.{Action, Match, Origin, Rule, Chain, push}
use fwdelta.Nft.Token.{Tok, word, str, num, ip, break, eof, InBounds, is_eof}
use fwdelta.Nft.Token
use fwdelta.Nft.Error.{syntax, end_in_chain}
use fwdelta.Nft.Cursor.{bump, pure, Tokens, Parser, Place, next, bind, skip_breaks}
use fwdelta.Nft.Cursor.Post.{
  Fine, Fine-own, Fine-le, Fine-zero, Post, Any, Post-bind, Post-elim, eat_sym-bind,
}
use fwdelta.Nft.Cursor.Sound.{
  Sound, bind-Sound, if-Sound, pure-Sound, err_at-Sound, err-Sound, err-Post, at-Sound, peek-Sound,
  bump-Sound, eat_sym-Sound, eat_word-Sound, expect_sym-Sound, expect_word-Sound, skip_breaks-Sound,
}
use fwdelta.Nft.Rule.{rule}
use fwdelta.Nft.Rule.Accepts.{IsAccepted, AcceptsRule, rule-Post}
use fwdelta.Nft.Chain.{
  rules_loop, chain_type_of, hook_of, policy_of, required, optional, priority_value, chain_policy,
  chain_header, chain,
}

-- The numbers of the rules count from `n`.
abbrev pub Numbered : ℕ → List Rule → Type 0
Numbered n [] = Unit
Numbered n (r ∷ rs) = (r.number ≡ n) × Numbered (suc n) rs

Numbered-append :
    (n : ℕ) (rs : List Rule) (r : Rule)
    → Numbered n rs
    → r.number ≡ n + length rs
    → Numbered n (rs ++ r ∷ [])
Numbered-append n [] r h e = (omega (arith, e), tt)
Numbered-append n (q ∷ qs) r h e = (h.0, Numbered-append (suc n) qs r h.1 (omega (arith, e)))

pub record AcceptsChain (c : Chain) : Type 0 where
  pub numbered : Numbered 1 c.rules
  pub rules_accepted : All (λ r. IsAccepted r.matches) c.rules

push-AcceptsChain :
    (c : Chain) (m : Match) (a : Action) (o : Origin)
    → AcceptsChain c
    → IsAccepted m
    → AcceptsChain (push c m a o)
unfolding push
push-AcceptsChain c m a o h k = record {
  numbered = Numbered-append 1 c.rules _ h.numbered (omega arith);
  rules_accepted = All-append (λ r. IsAccepted r.matches) c.rules _ h.rules_accepted (k, tt);
}

empty-AcceptsChain : (c : Chain) → c.rules ≡ [] → AcceptsChain c
empty-AcceptsChain c e = record { numbered = rw (e) tt; rules_accepted = rw (e) tt }

-- No rule yet.
abbrev NoRules : Chain → Type 0
NoRules c = c.rules ≡ []

abbrev take_one : Parser (Unit {0})
take_one ts = bind (bump ts) λ _. pure tt

module _ (file src : Text) where
  -- Every round but the last takes a rule.
  rules_loop-Post :
      (fuel m n : ℕ) (c : Chain) (ts : Tokens)
      → AcceptsChain c
      → Fine m ts
      → m ≤ fuel
      → m ≤ n
      → Post n AcceptsChain (rules_loop file src fuel c ts)
  unfolding rules_loop
  rules_loop-Post fuel zero n c ts h f lf ln = absurd (Fine-zero ts f)
  rules_loop-Post zero (suc m) n c ts h f lf ln = absurd (omega arith)
  rules_loop-Post (suc fuel) (suc m) n c ts h f lf ln =
      Post-bind (suc m) n Any AcceptsChain (skip_breaks ts) _ (skip_breaks-Sound.post (suc m) ts f)
        (λ u ts1 q f1.
          eat_sym-bind m n b'}' AcceptsChain ts1 _ f1
            (λ ts2 f2. (h, Fine-le m n ts2 (omega arith) f2))
            (λ ts2 f2.
              Post-elim n AcceptsChain (is_eof (next ts2)) _ _
                (λ e. err-Post file src n AcceptsChain syntax end_in_chain ts2)
                (λ e.
                  Post-bind m n AcceptsRule AcceptsChain (rule file src c.hook ts2) _
                    (rule-Post file src m c.hook ts2 f2)
                    (λ r ts3 k f3.
                      rules_loop-Post fuel m n (push c r.0 r.1 r.2) ts3
                        (push-AcceptsChain c r.0 r.1 r.2 h k) f3 (omega arith) (omega arith)))))

  chain_type_of-Sound :
      (start : Place) (kind : Text) → Sound Any (chain_type_of file src start kind)
  unfolding chain_type_of
  chain_type_of-Sound start kind =
      if-Sound (is_literal "filter" kind) (λ e. pure-Sound tt tt)
        (λ e.
          if-Sound (is_literal "nat" kind) (λ e. err_at-Sound file src _ _ _)
            (λ e. err_at-Sound file src _ _ _))

  hook_of-Sound : (start : Place) (name : Text) → Sound Any (hook_of file src start name)
  unfolding hook_of
  hook_of-Sound start name =
      if-Sound (is_literal "input" name) (λ e. pure-Sound _ tt)
        (λ e.
          if-Sound (is_literal "output" name) (λ e. pure-Sound _ tt)
            (λ e.
              if-Sound (is_literal "forward" name) (λ e. pure-Sound _ tt)
                (λ e.
                  if-Sound (is_one_of ("prerouting" ∷ "postrouting" ∷ []) name)
                    (λ e. err_at-Sound file src _ _ _) (λ e. err_at-Sound file src _ _ _))))

  policy_of-Sound : (start : Place) (v : Text) → Sound Any (policy_of file src start v)
  unfolding policy_of
  policy_of-Sound start v =
      if-Sound (is_literal "accept" v) (λ e. pure-Sound _ tt)
        (λ e.
          if-Sound (is_literal "drop" v) (λ e. pure-Sound _ tt) (λ e. err_at-Sound file src _ _ _))

  required-Sound :
      (b : Bool) (refuse : Parser (Unit {0}))
      → Sound Any refuse
      → Sound Any (required file src b refuse)
  required-Sound true refuse h = pure-Sound tt tt
  required-Sound false refuse h = h

  optional-Sound :
      (b : Bool) (take : Parser (Unit {0})) → Sound Any take → Sound Any (optional file src b take)
  optional-Sound true take h = h
  optional-Sound false take h = pure-Sound tt tt

  taken-Sound : Sound Any take_one
  taken-Sound = bind-Sound InBounds bump-Sound (λ t i. pure-Sound tt tt)

  priority_value-Sound : (t : Tok) → Sound Any (priority_value file src t)
  unfolding priority_value
  priority_value-Sound (num n) = taken-Sound
  priority_value-Sound (word w) = taken-Sound
  priority_value-Sound (str s) = err-Sound file src _ _
  priority_value-Sound (ip v) = err-Sound file src _ _
  priority_value-Sound (Token.sym c) = err-Sound file src _ _
  priority_value-Sound break = err-Sound file src _ _
  priority_value-Sound eof = err-Sound file src _ _

  chain_policy-Sound : (b : Bool) → Sound Any (chain_policy file src b)
  unfolding chain_policy
  chain_policy-Sound true = bind-Sound Any at-Sound (λ start u.
      bind-Sound Any (expect_word-Sound file src) (λ v u.
        bind-Sound Any (policy_of-Sound start v)
          (λ policy u. bind-Sound Any skip_breaks-Sound (λ w u. pure-Sound policy tt))))
  chain_policy-Sound false = pure-Sound _ tt

  -- The declaration down to the hook, and the rest of it.
  chain_header-Sound : Sound NoRules (chain_header file src)
  unfolding chain_header
  chain_header-Sound = bind-Sound Any at-Sound λ name_place u.
      bind-Sound Any (expect_word-Sound file src) λ name u.
        bind-Sound Any (expect_sym-Sound file src b'{') λ x u.
          bind-Sound Any skip_breaks-Sound λ x u. bind-Sound Any (eat_word-Sound "type") λ typed u.
            bind-Sound Any (required-Sound typed _ (err_at-Sound file src _ _ _)) λ x u.
              bind-Sound Any at-Sound λ type_place u.
                bind-Sound Any (expect_word-Sound file src) λ kind u.
                  bind-Sound Any (chain_type_of-Sound type_place kind) λ x u.
                    bind-Sound Any (eat_word-Sound "hook") λ hooked u.
                      bind-Sound Any (required-Sound hooked _ (err-Sound file src _ _)) λ x u.
                        bind-Sound Any at-Sound λ hook_place u.
                          bind-Sound Any (expect_word-Sound file src) λ hook_name u.
                            bind-Sound Any (hook_of-Sound hook_place hook_name) λ hook u.
                              bind-Sound Any (eat_word-Sound "device") λ on_device u.
                                bind-Sound Any (optional-Sound on_device _ taken-Sound) λ x u.
                                  bind-Sound Any (eat_word-Sound "priority") λ has_priority u.
                                    bind-Sound Any
                                      (required-Sound has_priority _ (err-Sound file src _ _))
                                      λ x u. bind-Sound Any (eat_sym-Sound b'-') λ x u.
                                        bind-Sound InBounds peek-Sound λ found u.
                                          bind-Sound Any (priority_value-Sound found) λ x u.
                                            bind-Sound Any skip_breaks-Sound λ x u.
                                              bind-Sound Any (eat_word-Sound "policy")
                                                λ has_policy u.
                                                  bind-Sound Any (chain_policy-Sound has_policy)
                                                    λ policy u. pure-Sound _ refl

  pub chain-Sound : Sound AcceptsChain (chain file src)
  unfolding chain
  chain-Sound = bind-Sound NoRules chain_header-Sound (λ c e. record {
    post = λ n ts f.
        rules_loop-Post (suc (length ts)) (length ts) n c ts (empty-AcceptsChain c e)
          (Fine-own n ts f) (omega arith) (f.short);
  })
