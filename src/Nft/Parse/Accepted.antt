-- ===== src/Nft/Parse/Accepted.antt =====
-- The files that crates/nft/src/parse.rs accepts.
use fwdelta.Prelude.{
  ℕ, zero, suc, ◌≤◌, ◌≡◌, Bool, true, List, [], ◌∷◌, ◌++◌, arith, length, All, All-append,
}
use fwdelta.Prelude.Text.{Text}
use fwdelta.Prelude.Strings.{is_literal, is_one_of}
use fwdelta.Ir.Rule.{Chain, Ruleset}
use fwdelta.Nft.Token.{Tok, Token, word, str, num, ip, sym, break, eof, InBounds, is_eof, is_break}
use fwdelta.Nft.Error.{syntax, end_in_table}
use fwdelta.Nft.Scan.{Lexed, done}
use fwdelta.Nft.Scan
use fwdelta.Nft.Lex.{lex}
use fwdelta.Nft.Lex.Shape.{is_shaped, lex-Tokenised, Tokenised}
use fwdelta.Nft.Cursor.{
  Tokens, Parsed, ok, failed, no_fuel, panicked, Place, place, next, bump, skip_breaks,
}
use fwdelta.Nft.Cursor.Post.{
  is_ended, Fine, Fine-own, Fine-le, Fine-zero, Post, Any, Post-bind, Post-elim, eat_sym-bind,
  bump-bind, bump-shorter,
}
use fwdelta.Nft.Cursor.Sound.{
  Sound, bind-Sound, if-Sound, pure-Sound, err_at-Sound, err-Sound, err-Post, at-Sound,
  expect_sym-Sound, expect_word-Sound, skip_breaks-Sound,
}
use fwdelta.Nft.Chain.Accepts.{AcceptsChain, chain-Sound}
use fwdelta.Nft.Parse.{
  family_of, table_item, chains_loop, table, file_item, tables_loop, parse_tokens, parse_lexed,
  parse,
}

abbrev pub AcceptsChains : List Chain → Type 0
AcceptsChains cs = All AcceptsChain cs

abbrev pub AcceptsRuleset : Ruleset → Type 0
AcceptsRuleset r = AcceptsChains r.chains

-- An error, or a ruleset that is accepted; no panic, and fuel enough.
abbrev pub IsSettled : Parsed Ruleset → Type 0
IsSettled (ok r ts) = AcceptsRuleset r
IsSettled (failed e) = Unit
IsSettled no_fuel = ⊥
IsSettled panicked = ⊥

is_shaped-is_ended : (b : Bool) (ts : Tokens) → is_shaped b ts ≡ true → is_ended ts ≡ true
is_shaped-is_ended b [] h = h
is_shaped-is_ended b (t ∷ []) h = h
is_shaped-is_ended b (t ∷ u ∷ ts) h = is_shaped-is_ended (is_break t.tok) (u ∷ ts) (ground (arith))

Post-IsSettled : (n : ℕ) (r : Parsed Ruleset) → Post n AcceptsRuleset r → IsSettled r
Post-IsSettled n (ok r ts) h = h.0
Post-IsSettled n (failed e) h = tt
Post-IsSettled n no_fuel h = h
Post-IsSettled n panicked h = h

module _ (file src : Text) where
  family_of-Sound : (start : Place) (family : Text) → Sound Any (family_of file src start family)
  unfolding family_of
  family_of-Sound start family =
      if-Sound (is_literal "ip" family) (λ e. pure-Sound tt tt)
        (λ e.
          if-Sound (is_one_of ("ip6" ∷ "inet" ∷ "arp" ∷ "bridge" ∷ "netdev" ∷ []) family)
            (λ e. err_at-Sound file src _ _ _) (λ e. err_at-Sound file src _ _ _))

  -- The end of file is no item.
  table_item-eof :
      (start : Place) (ts : Tokens) → Post 0 (λ c. ⊥) (table_item file src start eof ts)
  unfolding table_item
  table_item-eof start ts = err-Post file src {A = Chain} 0 (λ c. ⊥) syntax end_in_table ts

  table_item-Sound : (start : Place) (t : Tok) → Sound AcceptsChain (table_item file src start t)
  unfolding table_item
  table_item-Sound start (word w) =
      if-Sound (is_literal "chain" w) (λ e. chain-Sound file src)
        (λ e.
          if-Sound (is_one_of ("set" ∷ "map" ∷ "element" ∷ "counter" ∷ "quota" ∷ []) w)
            (λ e. err_at-Sound file src _ _ _) (λ e. err_at-Sound file src _ _ _))
  table_item-Sound start eof = err-Sound file src _ _
  table_item-Sound start (str s) = err_at-Sound file src _ _ _
  table_item-Sound start (num s) = err_at-Sound file src _ _ _
  table_item-Sound start (ip s) = err_at-Sound file src _ _ _
  table_item-Sound start (sym s) = err_at-Sound file src _ _ _
  table_item-Sound start break = err_at-Sound file src _ _ _

  chains_loop-Post :
      (fuel m n : ℕ) (cs : List Chain) (ts : Tokens)
      → AcceptsChains cs
      → Fine m ts
      → m ≤ fuel
      → m ≤ n
      → Post n AcceptsChains (chains_loop file src fuel cs ts)
  unfolding chains_loop
  chains_loop-Post fuel zero n cs ts h f lf ln = absurd (Fine-zero ts f)
  chains_loop-Post zero (suc m) n cs ts h f lf ln = absurd (omega arith)
  chains_loop-Post (suc fuel) (suc m) n cs ts h f lf ln =
      Post-bind (suc m) n Any AcceptsChains (skip_breaks ts) _ (skip_breaks-Sound.post (suc m) ts f)
        (λ u ts1 q f1.
          eat_sym-bind m n b'}' AcceptsChains ts1 _ f1
            (λ ts2 f2. (h, Fine-le m n ts2 (omega arith) f2))
            (λ ts2 f2.
              bump-bind m n AcceptsChains ts2 _ f2
                (λ ts3.
                  Post-bind 0 n (λ c. ⊥) AcceptsChains (table_item file src (place ts2) eof ts3) _
                    (table_item-eof (place ts2) ts3) (λ c ts4 b g. elim b [ ]))
                (λ t ts3 f3.
                  Post-bind m n AcceptsChain AcceptsChains (table_item file src (place ts2) t ts3) _
                    ((table_item-Sound (place ts2) t).post m ts3 f3)
                    (λ c ts4 k f4.
                      chains_loop-Post fuel m n (cs ++ c ∷ []) ts4
                        (All-append AcceptsChain cs _ h (k, tt)) f4 (omega arith) (omega arith)))))

  table-Sound : Sound AcceptsChains (table file src)
  unfolding table
  table-Sound = bind-Sound Any at-Sound λ start u.
      bind-Sound Any (expect_word-Sound file src) λ family u.
        bind-Sound Any (family_of-Sound start family) λ x u.
          bind-Sound Any (expect_word-Sound file src) λ name u.
            bind-Sound Any (expect_sym-Sound file src b'{') λ x u. record {
              post = λ n ts f.
                  chains_loop-Post (suc (length ts)) (length ts) n [] ts tt (Fine-own n ts f)
                    (omega arith) (f.short);
            }

  file_item-Sound : (start : Place) (t : Tok) → Sound AcceptsChains (file_item file src start t)
  unfolding file_item
  file_item-Sound start (word w) =
      if-Sound (is_literal "table" w) (λ e. table-Sound)
        (λ e.
          if-Sound (is_one_of ("include" ∷ "define" ∷ "set" ∷ "map" ∷ "element" ∷ []) w)
            (λ e. err_at-Sound file src _ _ _) (λ e. err_at-Sound file src _ _ _))
  file_item-Sound start (str s) = err_at-Sound file src _ _ _
  file_item-Sound start (num s) = err_at-Sound file src _ _ _
  file_item-Sound start (ip s) = err_at-Sound file src _ _ _
  file_item-Sound start (sym s) = err_at-Sound file src _ _ _
  file_item-Sound start break = err_at-Sound file src _ _ _
  file_item-Sound start eof = err_at-Sound file src _ _ _

  tables_loop-Post :
      (fuel m n : ℕ) (cs : List Chain) (ts : Tokens)
      → AcceptsChains cs
      → Fine m ts
      → m ≤ fuel
      → m ≤ n
      → Post n AcceptsChains (tables_loop file src fuel cs ts)
  unfolding tables_loop
  tables_loop-Post fuel zero n cs ts h f lf ln = absurd (Fine-zero ts f)
  tables_loop-Post zero (suc m) n cs ts h f lf ln = absurd (omega arith)
  tables_loop-Post (suc fuel) (suc m) n cs ts h f lf ln =
      Post-elim n AcceptsChains (is_eof (next ts)) _ _ (λ e. (h, Fine-le (suc m) n ts ln f))
        (λ e.
          Post-bind m n InBounds AcceptsChains (bump ts) _ (bump-shorter m ts f e) (λ t ts1 i f1.
            Post-bind m n AcceptsChains AcceptsChains (file_item file src (place ts) t ts1) _
              ((file_item-Sound (place ts) t).post m ts1 f1)
              (λ more ts2 k f2.
                Post-bind m n Any AcceptsChains (skip_breaks ts2) _
                  (skip_breaks-Sound.post m ts2 f2)
                  (λ u ts3 q f3.
                    tables_loop-Post fuel m n (cs ++ more) ts3 (All-append AcceptsChain cs more h k)
                      f3 (omega arith) (omega arith)))))

  loop-Sound : Sound AcceptsChains (λ ts. tables_loop file src (suc (length ts)) [] ts)
  loop-Sound = record {
    post = λ n ts f.
        tables_loop-Post (suc (length ts)) (length ts) n [] ts tt (Fine-own n ts f) (omega arith)
          (f.short);
  }

  parse_tokens-Sound : Sound AcceptsRuleset (parse_tokens file src)
  unfolding parse_tokens
  parse_tokens-Sound =
      bind-Sound Any skip_breaks-Sound
        (λ u v. bind-Sound AcceptsChains loop-Sound (λ cs h. pure-Sound _ h))

  parse_lexed-IsSettled :
      (r : Lexed (List Token)) → Tokenised r → IsSettled (parse_lexed file src r)
  unfolding parse_lexed
  parse_lexed-IsSettled (done ts lx) h = Post-IsSettled (length ts) _ (
      parse_tokens-Sound.post (length ts) ts
        (record { short = omega arith; ended = is_shaped-is_ended true ts h.0; bounded = h.1 }))
  parse_lexed-IsSettled (Scan.failed e) h = tt
  parse_lexed-IsSettled Scan.no_fuel h = h

-- On every text the parser ends, within the fuel of its loops, and none of its calls panics. It
-- returns an error, or a ruleset in which the rules of each chain are numbered from 1 in order, and
-- every rule has canonical sets of the widths of their fields, none of them empty, names no output
-- interface, has a sorted set of input interfaces, and leaves both ports free unless its protocols
-- are all among the ones with ports.
pub parse-IsSettled : (file src : Text) → IsSettled (parse file src)
unfolding parse
parse-IsSettled file src = parse_lexed-IsSettled file src (lex file src) (lex-Tokenised file src)
