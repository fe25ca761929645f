-- ===== src/Nft/Statement/Kept.antt =====
-- Every statement of a rule in crates/nft/src/parse.rs, behind its first word.
use fwdelta.Prelude.{
  ◌≡◌, refl, ap, subst, Bool, true, false, List, [], ◌∷◌, Option, none, some, if◌then◌else◌,
  Bool-cases, inl, inr, String,
}
use fwdelta.Prelude.Text.{Text}
use fwdelta.Prelude.Strings.{is_one_of}
use fwdelta.Ir.Rule.{Action, accept, drop, reject, Hook, input, output, forward}
use fwdelta.Nft.Token.{Tok, word, str, num, ip, sym, break, eof, InBounds}
use fwdelta.Nft.Values.Ports.{IsNameSet, if_spec-Sound}
use fwdelta.Nft.Cursor.{Place}
use fwdelta.Nft.Cursor.Post.{Any}
use fwdelta.Nft.Cursor.Sound.{
  Sound, bind-Sound, pure-Sound, peek-Sound, bump-Sound, eat_word-Sound, err_at-Sound, err-Sound,
}
use fwdelta.Nft.Skip.Sound.{skip_counter-Sound, skip_log-Sound, reason_arm-Sound}
use fwdelta.Nft.Statement.{
  RuleState, Statement, ip_stmt, meta_stmt, l4_stmt, other_l4, iifname_stmt, oifname_stmt,
  ifindex_stmt, ct_stmt, limit_stmt, counter_stmt, comment_stmt, log_stmt, accept_stmt, drop_stmt,
  reject_stmt, jump_stmt, verdict_stmt, nat_stmt, unknown_stmt, statement_in, statement_of,
  statements, set_action, iifname, comment_arm, statement,
}
use fwdelta.Nft.Statement.Keeps.{
  Admits, with_iif-Admits, is_l4_word, ip_match-Sound, meta_match-Sound, l4_match-Sound,
}

-- The match so far, and whether ports were matched.
abbrev pub Kept : RuleState → Type 0
Kept st = Admits st.ports st.matches

-- The words of `l4_match` have a protocol's number.
abbrev is_l4 : Statement → Bool
is_l4 l4_stmt = true
is_l4 _ = false

abbrev Only : List String × Statement → Type 0
Only (ss, s) = elim (is_l4 s) [ true ↦ ss ≡ "tcp" ∷ "udp" ∷ [] | false ↦ Unit ]

abbrev AllOnly : List (List String × Statement) → Type 0
AllOnly [] = Unit
AllOnly (p ∷ ps) = Only p × AllOnly ps

hit-l4 :
    (ss : List String) (s : Statement) (w : Text)
    → Only (ss, s)
    → is_one_of ss w ≡ true
    → s ≡ l4_stmt
    → is_l4_word w ≡ true
hit-l4 ss s w o h e = subst (λ x. is_one_of x w ≡ true) (subst (λ x. Only (ss, x)) e o) h

statement_in-l4 :
    (ps : List (List String × Statement)) (w : Text)
    → AllOnly ps
    → statement_in ps w ≡ l4_stmt
    → is_l4_word w ≡ true
statement_in-l4 [] w os e = absurd (cc (e))
statement_in-l4 ((ss, s) ∷ ps) w (o, os) e = elim (Bool-cases (is_one_of ss w)) [
  | inl t ↦ hit-l4 ss s w o t (cc (e, ap (λ b. if b then s else statement_in ps w) t))
  | inr t ↦ statement_in-l4 ps w os (cc (e, t))
]

pub statement_of-l4 : (w : Text) → statement_of w ≡ l4_stmt → is_l4_word w ≡ true
unfolding statement_of
statement_of-l4 w e =
    statement_in-l4 statements w
      (
        tt,
        (
          tt,
          (
            refl,
            (
              tt,
              (
                tt,
                (tt, (tt, (tt, (tt, (tt, (tt, (tt, (tt, (tt, (tt, (tt, (tt, (tt, tt))))))))))))),
              ),
            ),
          ),
        ),
      )
      e

module _ (file src : Text) where
  set_action-Sound :
      (old : Option Action) (new : Action) (start : Place)
      → Sound Any (set_action file src old new start)
  unfolding set_action
  set_action-Sound none new start = pure-Sound new tt
  set_action-Sound (some old) new start = err_at-Sound file src _ _ _

  iifname-Sound :
      (hook : Hook) (st : RuleState) (start : Place)
      → Kept st
      → Sound Kept (iifname file src hook st start)
  unfolding iifname
  iifname-Sound output st start h = err_at-Sound file src _ _ _
  iifname-Sound input st start h =
      bind-Sound IsNameSet (if_spec-Sound file src)
        (λ s p. pure-Sound _ (with_iif-Admits st.ports st.matches s h p))
  iifname-Sound forward st start h =
      bind-Sound IsNameSet (if_spec-Sound file src)
        (λ s p. pure-Sound _ (with_iif-Admits st.ports st.matches s h p))

  comment_arm-Sound : (t : Tok) (st : RuleState) → Kept st → Sound Kept (comment_arm file src t st)
  unfolding comment_arm
  comment_arm-Sound (str s) st h = bind-Sound InBounds bump-Sound (λ t i. pure-Sound st h)
  comment_arm-Sound (word s) st h = err-Sound file src _ _
  comment_arm-Sound (num s) st h = err-Sound file src _ _
  comment_arm-Sound (ip s) st h = err-Sound file src _ _
  comment_arm-Sound (sym s) st h = err-Sound file src _ _
  comment_arm-Sound break st h = err-Sound file src _ _
  comment_arm-Sound eof st h = err-Sound file src _ _

  pub statement-Sound :
      (hook : Hook) (start : Place) (w : Text) (s : Statement) (st : RuleState)
      → (s ≡ l4_stmt → is_l4_word w ≡ true)
      → Kept st
      → Sound Kept (statement file src hook start w s st)
  unfolding statement
  statement-Sound hook start w ip_stmt st l h =
      bind-Sound (Admits st.ports) (ip_match-Sound file src st.ports st.matches h)
        (λ m p. pure-Sound _ p)
  statement-Sound hook start w meta_stmt st l h =
      bind-Sound (Admits st.ports) (meta_match-Sound file src st.ports st.matches start h)
        (λ m p. pure-Sound _ p)
  statement-Sound hook start w l4_stmt st l h =
      bind-Sound (Admits true) (l4_match-Sound file src st.ports st.matches w h (l refl))
        (λ m p. pure-Sound _ p)
  statement-Sound hook start w other_l4 st l h = err_at-Sound file src _ _ _
  statement-Sound hook start w iifname_stmt st l h = iifname-Sound hook st start h
  statement-Sound hook start w oifname_stmt st l h = err_at-Sound file src _ _ _
  statement-Sound hook start w ifindex_stmt st l h = err_at-Sound file src _ _ _
  statement-Sound hook start w ct_stmt st l h = err_at-Sound file src _ _ _
  statement-Sound hook start w limit_stmt st l h = err_at-Sound file src _ _ _
  statement-Sound hook start w counter_stmt st l h =
      bind-Sound Any skip_counter-Sound (λ u v. pure-Sound st h)
  statement-Sound hook start w comment_stmt st l h =
      bind-Sound InBounds peek-Sound (λ t i. comment_arm-Sound t st h)
  statement-Sound hook start w log_stmt st l h =
      bind-Sound Any skip_log-Sound (λ u v. pure-Sound st h)
  statement-Sound hook start w accept_stmt st l h =
      bind-Sound Any (set_action-Sound st.action accept start) (λ a v. pure-Sound _ h)
  statement-Sound hook start w drop_stmt st l h =
      bind-Sound Any (set_action-Sound st.action drop start) (λ a v. pure-Sound _ h)
  statement-Sound hook start w reject_stmt st l h = bind-Sound Any (eat_word-Sound "with") (λ b i.
      bind-Sound Any (reason_arm-Sound b)
        (λ u j. bind-Sound Any (set_action-Sound st.action reject start) (λ a v. pure-Sound _ h)))
  statement-Sound hook start w jump_stmt st l h = err_at-Sound file src _ _ _
  statement-Sound hook start w verdict_stmt st l h = err_at-Sound file src _ _ _
  statement-Sound hook start w nat_stmt st l h = err_at-Sound file src _ _ _
  statement-Sound hook start w unknown_stmt st l h = err_at-Sound file src _ _ _
