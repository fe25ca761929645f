-- ===== src/Nft/Lex/Progress.antt =====
-- The main loop of crates/nft/src/lex.rs ends: each round takes a byte, so that one round for each
-- byte and one for the end are enough.
use fwdelta.Prelude.{ℕ, zero, suc, ◌<◌, List, [], ◌∷◌, ◌++◌, arith, length}
use fwdelta.Prelude.Text.{Text}
use fwdelta.Nft.Token.{Token}
use fwdelta.Nft.Scan.{Lexer, Lexed, state, err, plain, skip}
use fwdelta.Nft.Scan.Progress.{
  Within, Within-if, Within-le, Within-and_then, skip_le, bump-src, scan_token-Within,
}
use fwdelta.Nft.Lex.{token, round, lex_loop, lex, is_separator}

round-Within :
    (file : Text) (next : Lexer → List Token → Lexed (List Token)) (src : List ℕ) (line col : ℕ)
    (out : List Token)
    → ((lx : Lexer) (out : List Token)
        → length lx.src < length src
        → Within (length src) (next lx out))
    → Within (length src) (round file next src line col out)
unfolding round
round-Within file next [] line col out f = omega arith
round-Within file next (c ∷ cs) line col out f =
    Within-if (suc (length cs)) (is_separator c) _ _
      (λ e. f _ _ (rw (bump-src c cs line col) (omega arith)))
      (λ e.
        Within-and_then (length cs) (suc (length cs)) _
          (λ tok lx'. next lx' (out ++ token tok (state (c ∷ cs) line col) ∷ []))
          (scan_token-Within (err file line col) c cs line col)
          (λ tok lx le. f lx (out ++ token tok (state (c ∷ cs) line col) ∷ []) (omega arith)))

lex_loop-Within :
    (fuel : ℕ) (file : Text) (lx : Lexer) (out : List Token)
    → length lx.src < fuel
    → Within (length lx.src) (lex_loop fuel file lx out)
unfolding lex_loop
lex_loop-Within zero file lx out h = absurd (omega arith)
lex_loop-Within (suc fuel) file lx out h =
    let lx' = skip plain lx.src lx.line lx.col in
    let le = skip_le plain lx.src lx.line lx.col in
    Within-le (length lx'.src) (length lx.src) _ le (
      round-Within file (lex_loop fuel file) lx'.src lx'.line lx'.col out (λ lx'' out' lt.
        Within-le (length lx''.src) (length lx'.src) _ (omega arith)
          (lex_loop-Within fuel file lx'' out' (omega arith))))

pub lex-Within : (file : Text) (src : List ℕ) → Within (length src) (lex file src)
unfolding lex
lex-Within file src = lex_loop-Within (suc (length src)) file (state src 1 1) [] (omega arith)
