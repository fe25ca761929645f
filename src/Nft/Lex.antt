-- ===== src/Nft/Lex.antt =====
-- crates/nft/src/lex.rs: the main loop of the tokeniser. It runs on fuel.
pub mod Progress
pub mod Shape
use fwdelta.Prelude.{
  ℕ, zero, suc, Bool, true, false, ◌||◌, List, [], ◌∷◌, ◌++◌, ◌==◌, length, if◌then◌else◌,
}
use fwdelta.Prelude.Text.{Text}
use fwdelta.Nft.Token.{Tok, break, eof, Token, is_break}
use fwdelta.Nft.Scan.{
  Lexer, Lexed, done, no_fuel, and_then, state, bump, err, plain, skip, scan_token,
}

-- `matches!(out.last().map(|t| &t.tok), Some(Tok::Break) | None)`
unfoldable pub at_start : List Token → Bool
at_start [] = true
at_start (t ∷ []) = is_break t.tok
at_start (t ∷ u ∷ ts) = at_start (u ∷ ts)

abbrev pub token : Tok → Lexer → Token
token tok lx = record { tok = tok; line = lx.line; column = lx.col }

abbrev pub is_separator : ℕ → Bool
is_separator c = c == 10 || c == 59

-- One round of the main loop after the whitespace, with what the rounds after it do.
unfoldable pub round :
    Text
    → (Lexer → List Token → Lexed (List Token))
    → List ℕ
    → ℕ
    → ℕ
    → List Token
    → Lexed (List Token)
unfolding scan_token at_start
round file next [] line col out = let lx = state [] line col in done (out ++ token eof lx ∷ []) lx
round file next (c ∷ cs) line col out =
    let lx = state (c ∷ cs) line col in
    elim (is_separator c) [
      | true ↦ next (bump c cs line col) (if at_start out then out else out ++ token break lx ∷ [])
      | false ↦
          and_then (scan_token (err file line col) c cs line col)
            (λ tok lx'. next lx' (out ++ token tok lx ∷ []))
    ]

unfoldable pub lex_loop : ℕ → Text → Lexer → List Token → Lexed (List Token)
unfolding round skip
lex_loop zero file lx out = no_fuel
lex_loop (suc fuel) file lx out =
    let lx' = skip plain lx.src lx.line lx.col in
    round file (lex_loop fuel file) lx'.src lx'.line lx'.col out

-- `lex`: one round for each byte, and one for the end.
unfoldable pub lex : Text → List ℕ → Lexed (List Token)
unfolding lex_loop
lex file src = lex_loop (suc (length src)) file (state src 1 1) []
