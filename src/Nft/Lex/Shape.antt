-- ===== src/Nft/Lex/Shape.antt =====
-- The shape of what the tokeniser of crates/nft/src/lex.rs returns: statements separated by single
-- breaks, and one end of file, at the end.
use fwdelta.Prelude.{
  ℕ, zero, suc, ◌≡◌, refl, ◌∙◌, sym, Bool, true, false, ◌&&◌, not, List, [], ◌∷◌, ◌++◌, arith,
  length, if◌then◌else◌, Bool-cases, inl, inr, All, All-append,
}
use fwdelta.Prelude.Text.{Text}
use fwdelta.Nft.Token.{Tok, eof, break, Token, is_break, is_eof, InBounds}
use fwdelta.Nft.Scan.{
  Lexer, Lexed, done, failed, no_fuel, and_then, state, bump, err, plain, skip, scan_token,
}
use fwdelta.Nft.Scan.Progress.{Within}
use fwdelta.Nft.Scan.Ordinary.{Ordinary, both_cases, scan_token-Ordinary}
use fwdelta.Nft.Lex.{at_start, token, is_separator, round, lex_loop, lex}
use fwdelta.Nft.Lex.Progress.{lex-Within}

-- After `start` or a break comes a token that is no break; the end of file comes last.
abbrev pub is_shaped : Bool → List Token → Bool
is_shaped start [] = false
is_shaped start (t ∷ []) = is_eof t.tok
is_shaped start (t ∷ u ∷ ts) =
    (not (is_eof t.tok) && not (start && is_break t.tok)) && is_shaped (is_break t.tok) (u ∷ ts)

-- The same of the tokens read so far.
abbrev opens : Bool → List Token → Bool
opens start [] = true
opens start (t ∷ ts) =
    (not (is_eof t.tok) && not (start && is_break t.tok)) && opens (is_break t.tok) ts

-- The last token is a break, or there is none and the state was `start`.
abbrev ends : Bool → List Token → Bool
ends start [] = start
ends start (t ∷ ts) = ends (is_break t.tok) ts

at_start-ends : (t : Token) (ts : List Token) → at_start (t ∷ ts) ≡ ends (is_break t.tok) ts
unfolding at_start
at_start-ends t [] = refl
at_start-ends t (u ∷ ts) = at_start-ends u ts

at_start_lem : (out : List Token) → at_start out ≡ ends true out
at_start_lem [] = unfold at_start in refl
at_start_lem (t ∷ ts) = at_start-ends t ts

opens-append :
    (start : Bool) (out : List Token) (t : Token)
    → opens start out ≡ true
    → is_eof t.tok ≡ false
    → (ends start out && is_break t.tok) ≡ false
    → opens start (out ++ t ∷ []) ≡ true
opens-append start [] t h e b = ground arith
opens-append start (u ∷ us) t h e b = ground (arith, opens-append (is_break u.tok) us t)

is_shaped-append :
    (start : Bool) (out : List Token) (t : Token)
    → opens start out ≡ true
    → is_eof t.tok ≡ true
    → is_shaped start (out ++ t ∷ []) ≡ true
is_shaped-append start [] t h e = e
is_shaped-append start (u ∷ []) t h e = ground arith
is_shaped-append start (u ∷ w ∷ us) t h e =
    ground (arith, is_shaped-append (is_break u.tok) (w ∷ us) t)

-- Tokens, if any, are shaped, and their addresses are in bounds.
abbrev pub AllInBounds : List Token → Type 0
AllInBounds ts = All (λ t. InBounds t.tok) ts

abbrev Shaped : Lexed (List Token) → Type 0
Shaped (done toks lx) = (is_shaped true toks ≡ true) × AllInBounds toks
Shaped _ = Unit

scanned :
    (r : Lexed Tok) (f : Tok → Lexer → Lexed (List Token))
    → Ordinary r
    → ((tok : Tok) (lx : Lexer)
        → is_break tok ≡ false
        → is_eof tok ≡ false
        → InBounds tok
        → Shaped (f tok lx))
    → Shaped (and_then r f)
scanned (done tok lx) f o h = h tok lx o.0 o.1 o.2
scanned (failed e) f o h = tt
scanned no_fuel f o h = tt

-- A break is kept only where one may stand.
opens-break :
    (out : List Token) (t : Token)
    → opens true out ≡ true
    → t.tok ≡ break
    → opens true (if at_start out then out else out ++ t ∷ []) ≡ true
opens-break out t h e = elim (Bool-cases (at_start out)) [
  | inl s ↦ rw (s) h
  | inr s ↦ rw (s) (opens-append true out t h (rw (e) refl) (rw (sym (at_start_lem out) ∙ s) refl))
]

break-InBounds :
    (start : Bool) (out : List Token) (t : Token)
    → AllInBounds out
    → InBounds t.tok
    → AllInBounds (if start then out else out ++ t ∷ [])
break-InBounds true out t a i = a
break-InBounds false out t a i = All-append (λ t. InBounds t.tok) out (t ∷ []) a (i, tt)

round-Shaped :
    (file : Text) (next : Lexer → List Token → Lexed (List Token)) (src : List ℕ) (line col : ℕ)
    (out : List Token)
    → ((lx : Lexer) (out : List Token)
        → opens true out ≡ true
        → AllInBounds out
        → Shaped (next lx out))
    → opens true out ≡ true
    → AllInBounds out
    → Shaped (round file next src line col out)
unfolding round
round-Shaped file next [] line col out f h a = (
  is_shaped-append true out (token eof (state [] line col)) h refl,
  All-append (λ t. InBounds t.tok) out _ a (tt, tt),
)
round-Shaped file next (c ∷ cs) line col out f h a =
    let lx = state (c ∷ cs) line col in
    both_cases Shaped (is_separator c) _ _
      (f (bump c cs line col) _ (opens-break out (token break lx) h refl)
        (break-InBounds (at_start out) out (token break lx) a tt))
      (scanned (scan_token (err file line col) c cs line col)
        (λ tok lx'. next lx' (out ++ token tok lx ∷ []))
        (scan_token-Ordinary (err file line col) c cs line col)
        (λ tok lx' b e i.
          f lx' (out ++ token tok lx ∷ [])
            (opens-append true out (token tok lx) h e (ground (arith, b)))
            (All-append (λ t. InBounds t.tok) out _ a (i, tt))))

lex_loop-Shaped :
    (fuel : ℕ) (file : Text) (lx : Lexer) (out : List Token)
    → opens true out ≡ true
    → AllInBounds out
    → Shaped (lex_loop fuel file lx out)
unfolding lex_loop
lex_loop-Shaped zero file lx out h a = tt
lex_loop-Shaped (suc fuel) file lx out h a =
    let lx' = skip plain lx.src lx.line lx.col in
    round-Shaped file (lex_loop fuel file) lx'.src lx'.line lx'.col out
      (λ lx'' out' k b. lex_loop-Shaped fuel file lx'' out' k b) h a

-- What the tokeniser returns.
abbrev pub Tokenised : Lexed (List Token) → Type 0
Tokenised (done toks lx) = (is_shaped true toks ≡ true) × AllInBounds toks
Tokenised (failed e) = Unit
Tokenised no_fuel = ⊥

both_hold : (n : ℕ) (r : Lexed (List Token)) → Within n r → Shaped r → Tokenised r
both_hold n (done toks lx) w s = s
both_hold n (failed e) w s = tt
both_hold n no_fuel w s = w

-- On every text the tokeniser ends, within one round for each byte and one more: with an error, or
-- with tokens of which exactly the last is the end of file, none of the first and no two in a row
-- being breaks, and with every address below 2^32.
pub lex-Tokenised : (file : Text) (src : List ℕ) → Tokenised (lex file src)
lex-Tokenised file src =
    both_hold (length src) (lex file src) (lex-Within file src)
      (unfold lex in lex_loop-Shaped (suc (length src)) file (state src 1 1) [] refl tt)
