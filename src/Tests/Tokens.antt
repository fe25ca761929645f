-- ===== src/Tests/Tokens.antt =====
-- The tokeniser of crates/nft on small texts.
use fwdelta.Prelude.{◌≡◌, refl, [], ◌∷◌}
use fwdelta.Nft.Token.{word, ip, break, eof}
use fwdelta.Nft.Scan.{done, state}
use fwdelta.Nft.Lex.{token, lex}
use fwdelta.Nft.Lex.Shape.{Tokenised, lex-Tokenised}

-- `1.2.3.4 a-b;;` and a newline.
quad_then_word :
    lex [] (49 ∷ 46 ∷ 50 ∷ 46 ∷ 51 ∷ 46 ∷ 52 ∷ 32 ∷ 97 ∷ 45 ∷ 98 ∷ 59 ∷ 59 ∷ 10 ∷ [])
    ≡ done
        (token (ip 16909060) (state [] 1 1)
          ∷ token (word (97 ∷ 45 ∷ 98 ∷ [])) (state [] 1 9)
          ∷ token break (state [] 1 12)
          ∷ token eof (state [] 2 1)
          ∷ [])
        (state [] 2 1)
unfolding lex
quad_then_word = refl

-- `"a` ends inside a string.
lex-Tokenised_example : Tokenised (lex [] (120 ∷ 59 ∷ 34 ∷ 97 ∷ []))
lex-Tokenised_example = lex-Tokenised [] (120 ∷ 59 ∷ 34 ∷ 97 ∷ [])
