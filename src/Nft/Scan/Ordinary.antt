-- ===== src/Nft/Scan/Ordinary.antt =====
-- What a scanned token of crates/nft/src/lex.rs can be.
use fwdelta.Prelude.{
  ℕ, suc, ◌+◌, ◌*◌, ◌^◌, ◌≤◌, ◌<◌, ◌≡◌, refl, Bool, true, false, ◌||◌, List, [], ◌∷◌, arith, ltb,
  ◌==◌, length, le_of_not_ltb,
}
use fwdelta.Prelude.Text.{Text}
use fwdelta.Nft.Token.{Tok, is_break, is_eof, InBounds}
use fwdelta.Nft.Error.{ParseError, Message}
use fwdelta.Nft.Scan.{
  Lexer, Lexed, done, failed, no_fuel, and_then, state, is_digit, is_alpha, dot_digit, scan_u64,
  scan_octets, pack, quad, scan_number_or_ip, string_body, word_body, goes_on, is_symbol,
  scan_token,
}

-- A predicate of both branches.
pub both_cases {ℓ κ} :
    {A : Type ℓ} (P : A → Type κ) (b : Bool) (x y : A)
    → P x
    → P y
    → P (elim b [ true ↦ x | false ↦ y ])
both_cases P true x y p q = p
both_cases P false x y p q = q

-- A scanned token is neither a break nor the end, and an address has 32 bits.
abbrev pub Ordinary : Lexed Tok → Type 0
Ordinary (done tok lx) = (is_break tok ≡ false) × (is_eof tok ≡ false) × InBounds tok
Ordinary _ = Unit

and_then-Ordinary {ℓ} :
    {A : Type ℓ} (r : Lexed A) (f : A → Lexer → Lexed Tok)
    → ((a : A) (lx : Lexer) → Ordinary (f a lx))
    → Ordinary (and_then r f)
and_then-Ordinary (done a lx) f h = h a lx
and_then-Ordinary (failed e) f h = tt
and_then-Ordinary no_fuel f h = tt

string_body-Ordinary :
    (e : ParseError) (escaped : Bool) (src : List ℕ) (line col : ℕ) (s : Text)
    → Ordinary (string_body e escaped src line col s)
unfolding string_body
string_body-Ordinary e escaped [] line col s = tt
string_body-Ordinary e true (c ∷ cs) line col s = string_body-Ordinary e false cs _ _ _
string_body-Ordinary e false (c ∷ cs) line col s =
    both_cases Ordinary (c == 34) _ _ (refl, refl, tt)
      (both_cases Ordinary (c == 92) _ _ (string_body-Ordinary e true cs _ _ _)
        (string_body-Ordinary e false cs _ _ _))

word_body-Ordinary : (src : List ℕ) (line col : ℕ) (w : Text) → Ordinary (word_body src line col w)
unfolding word_body
word_body-Ordinary [] line col w = (refl, refl, tt)
word_body-Ordinary (c ∷ cs) line col w =
    both_cases Ordinary (goes_on c cs) _ _ (word_body-Ordinary cs line (col + 1) _) (refl, refl, tt)

-- The largest value that the octets can make of `v`.
abbrev room : List ℕ → ℕ → ℕ
room [] v = v
room (o ∷ os) v = room os (v * 256 + 255)

room_mono : (os : List ℕ) (v w : ℕ) → v ≤ w → room os v ≤ room os w
room_mono [] v w h = h
room_mono (o ∷ os) v w h = room_mono os (v * 256 + 255) (w * 256 + 255) (omega arith)

-- An elimination of a Boolean, with what each branch may assume.
both_branches {ℓ κ} :
    {A : Type ℓ} (P : A → Type κ) (b : Bool) (x y : A)
    → (b ≡ true → P x)
    → (b ≡ false → P y)
    → P (elim b [ true ↦ x | false ↦ y ])
both_branches P true x y p q = p refl
both_branches P false x y p q = q refl

pack-Ordinary :
    (fail : Message → ParseError) (os : List ℕ) (v : ℕ) (lx : Lexer)
    → room os v < 2 ^ 32
    → Ordinary (pack fail os v lx)
unfolding pack
pack-Ordinary fail [] v lx h = (refl, refl, h)
pack-Ordinary fail (o ∷ os) v lx h =
    both_branches Ordinary (ltb 255 o) _ _ (λ e. tt)
      (λ e.
        let small : o ≤ 255 = le_of_not_ltb 255 o e in
        let m = room_mono os (v * 256 + o) (v * 256 + 255) (omega arith) in
        pack-Ordinary fail os (v * 256 + o) lx (omega arith))

quad-Ordinary :
    (fail : Message → ParseError) (os : List ℕ) (lx : Lexer) → Ordinary (quad fail os lx)
unfolding quad
quad-Ordinary fail (a ∷ b ∷ c ∷ d ∷ []) lx =
    pack-Ordinary fail (a ∷ b ∷ c ∷ d ∷ []) 0 lx (omega arith)
quad-Ordinary fail [] lx = tt
quad-Ordinary fail (a ∷ []) lx = tt
quad-Ordinary fail (a ∷ b ∷ []) lx = tt
quad-Ordinary fail (a ∷ b ∷ c ∷ []) lx = tt
quad-Ordinary fail (a ∷ b ∷ c ∷ d ∷ e ∷ os) lx =
    both_branches Ordinary (length (a ∷ b ∷ c ∷ d ∷ e ∷ os) == 4) _ _ (λ h. absurd (ground arith))
      (λ h. tt)

number-Ordinary : (fail : Message → ParseError) (lx : Lexer) → Ordinary (scan_number_or_ip fail lx)
unfolding scan_number_or_ip
number-Ordinary fail lx = and_then-Ordinary (scan_u64 fail lx) _ (λ first lx'.
    both_cases Ordinary (dot_digit lx'.src) _ _
      (and_then-Ordinary (scan_octets (suc (length lx'.src)) fail lx' (first ∷ [])) _
        (λ os lx''. quad-Ordinary fail os lx''))
      (refl, refl, tt))

pub scan_token-Ordinary :
    (fail : Message → ParseError) (c : ℕ) (cs : List ℕ) (line col : ℕ)
    → Ordinary (scan_token fail c cs line col)
unfolding scan_token
scan_token-Ordinary fail c cs line col =
    both_cases Ordinary (c == 34) _ _ (string_body-Ordinary _ false cs line (col + 1) []) (
      both_cases Ordinary (is_digit c) _ _ (number-Ordinary fail (state (c ∷ cs) line col)) (
        both_cases Ordinary (is_alpha c || c == 95) _ _ (word_body-Ordinary (c ∷ cs) line col [])
          (both_cases Ordinary (is_symbol c) _ _ (refl, refl, tt) tt)))
