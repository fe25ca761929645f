-- ===== src/Nft/Scan/Progress.antt =====
-- The scanning loops of crates/nft/src/lex.rs end, and take at least a token's first byte.
use fwdelta.Prelude.{
  ℕ, zero, suc, ◌+◌, ◌-◌, ◌*◌, ◌≤◌, ◌<◌, ◌≡◌, refl, Bool, true, false, ◌||◌, List, [], ◌∷◌, ◌++◌,
  arith, leb, ltb, ◌==◌, length, if◌then◌else◌,
}
use fwdelta.Prelude.Text.{Text}
use fwdelta.Ir.Intervals.{u64_max}
use fwdelta.Nft.Error.{ParseError, Message, expected_a_number, unterminated_string}
use fwdelta.Nft.Scan.{
  Lexer, Lexed, done, failed, no_fuel, and_then, state, bump, is_digit, is_alpha, Skipping, plain,
  comment, continuation, skip, digits, scan_u64, dot_digit, tail, scan_octets, pack, quad,
  scan_number_or_ip, string_body, word_body, goes_on, is_symbol, scan_token,
}

-- At most `n` bytes are left, or there is an error; the fuel was enough.
abbrev pub Within {ℓ} : {A : Type ℓ} → ℕ → Lexed A → Type 0
Within n (done a lx) = length lx.src ≤ n
Within n (failed e) = Unit
Within n no_fuel = ⊥

pub Within-if {ℓ} :
    {A : Type ℓ} (n : ℕ) (b : Bool) (x y : Lexed A)
    → (b ≡ true → Within n x)
    → (b ≡ false → Within n y)
    → Within n (elim b [ true ↦ x | false ↦ y ])
Within-if n true x y f g = f refl
Within-if n false x y f g = g refl

pub Within-le {ℓ} : {A : Type ℓ} (m n : ℕ) (r : Lexed A) → m ≤ n → Within m r → Within n r
Within-le m n (done a lx) h k = omega arith
Within-le m n (failed e) h k = tt
Within-le m n no_fuel h k = elim k [ ]

pub Within-and_then {ℓ κ} :
    {A : Type ℓ} {B : Type κ} (m n : ℕ) (r : Lexed A) (f : A → Lexer → Lexed B)
    → Within m r
    → ((a : A) (lx : Lexer) → length lx.src ≤ m → Within n (f a lx))
    → Within n (and_then r f)
Within-and_then m n (done a lx) f h k = k a lx h
Within-and_then m n (failed e) f h k = tt
Within-and_then m n no_fuel f h k = elim h [ ]

pub skip_le :
    (mode : Skipping) (src : List ℕ) (line col : ℕ)
    → length (skip mode src line col).src ≤ length src
unfolding skip
skip_le mode [] line col = omega arith
skip_le plain (c ∷ cs) line col = ground (
  arith,
  skip_le plain cs line (col + 1),
  skip_le comment cs line (col + 1),
  skip_le continuation cs line (col + 1),
)
skip_le comment (c ∷ cs) line col = ground (arith, skip_le comment cs line (col + 1))
skip_le continuation (c ∷ cs) line col = ground (arith, skip_le plain cs (line + 1) 1)

digits-Within :
    (fail : Message → ParseError) (src : List ℕ) (line col n : ℕ) (seen : Bool)
    → Within (length src) (digits fail src line col n seen)
unfolding digits
digits-Within fail [] line col n true = omega arith
digits-Within fail [] line col n false = tt
digits-Within fail (c ∷ cs) line col n seen =
    Within-if (suc (length cs)) (is_digit c) _ _
      (λ e.
        Within-if (suc (length cs)) (leb (n * 10 + (c - 48)) u64_max) _ _
          (λ e'.
            Within-le (length cs) (suc (length cs)) _ (omega arith)
              (digits-Within fail cs line (col + 1) _ true))
          (λ e'. tt))
      (λ e. stopped seen)
  where
    stopped :
        (seen : Bool)
        → Within
            (suc (length cs))
            (if seen then done n (state (c ∷ cs) line col) else failed (fail expected_a_number))
    stopped true = omega arith
    stopped false = tt

-- A number that starts with a digit takes it.
scan_u64-Within :
    (fail : Message → ParseError) (c : ℕ) (cs : List ℕ) (line col : ℕ)
    → is_digit c ≡ true
    → Within (length cs) (scan_u64 fail (state (c ∷ cs) line col))
unfolding scan_u64 digits
scan_u64-Within fail c cs line col e =
    Within-if (length cs) (is_digit c) _ _
      (λ e1.
        Within-if (length cs) (leb (0 * 10 + (c - 48)) u64_max) _ _
          (λ e2. digits-Within fail cs line (col + 1) _ true) (λ e2. tt))
      (λ e1. absurd (cc (e, e1)))

pub bump-src : (c : ℕ) (cs : List ℕ) (line col : ℕ) → (bump c cs line col).src ≡ cs
unfolding bump
bump-src c cs line col = ground arith

string_body-Within :
    (e : ParseError) (escaped : Bool) (src : List ℕ) (line col : ℕ) (s : Text)
    → Within (length src) (string_body e escaped src line col s)
unfolding string_body
string_body-Within e escaped [] line col s = tt
string_body-Within e true (c ∷ cs) line col s =
    Within-le (length cs) (suc (length cs)) _ (omega arith) (string_body-Within e false cs _ _ _)
string_body-Within e false (c ∷ cs) line col s =
    Within-if (suc (length cs)) (c == 34) _ _ (λ a. rw (bump-src c cs line col) (omega arith))
      (λ a.
        Within-if (suc (length cs)) (c == 92) _ _
          (λ b.
            Within-le (length cs) (suc (length cs)) _ (omega arith)
              (string_body-Within e true cs _ _ _))
          (λ b.
            Within-le (length cs) (suc (length cs)) _ (omega arith)
              (string_body-Within e false cs _ _ _)))

word_body-Within :
    (src : List ℕ) (line col : ℕ) (w : Text) → Within (length src) (word_body src line col w)
unfolding word_body
word_body-Within [] line col w = omega arith
word_body-Within (c ∷ cs) line col w =
    Within-if (suc (length cs)) (goes_on c cs) _ _
      (λ e.
        Within-le (length cs) (suc (length cs)) _ (omega arith)
          (word_body-Within cs line (col + 1) _))
      (λ e. omega arith)

-- The first byte of a word is part of it.
first_goes_on : (c : ℕ) (cs : List ℕ) → (is_alpha c || c == 95) ≡ true → goes_on c cs ≡ false → ⊥
first_goes_on c cs h k = ground arith

-- A word that starts with a letter or `_` takes it.
word_body-Within_cons :
    (c : ℕ) (cs : List ℕ) (line col : ℕ) (w : Text)
    → (is_alpha c || c == 95) ≡ true
    → Within (length cs) (word_body (c ∷ cs) line col w)
unfolding word_body
word_body-Within_cons c cs line col w h =
    Within-if (length cs) (goes_on c cs) _ _ (λ e. word_body-Within cs line (col + 1) _)
      (λ e. absurd (first_goes_on c cs h e))

-- An octet takes its dot and its first digit.
octet-Within :
    (fail : Message → ParseError) (src : List ℕ) (line col : ℕ)
    → dot_digit src ≡ true
    → (m : ℕ) × (length src ≡ suc (suc m)) × Within m (scan_u64 fail (state (tail src) line col))
octet-Within fail [] line col h = absurd (cc)
octet-Within fail (c ∷ []) line col h = absurd (ground arith)
octet-Within fail (c ∷ d ∷ cs) line col h =
    (length cs, refl, scan_u64-Within fail d cs line col (ground arith))

scan_octets-Within :
    (fuel : ℕ) (fail : Message → ParseError) (lx : Lexer) (octets : List ℕ)
    → length lx.src < fuel
    → Within (length lx.src) (scan_octets fuel fail lx octets)
unfolding scan_octets
scan_octets-Within zero fail lx octets h = absurd (omega arith)
scan_octets-Within (suc fuel) fail lx octets h =
    Within-if (length lx.src) (dot_digit lx.src) _ _
      (λ e.
        let (m, two, w) = octet-Within fail lx.src lx.line (lx.col + 1) e in
        Within-and_then m (length lx.src) _ _ w (λ o lx' le.
          Within-le (length lx'.src) (length lx.src) _ (omega arith)
            (scan_octets-Within fuel fail lx' (octets ++ o ∷ []) (omega arith))))
      (λ e. omega arith)

pack-Within :
    (fail : Message → ParseError) (os : List ℕ) (v : ℕ) (lx : Lexer)
    → Within (length lx.src) (pack fail os v lx)
unfolding pack
pack-Within fail [] v lx = omega arith
pack-Within fail (o ∷ os) v lx =
    Within-if (length lx.src) (ltb 255 o) _ _ (λ e. tt) (λ e. pack-Within fail os (v * 256 + o) lx)

quad-Within :
    (fail : Message → ParseError) (os : List ℕ) (lx : Lexer)
    → Within (length lx.src) (quad fail os lx)
unfolding quad
quad-Within fail os lx =
    Within-if (length lx.src) (length os == 4) _ _ (λ e. pack-Within fail os 0 lx) (λ e. tt)

scan_number_or_ip-Within :
    (fail : Message → ParseError) (c : ℕ) (cs : List ℕ) (line col : ℕ)
    → is_digit c ≡ true
    → Within (length cs) (scan_number_or_ip fail (state (c ∷ cs) line col))
unfolding scan_number_or_ip
scan_number_or_ip-Within fail c cs line col h =
    Within-and_then (length cs) (length cs) _ _ (scan_u64-Within fail c cs line col h)
      (λ first lx le.
        Within-if (length cs) (dot_digit lx.src) _ _
          (λ e.
            Within-and_then (length lx.src) (length cs) _ _
              (scan_octets-Within (suc (length lx.src)) fail lx (first ∷ []) (omega arith))
              (λ os lx' le'.
                Within-le (length lx'.src) (length cs) _ (omega arith) (quad-Within fail os lx')))
          (λ e. le))

-- A token takes at least its first byte.
pub scan_token-Within :
    (fail : Message → ParseError) (c : ℕ) (cs : List ℕ) (line col : ℕ)
    → Within (length cs) (scan_token fail c cs line col)
unfolding scan_token
scan_token-Within fail c cs line col =
    Within-if (length cs) (c == 34) _ _
      (λ e. string_body-Within (fail unterminated_string) false cs line (col + 1) [])
      (λ e.
        Within-if (length cs) (is_digit c) _ _ (λ d. scan_number_or_ip-Within fail c cs line col d)
          (λ d.
            Within-if (length cs) (is_alpha c || c == 95) _ _
              (λ a. word_body-Within_cons c cs line col [] a)
              (λ a.
                Within-if (length cs) (is_symbol c) _ _
                  (λ b. rw (bump-src c cs line col) (omega arith)) (λ b. tt))))
