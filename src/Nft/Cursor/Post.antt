-- ===== src/Nft/Cursor/Post.antt =====
-- A triple for the parser of crates/nft/src/parse.rs: from tokens that end in the end of file, a
-- parser returns a value with a property and no more tokens than it was given, or an error. It does
-- not panic, and its fuel is enough.
use fwdelta.Prelude.{
  ℕ, suc, ◌≤◌, ◌≡◌, refl, Bool, true, false, [], ◌∷◌, arith, length, String, if◌then◌else◌,
}
use fwdelta.Nft.Token.{Tok, word, str, num, ip, sym, break, eof, is_break, is_eof, InBounds}
use fwdelta.Nft.Lex.Shape.{AllInBounds}
use fwdelta.Nft.Cursor.{
  Tokens, Parsed, ok, failed, no_fuel, panicked, Parser, bind, next, advance, Place, place, at,
  bump, eat_if, eat_sym, eat_word, drop_breaks, is_sym, is_word,
}

-- The last token is the end of file.
abbrev pub is_ended : Tokens → Bool
is_ended [] = false
is_ended (t ∷ []) = is_eof t.tok
is_ended (t ∷ u ∷ ts) = is_ended (u ∷ ts)

-- At most `n` tokens, the last one the end of file, with addresses in bounds.
pub record Fine (n : ℕ) (ts : Tokens) : Type 0 where
  pub short : length ts ≤ n
  pub ended : is_ended ts ≡ true
  pub bounded : AllInBounds ts

abbrev pub Post {ℓ} : {A : Type ℓ} → ℕ → (A → Type 0) → Parsed A → Type 0
Post n Q (ok a ts) = Q a × Fine n ts
Post n Q (failed e) = Unit
Post n Q no_fuel = ⊥
Post n Q panicked = ⊥

-- The property that always holds.
abbrev pub Any {ℓ} : {A : Type ℓ} → A → Type 0
Any a = Unit

pub Fine-le : (m n : ℕ) (ts : Tokens) → m ≤ n → Fine m ts → Fine n ts
Fine-le m n ts h f = record { short = omega (arith, f.short); ended = f.ended; bounded = f.bounded }

pub Fine-own : (n : ℕ) (ts : Tokens) → Fine n ts → Fine (length ts) ts
Fine-own n ts f = record { short = omega arith; ended = f.ended; bounded = f.bounded }

pub Post-bind {ℓ κ} :
    {A : Type ℓ} {B : Type κ} (m n : ℕ) (Q : A → Type 0) (R : B → Type 0) (r : Parsed A)
    (f : A → Parser B)
    → Post m Q r
    → ((a : A) (ts : Tokens) → Q a → Fine m ts → Post n R (f a ts))
    → Post n R (bind r f)
unfolding bind
Post-bind m n Q R (ok a ts) f h k = k a ts h.0 h.1
Post-bind m n Q R (failed e) f h k = tt
Post-bind m n Q R no_fuel f h k = elim h [ ]
Post-bind m n Q R panicked f h k = elim h [ ]

pub Post-if {ℓ} :
    {A : Type ℓ} (n : ℕ) (Q : A → Type 0) (b : Bool) (p q : Parser A) (ts : Tokens)
    → (b ≡ true → Post n Q (p ts))
    → (b ≡ false → Post n Q (q ts))
    → Post n Q ((if b then p else q) ts)
Post-if n Q true p q ts f g = f refl
Post-if n Q false p q ts f g = g refl

pub Post-elim {ℓ} :
    {A : Type ℓ} (n : ℕ) (Q : A → Type 0) (b : Bool) (x y : Parsed A)
    → (b ≡ true → Post n Q x)
    → (b ≡ false → Post n Q y)
    → Post n Q (elim b [ true ↦ x | false ↦ y ])
Post-elim n Q true x y f g = f refl
Post-elim n Q false x y f g = g refl

pub Post-weaken {ℓ} :
    {A : Type ℓ} (m n : ℕ) (Q R : A → Type 0) (r : Parsed A)
    → m ≤ n
    → ((a : A) → Q a → R a)
    → Post m Q r
    → Post n R r
Post-weaken m n Q R (ok a ts) h f p = (f a p.0, Fine-le m n ts h p.1)
Post-weaken m n Q R (failed e) h f p = tt
Post-weaken m n Q R no_fuel h f p = p
Post-weaken m n Q R panicked h f p = p

-- The position moves on, unless it is at the end of file.
pub advance-Fine : (n : ℕ) (ts : Tokens) → Fine n ts → Fine n (advance ts)
unfolding advance
advance-Fine n [] f = f
advance-Fine n (t ∷ []) f = f
advance-Fine n (t ∷ u ∷ ts) f = record {
  short = omega (arith, f.short);
  ended = f.ended;
  bounded = f.bounded.1;
}

pub advance-shorter :
    (n : ℕ) (ts : Tokens) → Fine (suc n) ts → is_eof (next ts) ≡ false → Fine n (advance ts)
unfolding advance
advance-shorter n [] f h = absurd (cc (f.ended))
advance-shorter n (t ∷ []) f h = absurd (cc (f.ended, h))
advance-shorter n (t ∷ u ∷ ts) f h = record {
  short = omega (arith, f.short);
  ended = f.ended;
  bounded = f.bounded.1;
}

pub next-InBounds : (n : ℕ) (ts : Tokens) → Fine n ts → InBounds (next ts)
next-InBounds n [] f = tt
next-InBounds n (t ∷ ts) f = f.bounded.0

pub bump-Post : (n : ℕ) (ts : Tokens) → Fine n ts → Post n InBounds (bump ts)
unfolding bump
bump-Post n ts f = (next-InBounds n ts f, advance-Fine n ts f)

-- A token that is not the end of file is taken.
pub bump-shorter :
    (n : ℕ) (ts : Tokens) → Fine (suc n) ts → is_eof (next ts) ≡ false → Post n InBounds (bump ts)
unfolding bump
bump-shorter n ts f h = (next-InBounds (suc n) ts f, advance-shorter n ts f h)

pub eat_if-Post : (n : ℕ) (b : Bool) (ts : Tokens) → Fine n ts → Post n Any (eat_if b ts)
eat_if-Post n true ts f = (tt, advance-Fine n ts f)
eat_if-Post n false ts f = (tt, f)

pub eat_sym-Post : (n c : ℕ) (ts : Tokens) → Fine n ts → Post n Any (eat_sym c ts)
unfolding eat_sym
eat_sym-Post n c ts f = eat_if-Post n (is_sym c (next ts)) ts f

pub eat_word-Post : (n : ℕ) (w : String) (ts : Tokens) → Fine n ts → Post n Any (eat_word w ts)
unfolding eat_word
eat_word-Post n w ts f = eat_if-Post n (is_word w (next ts)) ts f

sym_not_eof : (c : ℕ) (t : Tok) → is_sym c t ≡ true → is_eof t ≡ false
sym_not_eof c (sym d) h = refl
sym_not_eof c eof h = cc
sym_not_eof c (word w) h = refl
sym_not_eof c (str w) h = refl
sym_not_eof c (num w) h = refl
sym_not_eof c (ip w) h = refl
sym_not_eof c break h = refl

eat_if-bind {ℓ} :
    {B : Type ℓ} (n m : ℕ) (R : B → Type 0) (b : Bool) (ts : Tokens) (f : Bool → Parser B)
    → Fine (suc n) ts
    → (b ≡ true → is_eof (next ts) ≡ false)
    → ((ts' : Tokens) → Fine n ts' → Post m R (f true ts'))
    → ((ts' : Tokens) → Fine (suc n) ts' → Post m R (f false ts'))
    → Post m R (bind (eat_if b ts) f)
unfolding bind
eat_if-bind n m R true ts f h e k j = k (advance ts) (advance-shorter n ts h (e refl))
eat_if-bind n m R false ts f h e k j = j ts h

-- An eaten symbol leaves fewer tokens.
pub eat_sym-bind {ℓ} :
    {B : Type ℓ} (n m c : ℕ) (R : B → Type 0) (ts : Tokens) (f : Bool → Parser B)
    → Fine (suc n) ts
    → ((ts' : Tokens) → Fine n ts' → Post m R (f true ts'))
    → ((ts' : Tokens) → Fine (suc n) ts' → Post m R (f false ts'))
    → Post m R (bind (eat_sym c ts) f)
unfolding eat_sym
eat_sym-bind n m c R ts f h k j =
    eat_if-bind n m R (is_sym c (next ts)) ts f h (sym_not_eof c (next ts)) k j

pub Fine-zero : (ts : Tokens) → Fine 0 ts → ⊥
Fine-zero [] f = cc (f.ended)
Fine-zero (t ∷ ts) f = omega (arith, f.short)

pub drop_breaks-Fine : (n : ℕ) (ts : Tokens) → Fine n ts → Fine n (drop_breaks ts)
unfolding drop_breaks
drop_breaks-Fine n [] f = f
drop_breaks-Fine n (t ∷ []) f = f
drop_breaks-Fine n (t ∷ u ∷ ts) f =
    elim (is_break t.tok)
      as (λ b. Fine n (elim b [ true ↦ drop_breaks (u ∷ ts) | false ↦ t ∷ u ∷ ts ])) [
        | true ↦
            drop_breaks-Fine n (u ∷ ts)
              (record { short = omega (arith, f.short); ended = f.ended; bounded = f.bounded.1 })
        | false ↦ f
      ]

-- Reading the place leaves the tokens.
pub at-bind {ℓ} :
    {B : Type ℓ} (n : ℕ) (R : B → Type 0) (ts : Tokens) (f : Place → Parser B)
    → Post n R (f (place ts) ts)
    → Post n R (bind (at ts) f)
unfolding bind
at-bind n R ts f h = h

-- The end of file is not taken, another token is.
taken :
    {B : Type 0} (m n : ℕ) (R : B → Type 0) (f : Tok → Parser B) (t : Tok) (ts : Tokens)
    → (is_eof t ≡ false → Fine m ts)
    → (is_eof t ≡ true → Post n R (f eof ts))
    → (is_eof t ≡ false → Fine m ts → Post n R (f t ts))
    → Post n R (f t ts)
taken m n R f (word w) ts e k j = j refl (e refl)
taken m n R f (str w) ts e k j = j refl (e refl)
taken m n R f (num w) ts e k j = j refl (e refl)
taken m n R f (ip w) ts e k j = j refl (e refl)
taken m n R f (sym w) ts e k j = j refl (e refl)
taken m n R f break ts e k j = j refl (e refl)
taken m n R f eof ts e k j = k refl

pub bump-bind :
    {B : Type 0} (m n : ℕ) (R : B → Type 0) (ts : Tokens) (f : Tok → Parser B)
    → Fine (suc m) ts
    → ((ts' : Tokens) → Post n R (f eof ts'))
    → ((t : Tok) (ts' : Tokens) → Fine m ts' → Post n R (f t ts'))
    → Post n R (bind (bump ts) f)
unfolding bind bump
bump-bind m n R ts f h k j =
    taken m n R f (next ts) (advance ts) (advance-shorter m ts h) (λ e. k (advance ts))
      (λ e g. j (next ts) (advance ts) g)
