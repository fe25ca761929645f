-- ===== src/Nft/Cursor/Sound.antt =====
-- Parsers of crates/nft/src/parse.rs that keep the triple of Nft/Cursor/Post.antt.
use fwdelta.Prelude.{ℕ, ◌≡◌, refl, Bool, true, false, String, if◌then◌else◌}
use fwdelta.Prelude.Text.{Text}
use fwdelta.Nft.Token.{Tok, word, str, num, ip, sym, break, eof, InBounds}
use fwdelta.Nft.Error.{Cause, Message}
use fwdelta.Nft.Cursor.{
  Tokens, Parser, bind, pure, peek, place, at, bump, eat_sym, eat_word, skip_breaks, Place, err_at,
  err, expect_sym, word_of, num_of, expect_word, expect_num, reject_named_set, negation_arm,
  negation, is_sym,
}
use fwdelta.Nft.Cursor.Post.{
  Fine, Post, Any, Post-bind, next-InBounds, bump-Post, eat_sym-Post, eat_word-Post,
  drop_breaks-Fine,
}

-- A parser that keeps the triple from any tokens.
pub record Sound {ℓ} {A : Type ℓ} (Q : A → Type 0) (p : Parser A) : Type 0 where
  pub post : (n : ℕ) (ts : Tokens) → Fine n ts → Post n Q (p ts)

pub bind-Sound {ℓ κ} :
    {A : Type ℓ} {B : Type κ} (Q : A → Type 0) {R : B → Type 0} {p : Parser A} {f : A → Parser B}
    → Sound Q p
    → ((a : A) → Q a → Sound R (f a))
    → Sound R (λ ts. bind (p ts) f)
bind-Sound Q {R = R} {p = p} {f = f} h k = record {
  post = λ n ts g. Post-bind n n Q R (p ts) f (h.post n ts g) (λ a ts' q g'. (k a q).post n ts' g');
}

pub if-Sound {ℓ} :
    {A : Type ℓ} {Q : A → Type 0} (b : Bool) {p q : Parser A}
    → (b ≡ true → Sound Q p)
    → (b ≡ false → Sound Q q)
    → Sound Q (if b then p else q)
if-Sound true f g = f refl
if-Sound false f g = g refl

pub pure-Sound {ℓ} : {A : Type ℓ} {Q : A → Type 0} (a : A) → Q a → Sound Q (pure a)
pure-Sound a h = record { post = λ n ts f. (h, f) }

pub skip_breaks-Sound : Sound Any skip_breaks
unfolding skip_breaks
skip_breaks-Sound = record { post = λ n ts f. (tt, drop_breaks-Fine n ts f) }

pub peek-Sound : Sound InBounds peek
peek-Sound = record { post = λ n ts f. (next-InBounds n ts f, f) }

pub at-Sound : Sound Any at
at-Sound = record { post = λ n ts f. (tt, f) }

pub bump-Sound : Sound InBounds bump
bump-Sound = record { post = bump-Post }

pub eat_sym-Sound : (c : ℕ) → Sound Any (eat_sym c)
eat_sym-Sound c = record { post = λ n ts f. eat_sym-Post n c ts f }

pub eat_word-Sound : (w : String) → Sound Any (eat_word w)
eat_word-Sound w = record { post = λ n ts f. eat_word-Post n w ts f }

negation_arm-Sound : (b : Bool) → Sound Any (negation_arm b)
unfolding negation_arm
negation_arm-Sound true =
    bind-Sound InBounds bump-Sound
      (λ t i. bind-Sound Any (eat_sym-Sound b'=') (λ e j. pure-Sound true tt))
negation_arm-Sound false = pure-Sound false tt

pub negation-Sound : Sound Any negation
unfolding negation
negation-Sound = bind-Sound InBounds peek-Sound (λ t h. negation_arm-Sound (is_sym b'!' t))

module _ (file src : Text) where
  pub err_at-Sound {ℓ} :
      {A : Type ℓ} {Q : A → Type 0} (place : Place) (cause : Cause) (message : Message)
      → Sound Q (err_at file src place cause message)
  unfolding err_at
  err_at-Sound place cause message = record { post = λ n ts f. tt }

  pub err-Sound {ℓ} :
      {A : Type ℓ} {Q : A → Type 0} (cause : Cause) (message : Message)
      → Sound Q (err file src cause message)
  unfolding err err_at
  err-Sound cause message = record { post = λ n ts f. tt }

  pub err-Post {ℓ} :
      {A : Type ℓ} (n : ℕ) (Q : A → Type 0) (cause : Cause) (message : Message) (ts : Tokens)
      → Post n Q (err file src cause message ts)
  unfolding err err_at
  err-Post n Q cause message ts = tt

  pub expect_sym-Sound : (c : ℕ) → Sound Any (expect_sym file src c)
  unfolding expect_sym
  expect_sym-Sound c = bind-Sound Any (eat_sym-Sound c) (λ eaten h.
      bind-Sound InBounds peek-Sound
        (λ t i. if-Sound eaten (λ e. pure-Sound tt tt) (λ e. err-Sound _ _)))

  word_of-Sound : (t : Tok) → Sound Any (word_of file src t)
  unfolding word_of
  word_of-Sound (word w) = pure-Sound w tt
  word_of-Sound (str s) = err-Sound _ _
  word_of-Sound (num m) = err-Sound _ _
  word_of-Sound (ip m) = err-Sound _ _
  word_of-Sound (sym m) = err-Sound _ _
  word_of-Sound break = err-Sound _ _
  word_of-Sound eof = err-Sound _ _

  pub expect_word-Sound : Sound Any (expect_word file src)
  unfolding expect_word
  expect_word-Sound = bind-Sound InBounds bump-Sound (λ t h. word_of-Sound t)

  num_of-Sound : (t : Tok) → Sound Any (num_of file src t)
  unfolding num_of
  num_of-Sound (num w) = pure-Sound w tt
  num_of-Sound (str s) = err-Sound _ _
  num_of-Sound (word m) = err-Sound _ _
  num_of-Sound (ip m) = err-Sound _ _
  num_of-Sound (sym m) = err-Sound _ _
  num_of-Sound break = err-Sound _ _
  num_of-Sound eof = err-Sound _ _

  pub expect_num-Sound : Sound Any (expect_num file src)
  unfolding expect_num
  expect_num-Sound = bind-Sound InBounds bump-Sound (λ t h. num_of-Sound t)

  pub reject_named_set-Sound : Sound Any (reject_named_set file src)
  unfolding reject_named_set
  reject_named_set-Sound =
      bind-Sound InBounds peek-Sound
        (λ t h. if-Sound (is_sym b'@' t) (λ e. err-Sound _ _) (λ e. pure-Sound tt tt))
