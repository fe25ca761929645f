-- ===== src/Nft/Skip/Sound.antt =====
-- What crates/nft/src/parse.rs passes over in a rule keeps the tokens, and its loops end.
use fwdelta.Prelude.{ℕ, zero, suc, ◌≤◌, ◌≡◌, refl, Bool, true, false, [], ◌∷◌, arith, length}
use fwdelta.Nft.Token.{Tok, word, str, num, ip, sym, break, eof, is_eof, InBounds}
use fwdelta.Nft.Cursor.{Tokens, next, bump, eat_if}
use fwdelta.Nft.Cursor.Post.{
  Fine, Fine-own, Fine-le, Fine-zero, Post, Any, Post-bind, Post-elim, bump-shorter, eat_if-Post,
}
use fwdelta.Nft.Cursor.Sound.{Sound, bind-Sound, pure-Sound, bump-Sound, eat_word-Sound}
use fwdelta.Nft.Skip.{
  skip_number, counter_bytes, counter_packets, skip_counter, is_log_option, is_value, skip_options,
  skip_log, ends_statement, drop_reason, reason_arm,
}

skip_number-Sound : Sound Any skip_number
unfolding skip_number
skip_number-Sound = bind-Sound InBounds bump-Sound (λ t i. pure-Sound tt tt)

counter_bytes-Sound : (b : Bool) → Sound Any (counter_bytes b)
unfolding counter_bytes
counter_bytes-Sound true = skip_number-Sound
counter_bytes-Sound false = pure-Sound tt tt

counter_packets-Sound : (b : Bool) → Sound Any (counter_packets b)
unfolding counter_packets
counter_packets-Sound true =
    bind-Sound Any skip_number-Sound
      (λ u v. bind-Sound Any (eat_word-Sound "bytes") (λ more w. counter_bytes-Sound more))
counter_packets-Sound false = pure-Sound tt tt

pub skip_counter-Sound : Sound Any skip_counter
unfolding skip_counter
skip_counter-Sound =
    bind-Sound Any (eat_word-Sound "packets") (λ more u. counter_packets-Sound more)

option_not_eof : (t : Tok) → is_log_option t ≡ true → is_eof t ≡ false
option_not_eof (word w) h = refl
option_not_eof (str w) h = refl
option_not_eof (num w) h = refl
option_not_eof (ip w) h = refl
option_not_eof (sym w) h = refl
option_not_eof break h = refl
option_not_eof eof h = absurd (cc (h))

-- Every round takes a token, so that a round per token is enough.
skip_options-Post :
    (fuel m n : ℕ) (ts : Tokens) → Fine m ts → m ≤ fuel → m ≤ n → Post n Any (skip_options fuel ts)
unfolding skip_options
skip_options-Post fuel zero n ts f lf ln = absurd (Fine-zero ts f)
skip_options-Post zero (suc m) n ts f lf ln = absurd (omega arith)
skip_options-Post (suc fuel) (suc m) n ts f lf ln =
    Post-elim n Any (is_log_option (next ts)) _ _
      (λ e.
        Post-bind m n InBounds Any (bump ts) _ (bump-shorter m ts f (option_not_eof (next ts) e))
          (λ t ts1 i f1.
            Post-bind m n Any Any (eat_if (is_value (next ts1)) ts1) _
              (eat_if-Post m (is_value (next ts1)) ts1 f1)
              (λ b ts2 u f2. skip_options-Post fuel m n ts2 f2 (omega arith) (omega arith))))
      (λ e. (tt, Fine-le (suc m) n ts ln f))

pub skip_log-Sound : Sound Any skip_log
unfolding skip_log
skip_log-Sound = record {
  post = λ n ts f.
      skip_options-Post (suc (length ts)) (length ts) n ts (Fine-own n ts f) (omega arith)
        (f.short);
}

drop_reason-Fine : (n : ℕ) (ts : Tokens) → Fine n ts → Fine n (drop_reason ts)
unfolding drop_reason
drop_reason-Fine n [] f = f
drop_reason-Fine n (t ∷ []) f = f
drop_reason-Fine n (t ∷ u ∷ ts) f =
    elim (ends_statement t.tok)
      as (λ b. Fine n (elim b [ true ↦ t ∷ u ∷ ts | false ↦ drop_reason (u ∷ ts) ])) [
        | true ↦ f
        | false ↦
            drop_reason-Fine n (u ∷ ts)
              (record { short = omega (arith, f.short); ended = f.ended; bounded = f.bounded.1 })
      ]

pub reason_arm-Sound : (b : Bool) → Sound Any (reason_arm b)
unfolding reason_arm
reason_arm-Sound true = record { post = λ n ts f. (tt, drop_reason-Fine n ts f) }
reason_arm-Sound false = record { post = λ n ts f. (tt, f) }
