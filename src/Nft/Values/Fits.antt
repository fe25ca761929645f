-- ===== src/Nft/Values/Fits.antt =====
-- The value forms of crates/nft/src/parse.rs give sets that fit their field.
use fwdelta.Prelude.{
  ℕ, ◌≡◌, zero, suc, ◌≤◌, ◌<◌, ◌^◌, ◌∙◌, Bool, true, false, Option, some, arith, ltb, length,
  le_of_not_ltb,
}
use fwdelta.Prelude.Text.{Text}
use fwdelta.Ir.Field.{Field, src_addr, bits}
use fwdelta.Ir.Intervals.{IntervalSet, domain_max, point, range, prefix_range, union, empty}
use fwdelta.Ir.Intervals.Complement.{complement-IsCanonical, bits-complement}
use fwdelta.Ir.Intervals.Literals.{prefix_lem}
use fwdelta.Ir.Rule.WellFormed.{Fits}
use fwdelta.Ir.Rule.Literals.{
  union-Fits, empty-Fits, point-Fits, range-Fits, prefix_range-Fits, domain_max_32,
}
use fwdelta.Nft.Token.{Tok, word, str, num, ip, sym, break, eof, InBounds}
use fwdelta.Nft.Cursor.{Tokens, Parser, bind, Place, skip_breaks, expect_sym, pure}
use fwdelta.Nft.Cursor.Post.{Fine, Fine-le, Fine-own, Fine-zero, Post, Any, Post-bind, eat_sym-bind}
use fwdelta.Nft.Cursor.Sound.{
  Sound, bind-Sound, if-Sound, pure-Sound, skip_breaks-Sound, at-Sound, bump-Sound, eat_sym-Sound,
  negation-Sound, err_at-Sound, expect_sym-Sound, expect_num-Sound, reject_named_set-Sound,
}
use fwdelta.Nft.Values.{
  members, value_or_set, ip_of, prefixed, addr_prefix, addr_range, addr_range_arm, addr_prefix_arm,
  addr_atom, addr_value, addr_spec, negate_if,
}

pub negate_if-Fits : (f : Field) (b : Bool) (s : IntervalSet) → Fits f s → Fits f (negate_if b s)
negate_if-Fits f true s p = (complement-IsCanonical s p.0, bits-complement s ∙ p.1)
negate_if-Fits f false s p = p

module _ (file src : Text) where
  -- The loop over the members, with fuel for the tokens there are.
  members-Post {ℓ κ} :
      {A : Type ℓ} {B : Type κ} (Q : A → Type 0) (R : B → Type 0) (atom : Parser A)
      (add : B → A → B)
      → Sound Q atom
      → ((acc : B) (a : A) → R acc → Q a → R (add acc a))
      → (fuel m n : ℕ) (acc : B) (ts : Tokens) → R acc
      → Fine m ts
      → m ≤ fuel
      → m ≤ n
      → Post n R (members file src fuel atom add acc ts)
  unfolding members
  members-Post Q R atom add h k fuel zero n acc ts r f lf ln = absurd (Fine-zero ts f)
  members-Post Q R atom add h k zero (suc m) n acc ts r f lf ln = absurd (omega arith)
  members-Post Q R atom add h k (suc fuel) (suc m) n acc ts r f lf ln =
      Post-bind (suc m) n Any R (skip_breaks ts) _ (skip_breaks-Sound.post (suc m) ts f)
        (λ u1 ts1 q1 f1. Post-bind (suc m) n Q R (atom ts1) _ (h.post (suc m) ts1 f1) (λ a ts2 q f2.
          Post-bind (suc m) n Any R (skip_breaks ts2) _ (skip_breaks-Sound.post (suc m) ts2 f2)
            (λ u3 ts3 q3 f3.
              eat_sym-bind m n b',' R ts3 _ f3
                (λ ts4 f4.
                  members-Post Q R atom add h k fuel m n (add acc a) ts4 (k acc a r q) f4
                    (omega arith) (omega arith))
                (λ ts4 f4.
                  Post-bind n n Any R (expect_sym file src b'}' ts4) _
                    ((expect_sym-Sound file src b'}').post n ts4 (Fine-le (suc m) n ts4 ln f4))
                    (λ u5 ts5 q5 f5. (k acc a r q, f5))))))

  pub value_or_set-Sound {ℓ κ} :
      {A : Type ℓ} {B : Type κ} (Q : A → Type 0) (R : B → Type 0) (atom : Parser A)
      (add : B → A → B) (start : B) (one : A → B)
      → Sound Q atom
      → ((acc : B) (a : A) → R acc → Q a → R (add acc a))
      → R start
      → ((a : A) → Q a → R (one a))
      → Sound R (value_or_set file src atom add start one)
  unfolding value_or_set
  value_or_set-Sound Q R atom add start one h k r j =
      bind-Sound Any (eat_sym-Sound b'{') (λ braced u. arm braced)
    where
      arm :
          (braced : Bool)
          → Sound R (λ ts'. elim braced [
            | true ↦ members file src (suc (length ts')) atom add start ts'
            | false ↦ bind (atom ts') λ a. pure (one a)
          ])
      arm true = record {
        post = λ n ts f.
            let own = Fine-own n ts f in
            members-Post Q R atom add h k (suc (length ts)) (length ts) n start ts r own
              (omega arith) (f.short);
      }
      arm false = bind-Sound Q h (λ a q. pure-Sound (one a) (j a q))

  pub value-Sound :
      (f : Field) (atom : Parser IntervalSet)
      → Sound (Fits f) atom
      → Sound (Fits f) (value_or_set file src atom union (empty (bits f)) (λ s. s))
  value-Sound f atom h =
      value_or_set-Sound (Fits f) (Fits f) atom union (empty (bits f)) (λ s. s) h
        (λ acc a p q. union-Fits f acc a p) (empty-Fits f) (λ a q. q)

  ip_of-Sound :
      (place : Place) (t : Tok) → InBounds t → Sound (λ v. v < 2 ^ 32) (ip_of file src place t)
  unfolding ip_of
  ip_of-Sound place (ip v) h = pure-Sound v h
  ip_of-Sound place (word w) h = err_at-Sound file src _ _ _
  ip_of-Sound place (str w) h = err_at-Sound file src _ _ _
  ip_of-Sound place (num w) h = err_at-Sound file src _ _ _
  ip_of-Sound place (sym w) h = err_at-Sound file src _ _ _
  ip_of-Sound place break h = err_at-Sound file src _ _ _
  ip_of-Sound place eof h = err_at-Sound file src _ _ _

  prefixed-Sound :
      (o : Option IntervalSet) (s : IntervalSet)
      → o ≡ some s
      → Fits src_addr s
      → Sound (Fits src_addr) (prefixed file src o)
  unfolding prefixed
  prefixed-Sound o s e h = rw (e, prefixed) (pure-Sound s h)

  addr_prefix-Sound :
      (place : Place) (base : ℕ)
      → base < 2 ^ 32
      → Sound (Fits src_addr) (addr_prefix file src place base)
  unfolding addr_prefix
  addr_prefix-Sound place base h = bind-Sound Any (expect_num-Sound file src) (λ len u.
      if-Sound (ltb 32 len) (λ e. err_at-Sound file src _ _ _)
        (λ e.
          let short = le_of_not_ltb 32 len e in
          let within : base ≤ domain_max 32 = rw (domain_max_32) (omega arith) in
          prefixed-Sound _ (prefix_range 32 base len) (prefix_lem 32 base len short)
            (prefix_range-Fits src_addr base len (omega arith) short within)))

  addr_range-Sound :
      (place : Place) (base : ℕ) → Sound (Fits src_addr) (addr_range file src place base)
  unfolding addr_range
  addr_range-Sound place base = bind-Sound Any at-Sound (λ end_place u.
      bind-Sound InBounds bump-Sound (λ t i.
        bind-Sound (λ v. v < 2 ^ 32) (ip_of-Sound end_place t i)
          (λ hi l.
            if-Sound (ltb hi base) (λ e. err_at-Sound file src _ _ _)
              (λ e. pure-Sound (range 32 base hi) (range-Fits src_addr base hi)))))

  addr_range_arm-Sound :
      (place : Place) (base : ℕ) (b : Bool)
      → base < 2 ^ 32
      → Sound (Fits src_addr) (addr_range_arm file src place base b)
  unfolding addr_range_arm
  addr_range_arm-Sound place base true h = addr_range-Sound place base
  addr_range_arm-Sound place base false h =
      pure-Sound (point 32 base) (point-Fits src_addr base (rw (domain_max_32) (omega arith)))

  addr_prefix_arm-Sound :
      (place : Place) (base : ℕ) (b : Bool)
      → base < 2 ^ 32
      → Sound (Fits src_addr) (addr_prefix_arm file src place base b)
  unfolding addr_prefix_arm
  addr_prefix_arm-Sound place base true h = addr_prefix-Sound place base h
  addr_prefix_arm-Sound place base false h =
      bind-Sound Any (eat_sym-Sound b'-') (λ is_range u. addr_range_arm-Sound place base is_range h)

  addr_atom-Sound : Sound (Fits src_addr) (addr_atom file src)
  unfolding addr_atom
  addr_atom-Sound = bind-Sound Any at-Sound (λ start u. bind-Sound InBounds bump-Sound (λ t i.
      bind-Sound (λ v. v < 2 ^ 32) (ip_of-Sound start t i)
        (λ base h.
          bind-Sound Any (eat_sym-Sound b'/')
            (λ is_prefix v. addr_prefix_arm-Sound start base is_prefix h))))

  pub addr_spec-Sound : Sound (Fits src_addr) (addr_spec file src)
  unfolding addr_spec addr_value
  addr_spec-Sound = bind-Sound Any negation-Sound (λ negated u.
      bind-Sound Any (reject_named_set-Sound file src) (λ v w.
        bind-Sound (Fits src_addr) (value-Sound src_addr (addr_atom file src) addr_atom-Sound)
          (λ s p. pure-Sound (negate_if negated s) (negate_if-Fits src_addr negated s p))))
