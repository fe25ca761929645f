-- ===== src/Nft/Values/Ports.antt =====
-- The ports, protocols and interface names of crates/nft/src/parse.rs fit their fields.
use fwdelta.Prelude.{
  ℕ, ◌≤◌, ◌≡◌, refl, Bool, true, false, List, [], ◌∷◌, Option, none, some, arith, ltb, String, any,
  if◌then◌else◌, le_of_not_ltb, ◌==◌, All,
}
use fwdelta.Prelude.Text.{Text}
use fwdelta.Prelude.Strings.{is_literal}
use fwdelta.Prelude.NameSet.{insert, IsIncreasing, insert-IsIncreasing}
use fwdelta.Ir.Field.{src_port, proto}
use fwdelta.Ir.Intervals.{point, range}
use fwdelta.Ir.Interface.{IfMatch, one_of, none_of}
use fwdelta.Ir.Rule.WellFormed.{Fits}
use fwdelta.Nft.Token.{Tok, word, str, num, ip, sym, break, eof, InBounds}
use fwdelta.Nft.Cursor.{Place, pure, is_sym}
use fwdelta.Nft.Cursor.Post.{Any}
use fwdelta.Nft.Cursor.Sound.{
  Sound, bind-Sound, if-Sound, pure-Sound, peek-Sound, at-Sound, bump-Sound, eat_sym-Sound,
  negation-Sound, err_at-Sound, expect_num-Sound, reject_named_set-Sound,
}
use fwdelta.Nft.Values.{
  reject_service, port_number, port_arm, port_atom, port_value, port_spec, proto_named, proto_of,
  proto_number, protocols, number_in, proto_atom, proto_spec, name_of, if_name, if_spec, negate_if,
  if_match,
}
use fwdelta.Ir.Rule.Literals.{point-Fits, range-Fits, domain_max_16, domain_max_8}
use fwdelta.Nft.Values.Fits.{negate_if-Fits, value_or_set-Sound, value-Sound}

-- The numbers of the named protocols are in the field.
number_in-le :
    (ns : List (String × ℕ))
    → All (λ p. p.1 ≤ 255) ns
    → (w : Text) (n : ℕ) → number_in ns w ≡ some n
    → n ≤ 255
number_in-le [] h w n e = absurd (cc (e))
number_in-le ((s, k) ∷ ns) (h, hs) w n e =
    elim (is_literal s w) as (λ b. (if b then some k else number_in ns w) ≡ some n → n ≤ 255) [
      | true ↦ λ e'. ground (arith)
      | false ↦ λ e'. number_in-le ns hs w n e'
    ]
      e

proto_number-le : (w : Text) (n : ℕ) → proto_number w ≡ some n → n ≤ 255
unfolding proto_number
proto_number-le w n h =
    number_in-le protocols
      (
        omega arith,
        (
          omega arith,
          (
            omega arith,
            (
              omega arith,
              (
                omega arith,
                (
                  omega arith,
                  (
                    omega arith,
                    (
                      omega arith,
                      (omega arith, (omega arith, (omega arith, (omega arith, (omega arith, tt))))),
                    ),
                  ),
                ),
              ),
            ),
          ),
        ),
      )
      w n h

-- The names are a sorted set.
abbrev pub IsNameSet : IfMatch → Type 0
IsNameSet IfMatch.any = Unit
IsNameSet (one_of ns) = IsIncreasing ns
IsNameSet (none_of ns) = IsIncreasing ns

module _ (file src : Text) where
  reject_service-Sound : (place : Place) (t : Tok) → Sound Any (reject_service file src place t)
  unfolding reject_service
  reject_service-Sound place (word w) = err_at-Sound file src _ _ _
  reject_service-Sound place (ip v) = pure-Sound tt tt
  reject_service-Sound place (str w) = pure-Sound tt tt
  reject_service-Sound place (num w) = pure-Sound tt tt
  reject_service-Sound place (sym w) = pure-Sound tt tt
  reject_service-Sound place break = pure-Sound tt tt
  reject_service-Sound place eof = pure-Sound tt tt

  port_number-Sound : (place : Place) → Sound (λ n. n ≤ 65535) (port_number file src place)
  unfolding port_number
  port_number-Sound place = bind-Sound Any (expect_num-Sound file src) (λ n u.
      if-Sound (ltb 65535 n) (λ e. err_at-Sound file src _ _ _)
        (λ e. pure-Sound n (le_of_not_ltb 65535 n e)))

  port_arm-Sound :
      (start : Place) (lo : ℕ) (b : Bool)
      → lo ≤ 65535
      → Sound (Fits src_port) (port_arm file src start lo b)
  unfolding port_arm
  port_arm-Sound start lo true h = bind-Sound Any at-Sound (λ end_place u.
      bind-Sound (λ n. n ≤ 65535) (port_number-Sound end_place)
        (λ hi l.
          if-Sound (ltb hi lo) (λ e. err_at-Sound file src _ _ _)
            (λ e. pure-Sound (range 16 lo hi) (range-Fits src_port lo hi))))
  port_arm-Sound start lo false h =
      pure-Sound (point 16 lo) (point-Fits src_port lo (rw (domain_max_16) h))

  port_atom-Sound : Sound (Fits src_port) (port_atom file src)
  unfolding port_atom
  port_atom-Sound = bind-Sound Any at-Sound (λ start u. bind-Sound InBounds peek-Sound (λ t i.
      bind-Sound Any (reject_service-Sound start t) (λ v w.
        bind-Sound (λ n. n ≤ 65535) (port_number-Sound start)
          (λ lo h.
            bind-Sound Any (eat_sym-Sound b'-')
              (λ is_range x. port_arm-Sound start lo is_range h)))))

  pub port_spec-Sound : Sound (Fits src_port) (port_spec file src)
  unfolding port_spec port_value
  port_spec-Sound = bind-Sound Any negation-Sound (λ negated u.
      bind-Sound Any (reject_named_set-Sound file src) (λ v w.
        bind-Sound (Fits src_port)
          (value-Sound file src src_port (port_atom file src) port_atom-Sound)
          (λ s p. pure-Sound (negate_if negated s) (negate_if-Fits src_port negated s p))))

  pub proto_point-Sound : (n : ℕ) → n ≤ 255 → Sound (Fits proto) (pure (point 8 n))
  proto_point-Sound n h = pure-Sound (point 8 n) (point-Fits proto n (rw (domain_max_8) h))

  proto_named-Sound :
      (place : Place) (w : Text) (o : Option ℕ)
      → ((n : ℕ) → o ≡ some n → n ≤ 255)
      → Sound (Fits proto) (proto_named file src place w o)
  unfolding proto_named
  proto_named-Sound place w (some n) h = proto_point-Sound n (h n refl)
  proto_named-Sound place w none h = err_at-Sound file src _ _ _

  proto_of-Sound : (place : Place) (t : Tok) → Sound (Fits proto) (proto_of file src place t)
  unfolding proto_of
  proto_of-Sound place (num n) =
      if-Sound (ltb 255 n) (λ e. err_at-Sound file src _ _ _)
        (λ e. proto_point-Sound n (le_of_not_ltb 255 n e))
  proto_of-Sound place (word w) = proto_named-Sound place w (proto_number w) (proto_number-le w)
  proto_of-Sound place (ip v) = err_at-Sound file src _ _ _
  proto_of-Sound place (str w) = err_at-Sound file src _ _ _
  proto_of-Sound place (sym w) = err_at-Sound file src _ _ _
  proto_of-Sound place break = err_at-Sound file src _ _ _
  proto_of-Sound place eof = err_at-Sound file src _ _ _

  proto_atom-Sound : Sound (Fits proto) (proto_atom file src)
  unfolding proto_atom
  proto_atom-Sound =
      bind-Sound Any at-Sound
        (λ start u. bind-Sound InBounds bump-Sound (λ t i. proto_of-Sound start t))

  pub proto_spec-Sound : Sound (Fits proto) (proto_spec file src)
  unfolding proto_spec
  proto_spec-Sound = bind-Sound Any negation-Sound (λ negated u.
      bind-Sound Any (reject_named_set-Sound file src) (λ v w.
        bind-Sound (Fits proto) (value-Sound file src proto (proto_atom file src) proto_atom-Sound)
          (λ s p. pure-Sound (negate_if negated s) (negate_if-Fits proto negated s p))))

  name_of-Sound : (place : Place) (t : Tok) → Sound Any (name_of file src place t)
  unfolding name_of
  name_of-Sound place (str s) = pure-Sound s tt
  name_of-Sound place (word s) = pure-Sound s tt
  name_of-Sound place (num w) = err_at-Sound file src _ _ _
  name_of-Sound place (ip v) = err_at-Sound file src _ _ _
  name_of-Sound place (sym w) = err_at-Sound file src _ _ _
  name_of-Sound place break = err_at-Sound file src _ _ _
  name_of-Sound place eof = err_at-Sound file src _ _ _

  if_name-Sound : Sound Any (if_name file src)
  unfolding if_name
  if_name-Sound = bind-Sound Any at-Sound (λ start u. bind-Sound InBounds bump-Sound (λ t i.
      bind-Sound Any (name_of-Sound start t) (λ name v. bind-Sound InBounds peek-Sound (λ after j.
        if-Sound (any (λ c. c == b'*') name) (λ e. err_at-Sound file src _ _ _)
          (λ e.
            if-Sound (is_sym b'*' after) (λ e'. err_at-Sound file src _ _ _)
              (λ e'. pure-Sound name tt))))))

  if_match-IsNameSet :
      (b : Bool) (ns : List Text) → IsIncreasing ns → IsNameSet (if_match file src b ns)
  if_match-IsNameSet true ns h = h
  if_match-IsNameSet false ns h = h

  pub if_spec-Sound : Sound IsNameSet (if_spec file src)
  unfolding if_spec
  if_spec-Sound = bind-Sound Any negation-Sound (λ negated u.
      bind-Sound Any (reject_named_set-Sound file src) (λ v w.
        bind-Sound IsIncreasing
          (value_or_set-Sound file src Any IsIncreasing (if_name file src) (λ ns n. insert n ns) []
            (λ n. insert n []) if_name-Sound (λ ns n p q. insert-IsIncreasing n ns p) tt
            (λ n q. insert-IsIncreasing n [] tt))
          (λ ns p. pure-Sound (if_match file src negated ns) (if_match-IsNameSet negated ns p))))
