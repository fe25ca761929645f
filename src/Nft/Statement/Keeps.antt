-- ===== src/Nft/Statement/Keeps.antt =====
-- The statements of a rule in crates/nft/src/parse.rs keep an invariant of the match they build.
use fwdelta.Prelude.{
  ℕ, ◌≡◌, refl, subst, Bool, true, false, [], ◌∷◌, some, Bool-cases, inl, inr, ◌≤◌, arith,
}
use fwdelta.Prelude.Text.{Text, text_eq_iff, cmp}
use fwdelta.Prelude.Strings.{is_literal, is_one_of, codes}
use fwdelta.Ir.Field.{Field, src_addr, dst_addr, src_port, dst_port, proto, if_in, if_out, bits}
use fwdelta.Ir.Intervals.{IntervalSet, full}
use fwdelta.Ir.Interface.{IfMatch}
use fwdelta.Ir.Rule.{Match, any_match, constrain, with_iif}
use fwdelta.Ir.Rule.WellFormed.{Fits, IsWellFormed, constrain-IsWellFormed, any_match-IsWellFormed}
use fwdelta.Nft.Values.{proto_number}
use fwdelta.Nft.Values.Fits.{addr_spec-Sound}
use fwdelta.Nft.Values.Ports.{
  port_spec-Sound, proto_spec-Sound, IsNameSet, if_spec-Sound, proto_point-Sound,
}
use fwdelta.Nft.Cursor.{Place}
use fwdelta.Nft.Cursor.Post.{Any}
use fwdelta.Nft.Cursor.Sound.{
  Sound, bind-Sound, if-Sound, pure-Sound, at-Sound, expect_word-Sound, err_at-Sound,
}
use fwdelta.Nft.Statement.{narrow, ip_match, meta_match, match_ports, l4_match}

-- The match of a rule of which `ports` tells whether ports were matched: its sets fit their fields,
-- it names no output interface, and without ports it has all of them.
pub record Admits (ports : Bool) (m : Match) : Type 0 where
  pub well_formed : IsWellFormed m
  pub no_output : m.oif ≡ IfMatch.any
  pub input_names : IsNameSet m.iif
  pub all_ports :
      ports ≡ false
      → (m.src_port_set ≡ full (bits src_port)) × (m.dst_port_set ≡ full (bits dst_port))

pub any_match-Admits : (ports : Bool) → Admits ports any_match
any_match-Admits ports = record {
  well_formed = any_match-IsWellFormed;
  no_output = refl;
  input_names = tt;
  all_ports = λ e. (refl, refl);
}

pub Admits-ports : (b : Bool) (m : Match) → Admits b m → Admits true m
Admits-ports b m h = record {
  well_formed = h.well_formed;
  no_output = h.no_output;
  input_names = h.input_names;
  all_ports = λ e. absurd (cc (e));
}

-- A field that a statement may narrow.
abbrev may_narrow : Bool → Field → Bool
may_narrow ports src_addr = true
may_narrow ports dst_addr = true
may_narrow ports src_port = ports
may_narrow ports dst_port = ports
may_narrow ports proto = true
may_narrow ports if_in = false
may_narrow ports if_out = false

narrow-Sound :
    (b : Bool) (m : Match) (f : Field) (s : IntervalSet)
    → Admits b m
    → Fits f s
    → may_narrow b f ≡ true
    → Sound (Admits b) (narrow m f s)
unfolding narrow constrain
narrow-Sound b m src_addr s h p e = pure-Sound _ (record {
  well_formed = constrain-IsWellFormed m src_addr s h.well_formed p;
  no_output = h.no_output;
  input_names = h.input_names;
  all_ports = h.all_ports;
})
narrow-Sound b m dst_addr s h p e = pure-Sound _ (record {
  well_formed = constrain-IsWellFormed m dst_addr s h.well_formed p;
  no_output = h.no_output;
  input_names = h.input_names;
  all_ports = h.all_ports;
})
narrow-Sound b m src_port s h p e = pure-Sound _ (record {
  well_formed = constrain-IsWellFormed m src_port s h.well_formed p;
  no_output = h.no_output;
  input_names = h.input_names;
  all_ports = λ e'. absurd (cc (e, e'));
})
narrow-Sound b m dst_port s h p e = pure-Sound _ (record {
  well_formed = constrain-IsWellFormed m dst_port s h.well_formed p;
  no_output = h.no_output;
  input_names = h.input_names;
  all_ports = λ e'. absurd (cc (e, e'));
})
narrow-Sound b m proto s h p e = pure-Sound _ (record {
  well_formed = constrain-IsWellFormed m proto s h.well_formed p;
  no_output = h.no_output;
  input_names = h.input_names;
  all_ports = h.all_ports;
})
narrow-Sound b m if_in s h p e = absurd (cc (e))
narrow-Sound b m if_out s h p e = absurd (cc (e))

pub with_iif-Admits :
    (b : Bool) (m : Match) (i : IfMatch) → Admits b m → IsNameSet i → Admits b (with_iif m i)
with_iif-Admits b m i h p = record {
  well_formed = record {
    src_addr_fits = h.well_formed.src_addr_fits;
    dst_addr_fits = h.well_formed.dst_addr_fits;
    src_port_fits = h.well_formed.src_port_fits;
    dst_port_fits = h.well_formed.dst_port_fits;
    proto_fits = h.well_formed.proto_fits;
  };
  no_output = h.no_output;
  input_names = p;
  all_ports = h.all_ports;
}

-- The protocols that have ports in a statement.
abbrev pub is_l4_word : Text → Bool
is_l4_word w = is_one_of ("tcp" ∷ "udp" ∷ []) w

module _ (file src : Text) where
  pub ip_match-Sound : (b : Bool) (m : Match) → Admits b m → Sound (Admits b) (ip_match file src m)
  unfolding ip_match
  ip_match-Sound b m h = bind-Sound Any at-Sound (λ start u.
      bind-Sound Any (expect_word-Sound file src) (λ what v.
        if-Sound (is_literal "saddr" what)
          (λ e.
            bind-Sound (Fits src_addr) (addr_spec-Sound file src)
              (λ s p. narrow-Sound b m src_addr s h p refl))
          (λ e.
            if-Sound (is_literal "daddr" what)
              (λ e.
                bind-Sound (Fits src_addr) (addr_spec-Sound file src)
                  (λ s p. narrow-Sound b m dst_addr s h p refl))
              (λ e.
                if-Sound (is_literal "protocol" what)
                  (λ e.
                    bind-Sound (Fits proto) (proto_spec-Sound file src)
                      (λ s p. narrow-Sound b m proto s h p refl))
                  (λ e. err_at-Sound file src _ _ _)))))

  pub meta_match-Sound :
      (b : Bool) (m : Match) (start : Place)
      → Admits b m
      → Sound (Admits b) (meta_match file src m start)
  unfolding meta_match
  meta_match-Sound b m start h = bind-Sound Any (expect_word-Sound file src) (λ what v.
      if-Sound (is_literal "l4proto" what)
        (λ e.
          bind-Sound (Fits proto) (proto_spec-Sound file src)
            (λ s p. narrow-Sound b m proto s h p refl))
        (λ e.
          if-Sound (is_literal "iifname" what)
            (λ e.
              bind-Sound IsNameSet (if_spec-Sound file src)
                (λ s p. pure-Sound (with_iif m s) (with_iif-Admits b m s h p)))
            (λ e.
              if-Sound (is_literal "oifname" what) (λ e. err_at-Sound file src _ _ _)
                (λ e. err_at-Sound file src _ _ _))))

  match_ports-Sound :
      (m : Match) (w : Text) (f : Field) (n : ℕ)
      → Admits true m
      → proto_number w ≡ some n
      → n ≤ 255
      → ((s : IntervalSet) → Fits src_port s → Fits f s)
      → may_narrow true f ≡ true
      → Sound (Admits true) (match_ports file src m w f)
  unfolding match_ports
  match_ports-Sound m w f n h e le c k = rw (e) (
      bind-Sound (Fits src_port) (port_spec-Sound file src) (λ ports p.
        bind-Sound (Fits proto) (proto_point-Sound file src n le) (λ number q.
          bind-Sound (Admits true) (narrow-Sound true m proto number h q refl)
            (λ m' h'. narrow-Sound true m' f ports h' (c ports p) k))))

  l4_named-Sound :
      (m : Match) (w : Text) (n : ℕ)
      → Admits true m
      → proto_number w ≡ some n
      → n ≤ 255
      → Sound (Admits true) (l4_match file src m w)
  unfolding l4_match
  l4_named-Sound m w n h e le = bind-Sound Any at-Sound (λ start u.
      bind-Sound Any (expect_word-Sound file src) (λ what v.
        if-Sound (is_literal "sport" what)
          (λ i. match_ports-Sound m w src_port n h e le (λ s p. p) refl)
          (λ i.
            if-Sound (is_literal "dport" what)
              (λ j. match_ports-Sound m w dst_port n h e le (λ s p. p) refl)
              (λ j. err_at-Sound file src _ _ _))))

  number_of_tcp : proto_number (codes "tcp") ≡ some 6
  unfolding proto_number cmp
  number_of_tcp = refl

  number_of_udp : proto_number (codes "udp") ≡ some 17
  unfolding proto_number cmp
  number_of_udp = refl

  pub l4_match-Sound :
      (b : Bool) (m : Match) (w : Text)
      → Admits b m
      → is_l4_word w ≡ true
      → Sound (Admits true) (l4_match file src m w)
  l4_match-Sound b m w h e = elim (Bool-cases (is_literal "tcp" w)) [
    | inl t ↦
        l4_named-Sound m w 6 (Admits-ports b m h)
          (subst (λ x. proto_number x ≡ some 6) ((text_eq_iff (codes "tcp") w).0 t) number_of_tcp)
          (omega arith)
    | inr t ↦
        l4_named-Sound m w 17 (Admits-ports b m h)
          (subst (λ x. proto_number x ≡ some 17) ((text_eq_iff (codes "udp") w).0 (ground (arith)))
            number_of_udp)
          (omega arith)
  ]
