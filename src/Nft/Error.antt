-- ===== src/Nft/Error.antt =====
-- crates/nft/src/error.rs: why a file is rejected, and where. Messages are values instead of text;
-- their hints and their rendering are not modelled.
use fwdelta.Prelude.{ℕ, []}
use fwdelta.Prelude.Text.{Text}
use fwdelta.Ir.Rule.{Action}
use fwdelta.Nft.Token.{Tok}

pub data Cause : Type 0 where
  syntax out_of_scope unimplemented soundness : Cause

-- The messages of the tokeniser, of the primitives of the parser, of its value forms, of its
-- statements, and of its chains and tables. `Tok` is the token that the message names.
pub data Message : Type 0 where
  unterminated_string number_too_large expected_a_number : Message
  unexpected_character wrong_parts large_octet : ℕ → Message
  expected_symbol : ℕ → Tok → Message
  expected_name expected_number : Tok → Message
  named_sets expected_address backwards : Message
  long_prefix large_port large_protocol : ℕ → Message
  service_name unknown_protocol wildcard : Text → Message
  expected_protocol expected_interface : Tok → Message
  ip_field meta_field unsupported_ports ifindex not_of_the_header jump_to not_a_verdict translation
        not_in_subset :
      Text → Message
  port_field : Text → Text → Message
  meta_oifname iifname_on_output oifname_unsupported connection_tracking expected_comment : Message
  second_verdict : Action → Message
  no_verdict never_matches ports_without_protocol : Message
  unexpected_token expected_table expected_chain : Tok → Message
  unsupported_item unsupported_declaration unsupported_family unknown_family regular_chain
        chain_type unsupported_hook unknown_hook wrong_policy :
      Text → Message
  nat_table expected_hook expected_priority expected_priority_value end_in_table end_in_chain :
      Message

pub record ParseError : Type 0 where
  pub file : Text
  pub line : ℕ
  pub column : ℕ
  pub cause : Cause
  pub message : Message
  pub snippet : Text

-- `ParseError::new`
abbrev pub new : Text → ℕ → ℕ → Cause → Message → ParseError
new file line column cause message = record {
  file = file;
  line = line;
  column = column;
  cause = cause;
  message = message;
  snippet = [];
}
