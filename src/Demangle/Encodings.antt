-- ===== src/Demangle/Encodings.antt =====
-- demangle.cc: special names, encodings and local names.
use ng_log.Prelude.{codes}
use ng_log.Demangle.Output.{disable_append, restore_append}
use ng_log.Demangle.Parser.{Parser, act, ◌&◌, ◌or◌, optional, retry, reading}
use ng_log.Demangle.Tokens.{parse_one_char_token, parse_two_char_token, parse_char_class}
use ng_log.Demangle.Numerals.{parse_non_negative_number, parse_seq_id, parse_discriminator}
use ng_log.Demangle.Names.{NonTerminal, encoding, name, type, print, parse_requires_clause}
use ng_log.Demangle.Types.{parse_bare_function_type}
use ng_log.Demangle.Qualified.{parse_call_offset, print_ref_qualifier}

module _ (rec : NonTerminal → Parser) where
  unfoldable pub special_tables : Parser
  special_tables =
      retry (parse_two_char_token b'G' b'V' & rec name)
      or retry (
          parse_two_char_token b'G' b'R'
          & rec name
          & optional parse_seq_id
          & parse_one_char_token b'_')
      or retry (
          parse_two_char_token b'G' b'T'
          & parse_one_char_token b't'
          & print "transaction clone for "
          & rec encoding)
      or retry (parse_two_char_token b'T' b'W' & print "TLS wrapper function for " & rec name)
      or retry (parse_two_char_token b'T' b'H' & print "TLS init function for " & rec name)
      or retry (parse_one_char_token b'T' & parse_char_class (codes "VTIS") & rec type)

  unfoldable pub special_thunks : Parser
  special_thunks =
      retry (parse_two_char_token b'T' b'c' & parse_call_offset & parse_call_offset & rec encoding)
      or retry (parse_one_char_token b'T' & parse_call_offset & rec encoding)
      or retry (
          reading λ copy.
            parse_two_char_token b'T' b'C'
            & rec type
            & parse_non_negative_number
            & parse_one_char_token b'_'
            & act disable_append
            & rec type
            & act (restore_append copy.append))
      or retry (parse_one_char_token b'T' & parse_char_class (codes "FJ") & rec type)
      or retry (parse_two_char_token b'G' b'A' & rec encoding)
      or retry (
          parse_one_char_token b'T'
          & parse_char_class (codes "hv")
          & parse_call_offset
          & rec encoding)

  unfoldable pub parse_special_name : Parser
  parse_special_name = special_tables or special_thunks

  unfoldable pub parse_encoding_body : Parser
  parse_encoding_body =
      retry (
        rec name
        & optional (parse_requires_clause rec)
        & parse_bare_function_type rec
        & act print_ref_qualifier
        & optional (parse_requires_clause rec))
      or retry (rec name or parse_special_name)

  unfoldable pub parse_local_name_body : Parser
  parse_local_name_body =
      retry (
        parse_one_char_token b'Z'
        & rec encoding
        & parse_one_char_token b'E'
        & print "::"
        & rec name
        & optional parse_discriminator)
      or retry (
          parse_one_char_token b'Z'
          & rec encoding
          & parse_two_char_token b'E' b's'
          & optional parse_discriminator)
      or retry (
          parse_one_char_token b'Z'
          & rec encoding
          & parse_two_char_token b'E' b'd'
          & optional parse_non_negative_number
          & parse_one_char_token b'_'
          & print "::"
          & rec name
          & optional parse_discriminator)
