-- ===== src/Demangle/Qualified.antt =====
-- demangle.cc: unqualified, unscoped and nested names, prefixes and special names.
use ng_log.Prelude.{ℕ, Bool, true, false, ◌&&◌, ◌||◌, codes, ◌==◌, if◌then◌else◌}
use ng_log.Demangle.Machine.{Machine, first, second, with_state}
use ng_log.Demangle.Output.{
  maybe_append, disable_append, restore_append, enter_nested_name, leave_nested_name,
  maybe_increase_nest_level, maybe_append_separator, maybe_cancel_last_separator,
}
use ng_log.Demangle.Parser.{
  Parser, fail, act, ◌&◌, ◌or◌, optional, retry, reading, branch, zero_or_more,
}
use ng_log.Demangle.Tokens.{parse_one_char_token, parse_two_char_token}
use ng_log.Demangle.Numerals.{parse_number, parse_non_negative_number, parse_source_name}
use ng_log.Demangle.Names.{
  NonTerminal, encoding, nested_name, prefix, type, expression, local_name, print, parse_abi_tags,
  parse_local_source_name, parse_structured_binding_name, parse_operator_name, parse_ctor_dtor_name,
}
use ng_log.Demangle.Types.{
  parse_template_param, parse_substitution, parse_cv_qualifiers, parse_template_args,
  restore_skip_separator,
}

-- `state->mangled_cur[0] == a && state->mangled_cur[1] == b`
unfoldable pub starts_with : ℕ → ℕ → Machine → Bool
starts_with a b m = first m.mangled_cur == a && second m.mangled_cur == b

-- <nv-offset> is a number; <v-offset> is two.
unfoldable pub parse_nv_offset : Parser
parse_nv_offset = parse_number

unfoldable pub parse_v_offset : Parser
parse_v_offset = retry (parse_number & parse_one_char_token b'_' & parse_number)

unfoldable pub parse_call_offset : Parser
parse_call_offset =
    retry (parse_one_char_token b'h' & parse_nv_offset & parse_one_char_token b'_')
    or retry (parse_one_char_token b'v' & parse_v_offset & parse_one_char_token b'_')

-- The text and the value of `pending_ref_qualifier` behind a function's parameters.
unfoldable pub print_ref_qualifier : Machine → Machine
print_ref_qualifier m =
    let printed =
      if m.pending_ref_qualifier == b'R'
      then maybe_append (codes " &") m
      else if m.pending_ref_qualifier == b'O'
      then maybe_append (codes " &&") m
      else m in
    with_state printed (record printed.state { pending_ref_qualifier = 0 })

unfoldable pub set_ref_qualifier : ℕ → Machine → Machine
set_ref_qualifier c m = with_state m (record m.state { pending_ref_qualifier = c })

module _ (rec : NonTerminal → Parser) where
  unfoldable pub parse_mangled_name : Parser
  parse_mangled_name = parse_two_char_token b'_' b'Z' & rec encoding

  unfoldable pub parse_unnamed_type_name : Parser
  parse_unnamed_type_name =
      retry (
        parse_two_char_token b'U' b't'
        & optional parse_non_negative_number
        & parse_one_char_token b'_')
      or retry (
          parse_two_char_token b'U' b'l'
          & reading λ previous.
            act disable_append
            & rec type
            & zero_or_more (rec type)
            & parse_one_char_token b'E'
            & optional parse_non_negative_number
            & parse_one_char_token b'_'
            & act (restore_append previous.append)
            & act (restore_skip_separator true))

  unfoldable pub parse_unqualified_name : Parser
  parse_unqualified_name =
      retry (parse_operator_name rec & optional parse_abi_tags)
      or retry (parse_ctor_dtor_name rec)
      or retry (
          branch (λ m. starts_with b'U' b'l' m || starts_with b'U' b't' m) parse_unnamed_type_name
            fail
          or branch (starts_with b'D' b'C') parse_structured_binding_name fail
          or (parse_source_name & optional parse_abi_tags)
          or (parse_local_source_name & optional parse_abi_tags))

  unfoldable pub parse_unscoped_name : Parser
  parse_unscoped_name =
      parse_unqualified_name
      or retry (parse_two_char_token b'S' b't' & print "std::" & parse_unqualified_name)

  unfoldable pub parse_unscoped_template_name : Parser
  parse_unscoped_template_name = parse_unscoped_name or parse_substitution

  unfoldable pub parse_name_body : Parser
  parse_name_body =
      rec nested_name
      or rec local_name
      or retry (parse_unscoped_template_name & parse_template_args rec)
      or parse_unscoped_name

  -- The prefix in a nested name; `ref_qualifier` was read in front of it.
  unfoldable pub nested_prefix : Machine → ℕ → Parser
  nested_prefix copy ref_qualifier =
      rec prefix
      & act (set_ref_qualifier ref_qualifier)
      & act (leave_nested_name copy.nest_level)
      & parse_one_char_token b'E'

  unfoldable pub parse_nested_name_body : Parser
  parse_nested_name_body = retry (
      reading λ copy.
        parse_one_char_token b'N'
        & act enter_nested_name
        & optional parse_cv_qualifiers
        & branch (λ m. first m.mangled_cur == b'R')
            (parse_one_char_token b'R' & nested_prefix copy b'R')
            (branch (λ m. first m.mangled_cur == b'O')
              (parse_one_char_token b'O' & nested_prefix copy b'O') (nested_prefix copy 0)))

  -- A round of the loop in `ParsePrefix`; true to continue.
  unfoldable pub prefix_round : Bool → Parser
  prefix_round has_something =
      act maybe_append_separator
      & (((parse_template_param or parse_substitution or parse_unscoped_name)
            & act maybe_increase_nest_level)
          or (act maybe_cancel_last_separator
              & ((if has_something then parse_template_args rec else fail)
                  or parse_one_char_token b'M'
                  or retry (
                      parse_one_char_token b'D'
                      & (parse_one_char_token b't' or parse_one_char_token b'T')
                      & rec expression
                      & parse_one_char_token b'E'))))

  -- `has_something` holds from the second round on.
  unfoldable pub parse_prefix_body : Parser
  parse_prefix_body = optional (prefix_round false & zero_or_more (prefix_round true))
