-- ===== src/Demangle/Expressions.antt =====
-- demangle.cc: expressions and unresolved names.
use mathlib.Core.Option.{none, some}
use ng_log.Prelude.{ℕ, Bool, true, false, ◌&&◌, ◌||◌, List, codes, ◌==◌, if◌then◌else◌}
use ng_log.Demangle.Machine.{
  Machine, first, second, is_digit, str_prefix, at_least_num_chars_remaining,
}
use ng_log.Demangle.Output.{disable_append, restore_append}
use ng_log.Demangle.Parser.{
  Parser, succeed, fail, act, ◌&◌, ◌or◌, optional, retry, reading, branch, zero_or_more,
  one_or_more, parse_until, if_parsed,
}
use ng_log.Demangle.Tokens.{parse_one_char_token, parse_two_char_token}
use ng_log.Demangle.Numerals.{
  parse_number, parse_non_negative_number, parse_float_number, parse_source_name,
}
use ng_log.Demangle.Operators.{Arity, unary, binary, ternary, other, operator_list}
use ng_log.Demangle.Names.{
  NonTerminal, encoding, name, type, template_arg, braced_expression, expression, print,
  find_operator, parse_operator_name,
}
use ng_log.Demangle.Types.{
  parse_template_param, parse_substitution, parse_cv_qualifiers, parse_template_args,
  parse_array_type,
}
use ng_log.Demangle.Qualified.{parse_mangled_name}

abbrev same_arity : Arity → Arity → Bool
same_arity unary unary = true
same_arity binary binary = true
same_arity ternary ternary = true
same_arity other other = true
same_arity _ _ = false

unfoldable pub operator_has_arity : List ℕ → Arity → Bool
unfolding str_prefix at_least_num_chars_remaining is_digit find_operator
operator_has_arity op arity =
    if str_prefix op (codes "cv")
      || (str_prefix op (codes "li")
          || (first op == b'v' && (at_least_num_chars_remaining op 2 && is_digit (second op))))
    then same_arity arity unary
    else elim (find_operator (first op) (second op) operator_list) [
      | none ↦ false
      | some o ↦ same_arity o.arity arity
    ]

unfoldable pub parse_function_param : Parser
parse_function_param =
    retry (
      parse_two_char_token b'f' b'p'
      & optional parse_cv_qualifiers
      & (parse_one_char_token b'T'
          or (optional parse_non_negative_number & parse_one_char_token b'_')))
    or retry (
        parse_two_char_token b'f' b'L'
        & parse_non_negative_number
        & parse_one_char_token b'p'
        & optional parse_cv_qualifiers
        & optional parse_non_negative_number
        & parse_one_char_token b'_')

-- `state->mangled_cur[0] == c || state->mangled_cur[0] == '\0'`
unfoldable pub at_char_or_end : ℕ → Machine → Bool
at_char_or_end c m = first m.mangled_cur == c || first m.mangled_cur == 0

unfoldable pub at_char : ℕ → Machine → Bool
at_char c m = first m.mangled_cur == c

module _ (rec : NonTerminal → Parser) where
  unfoldable pub parse_operator_name_with_arity : Arity → Parser
  parse_operator_name_with_arity arity =
      branch (λ m. operator_has_arity m.mangled_cur arity) (parse_operator_name rec) fail

  unfoldable pub parse_simple_id : Parser
  parse_simple_id = retry (parse_source_name & optional (parse_template_args rec))

  unfoldable pub parse_unresolved_type : Parser
  parse_unresolved_type =
      retry (parse_template_param & optional (parse_template_args rec))
      or retry (parse_two_char_token b'S' b't' & print "std::" & parse_simple_id)
      or retry parse_substitution
      or retry (
          (parse_two_char_token b'D' b't' or parse_two_char_token b'D' b'T')
          & rec expression
          & parse_one_char_token b'E')

  unfoldable pub parse_base_unresolved_name : Parser
  parse_base_unresolved_name =
      retry parse_simple_id
      or retry (
          parse_two_char_token b'o' b'n'
          & parse_operator_name rec
          & optional (parse_template_args rec))
      or retry (parse_two_char_token b'd' b'n' & (parse_unresolved_type or parse_simple_id))

  unfoldable pub parse_unresolved_name : Parser
  parse_unresolved_name =
      retry parse_base_unresolved_name
      or retry (optional (parse_two_char_token b'g' b's') & parse_base_unresolved_name)
      or retry (
          optional (parse_two_char_token b'g' b's')
          & parse_two_char_token b's' b'r'
          & one_or_more parse_simple_id
          & parse_one_char_token b'E'
          & parse_base_unresolved_name)
      or retry (
          parse_two_char_token b's' b'r'
          & one_or_more parse_simple_id
          & parse_one_char_token b'E'
          & parse_base_unresolved_name)
      or retry (parse_two_char_token b's' b'r' & parse_unresolved_type & parse_base_unresolved_name)
      or retry (
          parse_two_char_token b's' b'r'
          & parse_one_char_token b'N'
          & parse_unresolved_type
          & one_or_more parse_simple_id
          & parse_one_char_token b'E'
          & parse_base_unresolved_name)

  unfoldable pub parse_braced_expression_body : Parser
  parse_braced_expression_body =
      retry (rec expression)
      or retry (parse_two_char_token b'd' b'i' & parse_source_name & rec braced_expression)
      or retry (parse_two_char_token b'd' b'x' & rec expression & rec braced_expression)
      or retry
          (parse_two_char_token b'd' b'X' & rec expression & rec expression & rec braced_expression)

  -- `ParseExpressionSequence(state, terminator, false)`, and the one that wants an expression
  unfoldable pub parse_expression_sequence : ℕ → Bool → Parser
  parse_expression_sequence terminator require_one =
      branch (λ m. at_char terminator m && require_one) fail
        (parse_until (at_char terminator) (rec expression))

  unfoldable pub parse_braced_expression_sequence : Parser
  parse_braced_expression_sequence = parse_until (at_char b'E') (rec braced_expression)

  unfoldable pub parse_requirement : Parser
  parse_requirement =
      parse_one_char_token b'X'
      & rec expression
      & optional (parse_one_char_token b'N')
      & if_parsed (parse_one_char_token b'R') (rec name) succeed

  -- The head, `rq` or the parameters of `rQ`.
  unfoldable pub parse_requires_head : Parser
  parse_requires_head =
      if_parsed (parse_two_char_token b'r' b'Q')
        (parse_until (at_char_or_end b'_') (rec type) & parse_one_char_token b'_')
        (parse_two_char_token b'r' b'q')

  unfoldable pub parse_requires_expression : Parser
  parse_requires_expression = retry (
      parse_requires_head
      & branch (at_char_or_end b'E') fail (parse_until (at_char_or_end b'E') parse_requirement)
      & parse_one_char_token b'E')

  unfoldable pub parse_initializer : Parser
  parse_initializer =
      parse_two_char_token b'p' b'i'
      & parse_expression_sequence b'E' false
      & parse_one_char_token b'E'

  unfoldable pub parse_expr_primary : Parser
  parse_expr_primary =
      retry (parse_one_char_token b'L' & rec type & parse_number & parse_one_char_token b'E')
      or retry (
          parse_one_char_token b'L'
          & rec type
          & parse_float_number
          & (parse_one_char_token b'E'
              or (parse_one_char_token b'_' & parse_float_number & parse_one_char_token b'E')))
      or retry
          (parse_one_char_token b'L' & parse_two_char_token b'D' b'n' & parse_one_char_token b'E')
      or retry (parse_one_char_token b'L' & parse_mangled_name rec & parse_one_char_token b'E')
      or retry (parse_two_char_token b'L' b'Z' & rec encoding & parse_one_char_token b'E')
      or retry (
          parse_one_char_token b'L'
          & reading λ previous.
            act disable_append
            & parse_array_type rec
            & parse_one_char_token b'E'
            & act (restore_append previous.append))

  unfoldable pub parse_template_arg_body : Parser
  parse_template_arg_body =
      retry (
        (parse_one_char_token b'I' or parse_one_char_token b'J')
        & zero_or_more (rec template_arg)
        & parse_one_char_token b'E')
      or retry (rec type or parse_expr_primary)
      or retry (parse_one_char_token b'X' & rec expression & parse_one_char_token b'E')
