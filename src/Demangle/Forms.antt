-- ===== src/Demangle/Forms.antt =====
-- demangle.cc: `ParseExpression`, part by part.
use ng_log.Prelude.{true, false}
use ng_log.Demangle.Parser.{Parser, fail, ◌&◌, ◌or◌, optional, retry, branch, zero_or_more, again}
use ng_log.Demangle.Tokens.{parse_one_char_token, parse_two_char_token}
use ng_log.Demangle.Numerals.{parse_source_name}
use ng_log.Demangle.Operators.{unary, binary, ternary}
use ng_log.Demangle.Names.{NonTerminal, type, template_arg, expression, parse_operator_name}
use ng_log.Demangle.Types.{parse_template_param, parse_template_args}
use ng_log.Demangle.Qualified.{parse_unqualified_name}
use ng_log.Demangle.Expressions.{
  parse_function_param, at_char_or_end, parse_operator_name_with_arity, parse_unresolved_name,
  parse_expression_sequence, parse_braced_expression_sequence, parse_requires_expression,
  parse_initializer, parse_expr_primary,
}

module _ (rec : NonTerminal → Parser) where
  -- `ParseExpression`, part by part in the order of the source.
  unfoldable pub expression_casts : Parser
  expression_casts =
      retry (
        (parse_two_char_token b'p' b'p' or parse_two_char_token b'm' b'm')
        & parse_one_char_token b'_'
        & rec expression)
      or retry (
          again (parse_two_char_token b'c' b'v' & rec type) (rec expression) (
            parse_two_char_token b'c' b'v'
            & rec type
            & parse_one_char_token b'_'
            & parse_expression_sequence rec b'E' false
            & parse_one_char_token b'E'))
      or retry (parse_two_char_token b't' b'i' & rec type)
      or retry (parse_two_char_token b't' b'e' & rec expression)
      or retry (parse_two_char_token b'a' b't' & rec type)
      or retry (parse_two_char_token b'a' b'z' & rec expression)
      or retry (parse_two_char_token b'n' b'x' & rec expression)
      or retry (parse_two_char_token b't' b'w' & rec expression)
      or retry (parse_two_char_token b't' b'r')

  unfoldable pub expression_allocations : Parser
  expression_allocations =
      retry (
        optional (parse_one_char_token b'g')
        & (parse_two_char_token b'n' b'w' or parse_two_char_token b'n' b'a')
        & zero_or_more (branch (at_char_or_end b'_') fail (rec expression))
        & parse_one_char_token b'_'
        & rec type
        & (parse_one_char_token b'E' or parse_initializer rec))
      or retry (
          optional (parse_one_char_token b'g')
          & (parse_two_char_token b'd' b'l' or parse_two_char_token b'd' b'a')
          & rec expression)

  unfoldable pub expression_folds : Parser
  expression_folds =
      retry (
        (parse_two_char_token b'f' b'l' or parse_two_char_token b'f' b'r')
        & parse_operator_name rec
        & rec expression)
      or retry (
          (parse_two_char_token b'f' b'L' or parse_two_char_token b'f' b'R')
          & parse_operator_name rec
          & rec expression
          & rec expression)
      or retry (
          parse_one_char_token b'u'
          & parse_source_name
          & zero_or_more (rec template_arg)
          & parse_one_char_token b'E')

  unfoldable pub expression_calls : Parser
  expression_calls =
      retry (
        parse_two_char_token b'c' b'l'
        & parse_expression_sequence rec b'E' true
        & parse_one_char_token b'E')
      or retry (
          parse_two_char_token b'c' b'p'
          & parse_unresolved_name rec
          & parse_expression_sequence rec b'E' false
          & parse_one_char_token b'E')
      or retry (
          (parse_two_char_token b'd' b'c'
            or parse_two_char_token b's' b'c'
            or parse_two_char_token b'c' b'c'
            or parse_two_char_token b'r' b'c')
          & rec type
          & rec expression)
      or retry (
          parse_two_char_token b't' b'l'
          & rec type
          & parse_braced_expression_sequence rec
          & parse_one_char_token b'E')
      or retry (
          parse_two_char_token b'i' b'l'
          & parse_braced_expression_sequence rec
          & parse_one_char_token b'E')

  unfoldable pub expression_members : Parser
  expression_members =
      retry (parse_two_char_token b'd' b's' & rec expression & rec expression)
      or retry (parse_two_char_token b's' b'Z' & (parse_template_param or parse_function_param))
      or retry (
          parse_two_char_token b's' b'P'
          & zero_or_more (rec template_arg)
          & parse_one_char_token b'E')
      or retry (parse_two_char_token b'd' b't' & rec expression & parse_unresolved_name rec)
      or retry (parse_two_char_token b'p' b't' & rec expression & parse_unresolved_name rec)
      or retry (parse_unresolved_name rec)

  unfoldable pub expression_operators : Parser
  expression_operators =
      retry (
        parse_operator_name_with_arity rec ternary
        & rec expression
        & rec expression
        & rec expression)
      or retry (parse_operator_name_with_arity rec binary & rec expression & rec expression)
      or retry (parse_operator_name_with_arity rec unary & rec expression)

  unfoldable pub expression_scopes : Parser
  expression_scopes =
      retry (parse_two_char_token b's' b't' & rec type)
      or retry (
          parse_two_char_token b's' b'r'
          & parse_source_name
          & parse_one_char_token b'E'
          & parse_unqualified_name rec
          & parse_template_args rec)
      or retry (
          parse_two_char_token b's' b'r'
          & rec type
          & parse_unqualified_name rec
          & parse_template_args rec)
      or retry (parse_two_char_token b's' b'r' & rec type & parse_unqualified_name rec)
      or retry (parse_two_char_token b's' b'p' & rec expression)

  -- In front of the guard on the expression level.
  unfoldable pub expression_atoms : Parser
  expression_atoms =
      parse_template_param
      or parse_function_param
      or parse_expr_primary rec
      or parse_requires_expression rec

  unfoldable pub expression_forms : Parser
  expression_forms =
      expression_casts or expression_allocations or expression_folds or expression_calls
      or expression_members or expression_operators or expression_scopes
