-- ===== src/Demangle/Restores.antt =====
-- demangle.cc: the non-terminals restore the state when they fail.
use ng_log.Prelude.{ℕ, zero, suc, ◌≡◌, false, some}
use ng_log.Demangle.Machine.{Machine}
use ng_log.Demangle.Parser.{Parser, encodings, types, arguments, expressions, locals}
use ng_log.Demangle.Names.{
  NonTerminal, encoding, name, nested_name, prefix, type, template_arg, braced_expression,
  expression, local_name,
}
use ng_log.Demangle.Types.{parse_template_param, parse_type_body}
use ng_log.Demangle.Qualified.{
  parse_name_body, parse_nested_name_body, parse_prefix_body, parse_unscoped_name,
  parse_unqualified_name,
}
use ng_log.Demangle.Encodings.{parse_encoding_body, parse_local_name_body}
use ng_log.Demangle.Expressions.{
  parse_braced_expression_body, parse_template_arg_body, parse_function_param, parse_expr_primary,
  parse_requires_expression,
}
use ng_log.Demangle.Forms.{
  expression_atoms, expression_forms, expression_casts, expression_allocations, expression_folds,
  expression_calls, expression_members, expression_operators, expression_scopes,
}
use ng_log.Demangle.Grammar.{body, parse}
use ng_log.Demangle.Backtracking.{
  Backtracks, Kept-state, retry-Backtracks, or-Backtracks, &-Backtracks, two_char-Backtracks,
  print-Total, optional-Total, Total-Backtracks, with_level-Backtracks, with_depth-Backtracks,
}

ruleset undo_rules = (
  retry-Backtracks, or-Backtracks, &-Backtracks, two_char-Backtracks, print-Total, optional-Total,
)

template_param-Backtracks : Backtracks parse_template_param
unfolding parse_template_param
template_param-Backtracks = search undo_rules

module _ (rec : NonTerminal → Parser) where
  unscoped_name-Backtracks : Backtracks (parse_unscoped_name rec)
  unfolding parse_unscoped_name parse_unqualified_name
  unscoped_name-Backtracks = search undo_rules

  atoms-Backtracks : Backtracks (expression_atoms rec)
  unfolding expression_atoms parse_function_param parse_expr_primary parse_requires_expression
  atoms-Backtracks = search (undo_rules, template_param-Backtracks) depth 14

  forms-Backtracks : Backtracks (expression_forms rec)
  unfolding expression_forms expression_casts expression_allocations expression_folds
      expression_calls expression_members expression_operators expression_scopes
  forms-Backtracks = search undo_rules depth 20

  body-Backtracks :
      ((non_terminal : NonTerminal) → Backtracks (rec non_terminal))
      → (non_terminal : NonTerminal) → Backtracks (body rec non_terminal)
  unfolding body parse_encoding_body parse_name_body parse_nested_name_body parse_prefix_body
      parse_type_body parse_template_arg_body parse_braced_expression_body parse_local_name_body
  body-Backtracks h encoding = with_level-Backtracks encodings (search undo_rules)
  body-Backtracks h name = search (undo_rules, h, unscoped_name-Backtracks)
  body-Backtracks h nested_name = search undo_rules
  body-Backtracks h prefix = Total-Backtracks (optional-Total _)
  body-Backtracks h type = with_level-Backtracks types (search undo_rules)
  body-Backtracks h template_arg = with_level-Backtracks arguments (search undo_rules)
  body-Backtracks h braced_expression = search undo_rules
  body-Backtracks h expression =
      or-Backtracks atoms-Backtracks (with_level-Backtracks expressions forms-Backtracks)
  body-Backtracks h local_name = with_level-Backtracks locals (search undo_rules)

parse-Backtracks : (n : ℕ) (non_terminal : NonTerminal) → Backtracks (parse n non_terminal)
unfolding parse
parse-Backtracks zero non_terminal = record { at = λ m. tt }
parse-Backtracks (suc n) non_terminal = record {
  at = λ m. (with_depth-Backtracks (body-Backtracks _ (parse-Backtracks n) non_terminal)).at m;
}

-- Whatever a non-terminal has tried, and however deep, when it reports a failure every field of
-- the parsing state (the cursor, the output position, the levels, the flags) is what it was.
pub parse-restores :
    (n : ℕ) (non_terminal : NonTerminal) (m m' : Machine)
    → parse n non_terminal m ≡ some (false, m')
    → m'.state ≡ m.state
parse-restores n non_terminal m m' e =
    Kept-state m m' (parse n non_terminal m) ((parse-Backtracks n non_terminal).at m) e
