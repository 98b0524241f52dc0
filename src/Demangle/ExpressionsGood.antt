-- ===== src/Demangle/ExpressionsGood.antt =====
-- Expressions and unresolved names by the rules.
use ng_log.Prelude.{ℕ, Bool, false}
use ng_log.Demangle.Parser.{Parser}
use ng_log.Demangle.Operators.{Arity}
use ng_log.Demangle.Names.{NonTerminal}
use ng_log.Demangle.Expressions.{
  parse_function_param, parse_operator_name_with_arity, parse_simple_id, parse_unresolved_type,
  parse_base_unresolved_name, parse_unresolved_name, parse_braced_expression_body,
  parse_expression_sequence, parse_braced_expression_sequence, parse_requirement,
  parse_requires_head, parse_requires_expression, parse_initializer, parse_expr_primary,
  parse_template_arg_body,
}
use ng_log.Demangle.Forms.{
  expression_casts, expression_allocations, expression_folds, expression_calls, expression_members,
  expression_operators, expression_scopes, expression_atoms, expression_forms,
}
use ng_log.Demangle.Moves.{Good}
use ng_log.Demangle.Acts.{token_rules}
use ng_log.Demangle.NamesGood.{AllGood}
use ng_log.Demangle.Listed.{template_param-Good, substitution-Good, cv_qualifiers-Good}
use ng_log.Demangle.TypesGood.{operator_name-Good, template_args-Good, array_type-Good}
use ng_log.Demangle.QualifiedGood.{mangled_name-Good, unqualified_name-Good}

function_param-Good : {n : ℕ} {c : Bool} → Good n c parse_function_param
unfolding parse_function_param
function_param-Good = search (token_rules, cv_qualifiers-Good) depth 16 fits 9000

module _ {n : ℕ} {rec : NonTerminal → Parser} (h : AllGood n rec) where
  with_arity-Good : {c : Bool} (arity : Arity) → Good n c (parse_operator_name_with_arity rec arity)
  unfolding parse_operator_name_with_arity
  with_arity-Good arity = search (token_rules, operator_name-Good h)

  simple_id-Good : {c : Bool} → Good n c (parse_simple_id rec)
  unfolding parse_simple_id
  simple_id-Good = search (token_rules, template_args-Good h)

  unresolved_type-Good : {c : Bool} → Good n c (parse_unresolved_type rec)
  unfolding parse_unresolved_type
  unresolved_type-Good =
      search
        (
          token_rules,
          template_param-Good,
          template_args-Good h,
          simple_id-Good,
          substitution-Good,
          h.expressions,
        )
        depth 14 fits 9000

  base_unresolved_name-Good : {c : Bool} → Good n c (parse_base_unresolved_name rec)
  unfolding parse_base_unresolved_name
  base_unresolved_name-Good =
      search
        (
          token_rules,
          simple_id-Good,
          operator_name-Good h,
          template_args-Good h,
          unresolved_type-Good,
        )
        depth 14 fits 9000

  unresolved_name-Good : {c : Bool} → Good n c (parse_unresolved_name rec)
  unfolding parse_unresolved_name
  unresolved_name-Good =
      search (token_rules, simple_id-Good, unresolved_type-Good, base_unresolved_name-Good) depth 20
        fits 9000

  pub braced_expression_body-Good : {c : Bool} → Good n c (parse_braced_expression_body rec)
  unfolding parse_braced_expression_body
  braced_expression_body-Good =
      search (token_rules, h.expressions, h.braced_expressions) depth 14 fits 9000

  sequence-Good :
      (terminator : ℕ) (require_one : Bool)
      → Good n false (parse_expression_sequence rec terminator require_one)
  unfolding parse_expression_sequence
  sequence-Good terminator require_one = search (token_rules, h.expressions)

  braced_sequence-Good : Good n false (parse_braced_expression_sequence rec)
  unfolding parse_braced_expression_sequence
  braced_sequence-Good = search (token_rules, h.braced_expressions)

  requirement-Good : {c : Bool} → Good n c (parse_requirement rec)
  unfolding parse_requirement
  requirement-Good = search (token_rules, h.expressions, h.names) depth 12 fits 5000

  requires_head-Good : {c : Bool} → Good n c (parse_requires_head rec)
  unfolding parse_requires_head
  requires_head-Good = search (token_rules, h.types) depth 12 fits 5000

  requires_expression-Good : {c : Bool} → Good n c (parse_requires_expression rec)
  unfolding parse_requires_expression
  requires_expression-Good =
      search (token_rules, requires_head-Good, requirement-Good) depth 12 fits 5000

  initializer-Good : {c : Bool} → Good n c (parse_initializer rec)
  unfolding parse_initializer
  initializer-Good = search (token_rules, sequence-Good) depth 12 fits 5000

  expr_primary-Good : {c : Bool} → Good n c (parse_expr_primary rec)
  unfolding parse_expr_primary
  expr_primary-Good =
      search (token_rules, h.types, h.encodings, mangled_name-Good h, array_type-Good h) depth 18
        fits 9000

  pub template_arg_body-Good : {c : Bool} → Good n c (parse_template_arg_body rec)
  unfolding parse_template_arg_body
  template_arg_body-Good =
      search (token_rules, h.template_args, h.types, h.expressions, expr_primary-Good) depth 14 fits
        9000

  casts-Good : {c : Bool} → Good n c (expression_casts rec)
  unfolding expression_casts
  casts-Good = search (token_rules, h.types, h.expressions, sequence-Good) depth 22 fits 9000

  allocations-Good : {c : Bool} → Good n c (expression_allocations rec)
  unfolding expression_allocations
  allocations-Good =
      search (token_rules, h.types, h.expressions, initializer-Good) depth 16 fits 9000

  folds-Good : {c : Bool} → Good n c (expression_folds rec)
  unfolding expression_folds
  folds-Good =
      search (token_rules, operator_name-Good h, h.expressions, h.template_args) depth 16 fits 9000

  calls-Good : {c : Bool} → Good n c (expression_calls rec)
  unfolding expression_calls
  calls-Good =
      search
        (
          token_rules, sequence-Good, unresolved_name-Good, h.types, h.expressions,
          braced_sequence-Good,
        )
        depth 16 fits 9000

  members-Good : {c : Bool} → Good n c (expression_members rec)
  unfolding expression_members
  members-Good =
      search
        (
          token_rules, h.expressions, template_param-Good, function_param-Good, h.template_args,
          unresolved_name-Good,
        )
        depth 16 fits 9000

  operators-Good : {c : Bool} → Good n c (expression_operators rec)
  unfolding expression_operators
  operators-Good = search (token_rules, with_arity-Good, h.expressions) depth 16 fits 9000

  scopes-Good : {c : Bool} → Good n c (expression_scopes rec)
  unfolding expression_scopes
  scopes-Good =
      search (token_rules, h.types, h.expressions, unqualified_name-Good h, template_args-Good h)
        depth 16 fits 9000

  pub atoms-Good : {c : Bool} → Good n c (expression_atoms rec)
  unfolding expression_atoms
  atoms-Good = search (
    token_rules, template_param-Good, function_param-Good, expr_primary-Good,
    requires_expression-Good,
  )

  pub forms-Good : {c : Bool} → Good n c (expression_forms rec)
  unfolding expression_forms
  forms-Good =
      search
        (
          token_rules, casts-Good, allocations-Good, folds-Good, calls-Good, members-Good,
          operators-Good, scopes-Good,
        )
        depth 9
