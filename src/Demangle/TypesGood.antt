-- ===== src/Demangle/TypesGood.antt =====
-- Operators, template arguments and types by the rules.
use ng_log.Prelude.{ℕ, Bool}
use ng_log.Demangle.Parser.{Parser}
use ng_log.Demangle.Names.{NonTerminal, parse_operator_name}
use ng_log.Demangle.Types.{
  parse_template_args, parse_bit_int, parse_builtin_type, parse_bare_function_type,
  parse_exception_spec, parse_function_type, parse_class_enum_type, parse_array_type,
  parse_pointer_to_member_type, type_prefixes, parse_type_body,
}
use ng_log.Demangle.Moves.{Good}
use ng_log.Demangle.Acts.{token_rules}
use ng_log.Demangle.NamesGood.{AllGood, silently-Good, requires_clause-Good}
use ng_log.Demangle.Listed.{
  listed_operator-Good, template_param-Good, template_template_param-Good, substitution-Good,
  cv_qualifiers-Good, listed_builtin-Good,
}

module _ {n : ℕ} {rec : NonTerminal → Parser} (h : AllGood n rec) where
  pub operator_name-Good : {c : Bool} → Good n c (parse_operator_name rec)
  unfolding parse_operator_name
  operator_name-Good = search (token_rules, h.types, listed_operator-Good) depth 14 fits 9000

  pub template_args-Good : {c : Bool} → Good n c (parse_template_args rec)
  unfolding parse_template_args
  template_args-Good =
      search (token_rules, h.template_args, requires_clause-Good h) depth 14 fits 9000

  bit_int-Good : {c : Bool} → Good n c (parse_bit_int rec)
  unfolding parse_bit_int
  bit_int-Good = search (token_rules, h.expressions) depth 14 fits 9000

  pub builtin_type-Good : {c : Bool} → Good n c (parse_builtin_type rec)
  unfolding parse_builtin_type
  builtin_type-Good =
      search (token_rules, bit_int-Good, listed_builtin-Good, template_args-Good) depth 14 fits 9000

  pub bare_function_type-Good : {c : Bool} → Good n c (parse_bare_function_type rec)
  unfolding parse_bare_function_type
  bare_function_type-Good = search (token_rules, h.types) depth 14 fits 9000

  exception_spec-Good : {c : Bool} → Good n c (parse_exception_spec rec)
  unfolding parse_exception_spec
  exception_spec-Good =
      search (token_rules, silently-Good, h.types, h.expressions) depth 14 fits 9000

  pub function_type-Good : {c : Bool} → Good n c (parse_function_type rec)
  unfolding parse_function_type
  function_type-Good =
      search (token_rules, cv_qualifiers-Good, exception_spec-Good, bare_function_type-Good) depth
        14 fits 9000

  pub array_type-Good : {c : Bool} → Good n c (parse_array_type rec)
  unfolding parse_array_type
  array_type-Good = search (token_rules, h.types, h.expressions) depth 14 fits 9000

  pointer_to_member_type-Good : {c : Bool} → Good n c (parse_pointer_to_member_type rec)
  unfolding parse_pointer_to_member_type
  pointer_to_member_type-Good = search (token_rules, h.types) depth 14 fits 9000

  type_prefixes-Good : {c : Bool} → Good n c (type_prefixes rec)
  unfolding type_prefixes
  type_prefixes-Good =
      search (token_rules, h.types, h.names, h.expressions, cv_qualifiers-Good, template_args-Good)
        depth 16 fits 9000

  class_enum_type-Good : {c : Bool} → Good n c (parse_class_enum_type rec)
  unfolding parse_class_enum_type
  class_enum_type-Good {c} = h.names c

  pub type_body-Good : {c : Bool} → Good n c (parse_type_body rec)
  unfolding parse_type_body
  type_body-Good =
      search
        (
          token_rules, type_prefixes-Good, builtin_type-Good, function_type-Good,
          class_enum_type-Good, array_type-Good, pointer_to_member_type-Good, substitution-Good,
          template_template_param-Good, template_args-Good, template_param-Good,
        )
        depth 16 fits 9000
