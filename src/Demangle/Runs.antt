-- ===== src/Demangle/Runs.antt =====
-- demangle.cc: whole runs of `Demangle`.
use ng_log.Prelude.{ℕ, ◌≡◌, refl, true, false, List, [], ◌∷◌, ◌++◌, some, codes, contains}
use ng_log.Demangle.Machine.{
  is_lower, is_alpha, is_digit, at_least_num_chars_remaining, str_prefix, init_state,
}
use ng_log.Demangle.Output.{
  read, overflow, put, terminate, append_from, append_text, separate_angles, remember_name,
  append_name, maybe_append_with_length, maybe_append, enter_nested_name, leave_nested_name,
  disable_append, restore_append, increase, maybe_increase_nest_level, is_nested,
  maybe_append_separator, maybe_cancel_last_separator, identifier_is_anonymous_namespace,
}
use ng_log.Demangle.Parser.{
  succeed, fail, act, ◌&◌, ◌or◌, optional, retry, reading, branch, if_parsed, again, repeat,
  zero_or_more, one_or_more, until, parse_until, level, set_level, decrement, leave_level,
  enter_level, with_level, enter_depth, leave_depth, use_step, with_depth,
}
use ng_log.Demangle.Tokens.{
  parse_one_char_token, parse_two_char_token, parse_char_class, skip_while,
}
use ng_log.Demangle.Numerals.{
  parse_digits, parse_sign, parse_number, scan_number, negate, finish_number, parse_number_value,
  parse_non_negative_number, parse_non_negative_value, parse_positive_number, parse_positive_value,
  is_float_digit, parse_float_number, is_seq_digit, parse_seq_id, skip_text, append_identifier,
  identifier_of_size, parse_identifier, number_then, parse_source_name, long_discriminator,
  short_discriminator, parse_discriminator,
}
use ng_log.Demangle.Names.{
  type, print, parse_abi_tag, silently, parse_abi_tags, parse_local_source_name, binding_item,
  parse_structured_binding_name, find_operator, print_operator, listed_operator,
  parse_listed_operator, print_prev_name, has_prev_name, parse_requires_clause, parse_operator_name,
  parse_ctor_dtor_name,
}
use ng_log.Demangle.Types.{
  parse_template_param, find_substitution, print_substitution, listed_substitution,
  parse_substitution, parse_template_template_param, parse_cv_qualifiers, find_builtin,
  listed_builtin, parse_listed_builtin, restore_skip_separator, parse_template_args, parse_bit_int,
  parse_builtin_type, parse_bare_function_type, parse_exception_spec, parse_function_type,
  parse_class_enum_type, parse_array_type, parse_pointer_to_member_type, type_prefixes,
  parse_type_body,
}
use ng_log.Demangle.Qualified.{
  starts_with, parse_nv_offset, parse_v_offset, parse_call_offset, print_ref_qualifier,
  set_ref_qualifier, parse_mangled_name, parse_unnamed_type_name, parse_unqualified_name,
  parse_unscoped_name, parse_unscoped_template_name, parse_name_body, nested_prefix,
  parse_nested_name_body, prefix_round, parse_prefix_body,
}
use ng_log.Demangle.Encodings.{
  special_tables, special_thunks, parse_special_name, parse_encoding_body, parse_local_name_body,
}
use ng_log.Demangle.Expressions.{
  operator_has_arity, parse_function_param, at_char_or_end, at_char, parse_operator_name_with_arity,
  parse_simple_id, parse_unresolved_type, parse_base_unresolved_name, parse_unresolved_name,
  parse_braced_expression_body, parse_expression_sequence, parse_braced_expression_sequence,
  parse_requirement, parse_requires_head, parse_requires_expression, parse_initializer,
  parse_expr_primary, parse_template_arg_body,
}
use ng_log.Demangle.Forms.{
  expression_casts, expression_allocations, expression_folds, expression_calls, expression_members,
  expression_operators, expression_scopes, expression_atoms, expression_forms,
}
use ng_log.Demangle.Grammar.{
  body, parse, parse_suffix, parse_top_level_mangled_name, initial, finish, demangle,
}

-- For every buffer of five bytes `Demangle` returns true for `_ZTSDTLDnEE`, with the four letters
-- that a failed alternative has written and the caller's fifth byte behind them, not a null
-- character.
demangle-unterminated :
    (a b c d e : ℕ)
    → demangle (codes "_ZTSDTLDnEE") (a ∷ b ∷ c ∷ d ∷ e ∷ [])
      ≡ some (true, b'd' ∷ b'e' ∷ b'c' ∷ b'l' ∷ e ∷ [])
unfolding contains is_lower is_alpha is_digit at_least_num_chars_remaining str_prefix init_state
    read overflow put terminate append_from append_text separate_angles remember_name append_name
    maybe_append_with_length maybe_append enter_nested_name leave_nested_name disable_append
    restore_append increase maybe_increase_nest_level is_nested maybe_append_separator
    maybe_cancel_last_separator identifier_is_anonymous_namespace succeed fail act ◌&◌ ◌or◌ optional
    retry reading branch if_parsed again repeat zero_or_more one_or_more until parse_until level
    set_level decrement leave_level enter_level with_level enter_depth leave_depth use_step
    with_depth parse_one_char_token parse_two_char_token parse_char_class skip_while parse_digits
    parse_sign parse_number scan_number negate finish_number parse_number_value
    parse_non_negative_number parse_non_negative_value parse_positive_number parse_positive_value
    is_float_digit parse_float_number is_seq_digit parse_seq_id skip_text append_identifier
    identifier_of_size parse_identifier number_then parse_source_name long_discriminator
    short_discriminator parse_discriminator print parse_abi_tag silently parse_abi_tags
    parse_local_source_name binding_item parse_structured_binding_name find_operator print_operator
    listed_operator parse_listed_operator print_prev_name has_prev_name parse_requires_clause
    parse_operator_name parse_ctor_dtor_name parse_template_param find_substitution
    print_substitution listed_substitution parse_substitution parse_template_template_param
    parse_cv_qualifiers find_builtin listed_builtin parse_listed_builtin restore_skip_separator
    parse_template_args parse_bit_int parse_builtin_type parse_bare_function_type
    parse_exception_spec parse_function_type parse_class_enum_type parse_array_type
    parse_pointer_to_member_type type_prefixes parse_type_body starts_with parse_nv_offset
    parse_v_offset parse_call_offset print_ref_qualifier set_ref_qualifier parse_mangled_name
    parse_unnamed_type_name parse_unqualified_name parse_unscoped_name parse_unscoped_template_name
    parse_name_body nested_prefix parse_nested_name_body prefix_round parse_prefix_body
    special_tables special_thunks parse_special_name parse_encoding_body parse_local_name_body
    operator_has_arity parse_function_param at_char_or_end at_char parse_operator_name_with_arity
    parse_simple_id parse_unresolved_type parse_base_unresolved_name parse_unresolved_name
    parse_braced_expression_body parse_expression_sequence parse_braced_expression_sequence
    parse_requirement parse_requires_head parse_requires_expression parse_initializer
    parse_expr_primary parse_template_arg_body expression_casts expression_allocations
    expression_folds expression_calls expression_members expression_operators expression_scopes
    expression_atoms expression_forms body parse parse_suffix parse_top_level_mangled_name initial
    finish demangle
demangle-unterminated a b c d e = refl

abbrev pub out_8 : List ℕ
out_8 = codes "........"

-- A pointer to a type that does not begin with 'X'.
pub type-fails :
    parse 65 type (initial (codes "PX3foo") out_8)
    ≡ some (false, record (initial (codes "PX3foo") out_8) { steps_remaining = 131064 })
unfolding contains is_lower is_alpha is_digit at_least_num_chars_remaining str_prefix init_state
    read overflow put terminate append_from append_text separate_angles remember_name append_name
    maybe_append_with_length maybe_append enter_nested_name leave_nested_name disable_append
    restore_append increase maybe_increase_nest_level is_nested maybe_append_separator
    maybe_cancel_last_separator identifier_is_anonymous_namespace succeed fail act ◌&◌ ◌or◌ optional
    retry reading branch if_parsed again repeat zero_or_more one_or_more until parse_until level
    set_level decrement leave_level enter_level with_level enter_depth leave_depth use_step
    with_depth parse_one_char_token parse_two_char_token parse_char_class skip_while parse_digits
    parse_sign parse_number scan_number negate finish_number parse_number_value
    parse_non_negative_number parse_non_negative_value parse_positive_number parse_positive_value
    is_float_digit parse_float_number is_seq_digit parse_seq_id skip_text append_identifier
    identifier_of_size parse_identifier number_then parse_source_name long_discriminator
    short_discriminator parse_discriminator print parse_abi_tag silently parse_abi_tags
    parse_local_source_name binding_item parse_structured_binding_name find_operator print_operator
    listed_operator parse_listed_operator print_prev_name has_prev_name parse_requires_clause
    parse_operator_name parse_ctor_dtor_name parse_template_param find_substitution
    print_substitution listed_substitution parse_substitution parse_template_template_param
    parse_cv_qualifiers find_builtin listed_builtin parse_listed_builtin restore_skip_separator
    parse_template_args parse_bit_int parse_builtin_type parse_bare_function_type
    parse_exception_spec parse_function_type parse_class_enum_type parse_array_type
    parse_pointer_to_member_type type_prefixes parse_type_body starts_with parse_nv_offset
    parse_v_offset parse_call_offset print_ref_qualifier set_ref_qualifier parse_mangled_name
    parse_unnamed_type_name parse_unqualified_name parse_unscoped_name parse_unscoped_template_name
    parse_name_body nested_prefix parse_nested_name_body prefix_round parse_prefix_body
    special_tables special_thunks parse_special_name parse_encoding_body parse_local_name_body
    operator_has_arity parse_function_param at_char_or_end at_char parse_operator_name_with_arity
    parse_simple_id parse_unresolved_type parse_base_unresolved_name parse_unresolved_name
    parse_braced_expression_body parse_expression_sequence parse_braced_expression_sequence
    parse_requirement parse_requires_head parse_requires_expression parse_initializer
    parse_expr_primary parse_template_arg_body expression_casts expression_allocations
    expression_folds expression_calls expression_members expression_operators expression_scopes
    expression_atoms expression_forms body parse parse_suffix parse_top_level_mangled_name initial
    finish demangle
type-fails = refl

-- A function and a nested name with template arguments.
demangled :
    (demangle (codes "_Z3foov") out_8 ≡ some (true, codes "foo()" ++ (0 ∷ b'.' ∷ b'.' ∷ [])))
    × (demangle (codes "_ZN1a1bIiE1cEv") (out_8 ++ out_8)
        ≡ some (true, codes "a::b<>::c()" ++ (0 ∷ codes "....")))
unfolding contains is_lower is_alpha is_digit at_least_num_chars_remaining str_prefix init_state
    read overflow put terminate append_from append_text separate_angles remember_name append_name
    maybe_append_with_length maybe_append enter_nested_name leave_nested_name disable_append
    restore_append increase maybe_increase_nest_level is_nested maybe_append_separator
    maybe_cancel_last_separator identifier_is_anonymous_namespace succeed fail act ◌&◌ ◌or◌ optional
    retry reading branch if_parsed again repeat zero_or_more one_or_more until parse_until level
    set_level decrement leave_level enter_level with_level enter_depth leave_depth use_step
    with_depth parse_one_char_token parse_two_char_token parse_char_class skip_while parse_digits
    parse_sign parse_number scan_number negate finish_number parse_number_value
    parse_non_negative_number parse_non_negative_value parse_positive_number parse_positive_value
    is_float_digit parse_float_number is_seq_digit parse_seq_id skip_text append_identifier
    identifier_of_size parse_identifier number_then parse_source_name long_discriminator
    short_discriminator parse_discriminator print parse_abi_tag silently parse_abi_tags
    parse_local_source_name binding_item parse_structured_binding_name find_operator print_operator
    listed_operator parse_listed_operator print_prev_name has_prev_name parse_requires_clause
    parse_operator_name parse_ctor_dtor_name parse_template_param find_substitution
    print_substitution listed_substitution parse_substitution parse_template_template_param
    parse_cv_qualifiers find_builtin listed_builtin parse_listed_builtin restore_skip_separator
    parse_template_args parse_bit_int parse_builtin_type parse_bare_function_type
    parse_exception_spec parse_function_type parse_class_enum_type parse_array_type
    parse_pointer_to_member_type type_prefixes parse_type_body starts_with parse_nv_offset
    parse_v_offset parse_call_offset print_ref_qualifier set_ref_qualifier parse_mangled_name
    parse_unnamed_type_name parse_unqualified_name parse_unscoped_name parse_unscoped_template_name
    parse_name_body nested_prefix parse_nested_name_body prefix_round parse_prefix_body
    special_tables special_thunks parse_special_name parse_encoding_body parse_local_name_body
    operator_has_arity parse_function_param at_char_or_end at_char parse_operator_name_with_arity
    parse_simple_id parse_unresolved_type parse_base_unresolved_name parse_unresolved_name
    parse_braced_expression_body parse_expression_sequence parse_braced_expression_sequence
    parse_requirement parse_requires_head parse_requires_expression parse_initializer
    parse_expr_primary parse_template_arg_body expression_casts expression_allocations
    expression_folds expression_calls expression_members expression_operators expression_scopes
    expression_atoms expression_forms body parse parse_suffix parse_top_level_mangled_name initial
    finish demangle
demangled = (refl, refl)
