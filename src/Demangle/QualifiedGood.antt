-- ===== src/Demangle/QualifiedGood.antt =====
-- Names, prefixes and special names by the rules.
use ng_log.Prelude.{ℕ, Bool, true, false}
use ng_log.Demangle.Machine.{Machine}
use ng_log.Demangle.Parser.{Parser}
use ng_log.Demangle.Names.{NonTerminal}
use ng_log.Demangle.Qualified.{
  parse_nv_offset, parse_v_offset, parse_call_offset, parse_mangled_name, parse_unnamed_type_name,
  parse_unqualified_name, parse_unscoped_name, parse_unscoped_template_name, parse_name_body,
  nested_prefix, parse_nested_name_body, prefix_round, parse_prefix_body,
}
use ng_log.Demangle.Encodings.{
  special_tables, special_thunks, parse_special_name, parse_encoding_body, parse_local_name_body,
}
use ng_log.Demangle.Moves.{Good}
use ng_log.Demangle.Rules.{&-left, &-right, optional-Good, zero_or_more-Good}
use ng_log.Demangle.Acts.{token_rules, set_qualifier-Good, leave_nested-Good}
use ng_log.Demangle.Scans.{one_char-Good}
use ng_log.Demangle.NamesGood.{
  AllGood, requires_clause-Good, abi_tags-Good, local_source_name-Good,
  structured_binding_name-Good, ctor_dtor_name-Good,
}
use ng_log.Demangle.Listed.{template_param-Good, substitution-Good, cv_qualifiers-Good}
use ng_log.Demangle.TypesGood.{operator_name-Good, template_args-Good, bare_function_type-Good}

module _ {n : ℕ} {c : Bool} where
  nv_offset-Good : Good n c parse_nv_offset
  unfolding parse_nv_offset
  nv_offset-Good = search token_rules

  v_offset-Good : Good n c parse_v_offset
  unfolding parse_v_offset
  v_offset-Good = search token_rules depth 10 fits 5000

pub call_offset-Good : {n : ℕ} {c : Bool} → Good n c parse_call_offset
unfolding parse_call_offset
call_offset-Good = search (token_rules, nv_offset-Good, v_offset-Good) depth 10 fits 5000

module _ {n : ℕ} {rec : NonTerminal → Parser} (h : AllGood n rec) where
  pub mangled_name-Good : {c : Bool} → Good n c (parse_mangled_name rec)
  unfolding parse_mangled_name
  mangled_name-Good = search (token_rules, h.encodings)

  unnamed_type_name-Good : {c : Bool} → Good n c (parse_unnamed_type_name rec)
  unfolding parse_unnamed_type_name
  unnamed_type_name-Good = search (token_rules, h.types) depth 16 fits 9000

  pub unqualified_name-Good : {c : Bool} → Good n c (parse_unqualified_name rec)
  unfolding parse_unqualified_name
  unqualified_name-Good =
      search
        (
          token_rules,
          operator_name-Good h,
          abi_tags-Good,
          ctor_dtor_name-Good h,
          unnamed_type_name-Good,
          structured_binding_name-Good,
          local_source_name-Good,
        )
        depth 14 fits 9000

  pub unscoped_name-Good : {c : Bool} → Good n c (parse_unscoped_name rec)
  unfolding parse_unscoped_name
  unscoped_name-Good = search (token_rules, unqualified_name-Good) depth 12 fits 5000

  unscoped_template_name-Good : {c : Bool} → Good n c (parse_unscoped_template_name rec)
  unfolding parse_unscoped_template_name
  unscoped_template_name-Good = search (token_rules, unscoped_name-Good, substitution-Good)

  pub name_body-Good : {c : Bool} → Good n c (parse_name_body rec)
  unfolding parse_name_body
  name_body-Good =
      search
        (
          token_rules,
          h.nested_names,
          h.local_names,
          unscoped_template_name-Good,
          template_args-Good h,
          unscoped_name-Good,
        )
        depth 12 fits 5000

  nested_prefix-Good :
      {c : Bool} (copy : Machine) (ref_qualifier : ℕ)
      → Good n c (nested_prefix rec copy ref_qualifier)
  unfolding nested_prefix
  nested_prefix-Good copy ref_qualifier = &-right h.prefixes (
      &-right (set_qualifier-Good ref_qualifier)
        (&-right (leave_nested-Good copy.nest_level) (one_char-Good b'E')))

  pub nested_name_body-Good : {c : Bool} → Good n c (parse_nested_name_body rec)
  unfolding parse_nested_name_body
  nested_name_body-Good =
      search (token_rules, nested_prefix-Good, cv_qualifiers-Good) depth 14 fits 9000

  prefix_round-Good : {c : Bool} (test : Bool) → Good n c (prefix_round rec test)
  unfolding prefix_round
  prefix_round-Good true =
      search
        (
          token_rules,
          template_param-Good,
          substitution-Good,
          unscoped_name-Good,
          template_args-Good h,
          h.expressions,
        )
        depth 16 fits 9000
  prefix_round-Good false =
      search
        (token_rules, template_param-Good, substitution-Good, unscoped_name-Good, h.expressions)
        depth 16 fits 9000

  pub prefix_body-Good : Good n false (parse_prefix_body rec)
  unfolding parse_prefix_body
  prefix_body-Good =
      optional-Good (&-left (prefix_round-Good false) (zero_or_more-Good (prefix_round-Good true)))

  special_tables-Good : {c : Bool} → Good n c (special_tables rec)
  unfolding special_tables
  special_tables-Good = search (token_rules, h.names, h.encodings, h.types) depth 16 fits 9000

  special_thunks-Good : {c : Bool} → Good n c (special_thunks rec)
  unfolding special_thunks
  special_thunks-Good =
      search (token_rules, h.encodings, h.types, call_offset-Good) depth 20 fits 9000

  special_name-Good : {c : Bool} → Good n c (parse_special_name rec)
  unfolding parse_special_name
  special_name-Good = search (token_rules, special_tables-Good, special_thunks-Good)

  pub encoding_body-Good : {c : Bool} → Good n c (parse_encoding_body rec)
  unfolding parse_encoding_body
  encoding_body-Good =
      search
        (token_rules, h.names, requires_clause-Good h, bare_function_type-Good h, special_name-Good)
        depth 14 fits 9000

  pub local_name_body-Good : {c : Bool} → Good n c (parse_local_name_body rec)
  unfolding parse_local_name_body
  local_name_body-Good = search (token_rules, h.names, h.encodings) depth 16 fits 9000
