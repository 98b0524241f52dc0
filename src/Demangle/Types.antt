-- ===== src/Demangle/Types.antt =====
-- demangle.cc: template parameters and arguments, substitutions and types.
use mathlib.Core.Option.{Option, none, some}
use ng_log.Prelude.{ℕ, Bool, List, [], ◌∷◌, codes, ◌==◌, if◌then◌else◌, length}
use ng_log.Demangle.Machine.{Machine, first, second, str_prefix, with_state}
use ng_log.Demangle.Output.{maybe_append, disable_append, restore_append}
use ng_log.Demangle.Parser.{Parser, fail, act, ◌&◌, ◌or◌, optional, retry, reading, one_or_more}
use ng_log.Demangle.Tokens.{parse_one_char_token, parse_two_char_token, parse_char_class}
use ng_log.Demangle.Numerals.{
  parse_non_negative_number, parse_positive_number, parse_seq_id, parse_source_name, skip_text,
}
use ng_log.Demangle.Operators.{Abbrev, builtin_type_list, substitution_list}
use ng_log.Demangle.Names.{
  NonTerminal, name, type, template_arg, expression, print, silently, parse_abi_tags,
  parse_requires_clause,
}

unfoldable pub parse_template_param : Parser
parse_template_param =
    (parse_two_char_token b'T' b'_' & print "?")
    or retry (
        parse_one_char_token b'T'
        & parse_non_negative_number
        & parse_one_char_token b'_'
        & print "?")

-- The entry of `kSubstitutionList` whose second character is `c`.
unfoldable pub find_substitution : ℕ → List Abbrev → Option Abbrev
find_substitution c [] = none
find_substitution c (p ∷ ps) =
    let rest = find_substitution c ps in if c == second p.abbrev_name then some p else rest

unfoldable pub print_substitution : Abbrev → Machine → Machine
print_substitution p m =
    let std = maybe_append (codes "std") m in
    if first p.real_name == 0 then std else maybe_append p.real_name (maybe_append (codes "::") std)

unfoldable pub listed_substitution : Option Abbrev → Parser
listed_substitution none = fail
listed_substitution (some p) =
    act (print_substitution p) & act (skip_text 1) & optional parse_abi_tags

unfoldable pub parse_substitution : Parser
parse_substitution =
    (parse_two_char_token b'S' b'_' & optional parse_abi_tags & print "?")
    or retry (
        parse_one_char_token b'S'
        & parse_seq_id
        & parse_one_char_token b'_'
        & optional parse_abi_tags
        & print "?")
    or retry (
        parse_one_char_token b'S'
        & reading
            (λ m. listed_substitution (find_substitution (first m.mangled_cur) substitution_list)))

unfoldable pub parse_template_template_param : Parser
parse_template_template_param = parse_template_param or parse_substitution

-- One to three of `r`, `V` and `K`, in this order.
unfoldable pub parse_cv_qualifiers : Parser
parse_cv_qualifiers =
    (parse_one_char_token b'r'
      & optional (parse_one_char_token b'V')
      & optional (parse_one_char_token b'K'))
    or (parse_one_char_token b'V' & optional (parse_one_char_token b'K'))
    or parse_one_char_token b'K'

-- The entry of `kBuiltinTypeList` that the text begins with.
unfoldable pub find_builtin : List ℕ → List Abbrev → Option Abbrev
unfolding str_prefix
find_builtin mangled [] = none
find_builtin mangled (p ∷ ps) =
    let rest = find_builtin mangled ps in if str_prefix mangled p.abbrev_name then some p else rest

unfoldable pub listed_builtin : Option Abbrev → Parser
listed_builtin none = fail
listed_builtin (some p) = act (maybe_append p.real_name) & act (skip_text (length p.abbrev_name))

unfoldable pub parse_listed_builtin : Parser
parse_listed_builtin = reading λ m. listed_builtin (find_builtin m.mangled_cur builtin_type_list)

unfoldable pub restore_skip_separator : Bool → Machine → Machine
restore_skip_separator value m = with_state m (record m.state { skip_separator = value })

module _ (rec : NonTerminal → Parser) where
  unfoldable pub parse_template_args : Parser
  parse_template_args = retry (
      reading λ copy.
        act disable_append
        & parse_one_char_token b'I'
        & one_or_more (rec template_arg)
        & optional (parse_requires_clause rec)
        & parse_one_char_token b'E'
        & act (restore_append copy.append)
        & act (restore_skip_separator copy.skip_separator)
        & print "<>")

  -- `DB` and `DU`: the copy `width` is the state behind them.
  unfoldable pub parse_bit_int : Parser
  parse_bit_int =
      (parse_two_char_token b'D' b'B' or parse_two_char_token b'D' b'U')
      & (retry (parse_non_negative_number & parse_one_char_token b'_')
          or (rec expression & parse_one_char_token b'_'))

  unfoldable pub parse_builtin_type : Parser
  parse_builtin_type =
      retry (
        parse_two_char_token b'D' b'F'
        & parse_non_negative_number
        & (parse_one_char_token b'_' or parse_one_char_token b'x' or parse_one_char_token b'b'))
      or retry (
          optional (parse_two_char_token b'D' b'S')
          & (parse_two_char_token b'D' b'A' or parse_two_char_token b'D' b'R')
          & parse_char_class (codes "stijlm"))
      or retry parse_bit_int
      or parse_listed_builtin
      or retry (parse_one_char_token b'u' & parse_source_name & optional (parse_template_args))

  unfoldable pub parse_bare_function_type : Parser
  parse_bare_function_type = retry (
      reading λ copy.
        act disable_append & one_or_more (rec type) & act (restore_append copy.append) & print "()")

  unfoldable pub parse_exception_spec : Parser
  parse_exception_spec =
      silently (parse_two_char_token b'D' b'o')
      or silently (parse_two_char_token b'D' b'O' & rec expression & parse_one_char_token b'E')
      or silently
          (parse_two_char_token b'D' b'w' & one_or_more (rec type) & parse_one_char_token b'E')

  unfoldable pub parse_function_type : Parser
  parse_function_type = retry (
      optional parse_cv_qualifiers
      & optional parse_exception_spec
      & optional (parse_two_char_token b'D' b'x')
      & parse_one_char_token b'F'
      & optional (parse_one_char_token b'Y')
      & parse_bare_function_type
      & optional (parse_char_class (codes "RO"))
      & parse_one_char_token b'E')

  unfoldable pub parse_class_enum_type : Parser
  parse_class_enum_type = rec name

  unfoldable pub parse_array_type : Parser
  parse_array_type =
      retry
        (parse_one_char_token b'A' & parse_positive_number & parse_one_char_token b'_' & rec type)
      or retry (
          parse_one_char_token b'A'
          & optional (rec expression)
          & parse_one_char_token b'_'
          & rec type)

  unfoldable pub parse_pointer_to_member_type : Parser
  parse_pointer_to_member_type = retry (parse_one_char_token b'M' & rec type & rec type)

  -- The alternatives of `ParseType` that restore the state, up to the builtin types.
  unfoldable pub type_prefixes : Parser
  type_prefixes =
      retry (parse_cv_qualifiers & rec type)
      or retry (parse_char_class (codes "OPRCG") & rec type)
      or retry (parse_two_char_token b'D' b'p' & rec type)
      or retry (
          (parse_two_char_token b'T' b's'
            or parse_two_char_token b'T' b'u'
            or parse_two_char_token b'T' b'e')
          & rec name)
      or retry (
          parse_one_char_token b'D'
          & parse_char_class (codes "tT")
          & rec expression
          & parse_one_char_token b'E')
      or retry
          (parse_one_char_token b'U' & parse_source_name & optional parse_template_args & rec type)

  -- What `ParseType` does under its guards; `copy` is the state at its start.
  unfoldable pub parse_type_body : Parser
  parse_type_body =
      retry (
        type_prefixes
        or parse_builtin_type
        or parse_function_type
        or parse_class_enum_type
        or parse_array_type
        or parse_pointer_to_member_type
        or parse_substitution
        or (parse_template_template_param & parse_template_args))
      or retry parse_template_param
