-- ===== src/Demangle/Names.antt =====
-- demangle.cc: names. `rec` is the parser of the non-terminals that count the depth; Grammar ties
-- the knot.
use ng_log.Prelude.{ℕ, true, false, ◌&&◌, List, [], ◌∷◌, String, codes, ◌==◌, if◌then◌else◌}
use ng_log.Demangle.Machine.{
  Name, Machine, first, second, is_lower, is_alpha, at_least_num_chars_remaining,
}
use ng_log.Demangle.Output.{
  output, maybe_append, maybe_append_with_length, enter_nested_name, leave_nested_name,
  disable_append, restore_append,
}
use ng_log.Demangle.Parser.{
  Parser, succeed, fail, act, ◌&◌, ◌or◌, optional, retry, reading, branch, zero_or_more,
  one_or_more,
}
use ng_log.Demangle.Tokens.{parse_one_char_token, parse_two_char_token, parse_char_class}
use ng_log.Demangle.Numerals.{parse_source_name, parse_discriminator, skip_text}
use ng_log.Demangle.Operators.{Operator, operator_list}
use mathlib.Core.Option.{Option, none, some}

-- The functions that begin with a `ParseDepthGuard`.
pub data NonTerminal : Type 0 where
  encoding name nested_name prefix type template_arg : NonTerminal
  braced_expression expression local_name : NonTerminal

-- `MaybeAppend(state, text)` under `&&`
unfoldable pub print : String → Parser
print str = act (maybe_append (codes str))

unfoldable pub parse_abi_tag : Parser
parse_abi_tag = parse_one_char_token b'B' & parse_source_name

-- `DisableAppend(state); if (p) { RestoreAppend(state, copy.append); … return true; } *state = copy;`
unfoldable pub silently : Parser → Parser
silently p = retry (reading λ copy. act disable_append & p & act (restore_append copy.append))

unfoldable pub parse_abi_tags : Parser
parse_abi_tags = silently (one_or_more parse_abi_tag)

unfoldable pub parse_local_source_name : Parser
parse_local_source_name =
    retry (parse_one_char_token b'L' & parse_source_name & optional parse_discriminator)

-- A round of the loop: ", " and a name, or neither.
unfoldable pub binding_item : Parser
binding_item = retry (print ", " & parse_source_name)

unfoldable pub parse_structured_binding_name : Parser
parse_structured_binding_name = retry (
    parse_two_char_token b'D' b'C'
    & print "["
    & parse_source_name
    & zero_or_more (branch (λ m. first m.mangled_cur == b'E') fail binding_item)
    & parse_one_char_token b'E'
    & print "]")

-- The entry of `kOperatorList` that the two characters name.
unfoldable pub find_operator : ℕ → ℕ → List Operator → Option Operator
find_operator a b [] = none
find_operator a b (o ∷ os) =
    let rest = find_operator a b os in
    if a == first o.abbrev_name && b == second o.abbrev_name then some o else rest

unfoldable pub print_operator : Operator → Machine → Machine
print_operator o m =
    let named = maybe_append (codes "operator") m in
    let spaced = if is_lower (first o.real_name) then maybe_append (codes " ") named else named in
    maybe_append o.real_name spaced

unfoldable pub listed_operator : Option Operator → Parser
listed_operator none = fail
listed_operator (some o) = act (print_operator o) & act (skip_text 2)

unfoldable pub parse_listed_operator : Parser
parse_listed_operator =
    branch (λ m. is_lower (first m.mangled_cur) && is_alpha (second m.mangled_cur))
      (reading λ m.
        listed_operator (find_operator (first m.mangled_cur) (second m.mangled_cur) operator_list))
      fail

-- `MaybeAppendWithLength(state, prev_name, prev_name_length)`
unfoldable pub print_prev_name : Option Name → Machine → Machine
print_prev_name none m = m
print_prev_name (some n) m = maybe_append_with_length (output n.start) n.size m

-- `state->prev_name != nullptr`
unfoldable pub has_prev_name : Parser
has_prev_name = branch (λ m. elim m.prev_name [ none ↦ false | some n ↦ true ]) succeed fail

module _ (rec : NonTerminal → Parser) where
  unfoldable pub parse_requires_clause : Parser
  parse_requires_clause = silently (parse_one_char_token b'Q' & rec expression)

  unfoldable pub parse_operator_name : Parser
  parse_operator_name =
      branch (λ m. at_least_num_chars_remaining m.mangled_cur 2)
        (retry (
            reading λ copy.
              parse_two_char_token b'c' b'v'
              & print "operator "
              & act enter_nested_name
              & rec type
              & act (leave_nested_name copy.nest_level))
          or retry (parse_two_char_token b'l' b'i' & print "operator\"\" " & parse_source_name)
          or retry (
              parse_one_char_token b'v' & parse_char_class (codes "0123456789") & parse_source_name)
          or parse_listed_operator)
        fail

  unfoldable pub parse_ctor_dtor_name : Parser
  parse_ctor_dtor_name =
      retry
        (parse_two_char_token b'C' b'I' & parse_char_class (codes "12") & has_prev_name & rec type)
      or retry (
          parse_one_char_token b'C'
          & parse_char_class (codes "12345")
          & has_prev_name
          & reading (λ m. act (print_prev_name m.prev_name)))
      or retry (
          parse_one_char_token b'D'
          & parse_char_class (codes "01245")
          & has_prev_name
          & reading (λ m. print "~" & act (print_prev_name m.prev_name)))
