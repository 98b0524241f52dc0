-- ===== src/Demangle/Grammar.antt =====
-- demangle.cc: the non-terminals that count the depth, tied together, and `Demangle`.
use ng_log.Prelude.{
  ℕ, zero, suc, Bool, true, false, not, ◌&&◌, List, ◌==◌, if◌then◌else◌, length, set,
}
use mathlib.Core.Option.{Option, none, some}
use ng_log.Demangle.Machine.{Machine, max_parse_steps, init_state, first, second}
use ng_log.Demangle.Output.{maybe_append}
use ng_log.Demangle.Parser.{
  Parser, Outcome, succeed, fail, act, ◌&◌, ◌or◌, reading, with_depth, with_level, encodings, types,
  arguments, expressions, locals,
}
use ng_log.Demangle.Names.{
  NonTerminal, encoding, name, nested_name, prefix, type, template_arg, braced_expression,
  expression, local_name,
}
use ng_log.Demangle.Types.{parse_type_body}
use ng_log.Demangle.Qualified.{
  parse_mangled_name, parse_name_body, parse_nested_name_body, parse_prefix_body,
}
use ng_log.Demangle.Encodings.{parse_encoding_body, parse_local_name_body}
use ng_log.Demangle.Expressions.{parse_braced_expression_body, parse_template_arg_body}
use ng_log.Demangle.Forms.{expression_atoms, expression_forms}

-- The function of each non-terminal, its level's guard included; the calls of others are `rec`.
unfoldable pub body : (NonTerminal → Parser) → NonTerminal → Parser
body rec encoding = with_level encodings (parse_encoding_body rec)
body rec name = parse_name_body rec
body rec nested_name = parse_nested_name_body rec
body rec prefix = parse_prefix_body rec
body rec type = with_level types (parse_type_body rec)
body rec template_arg = with_level arguments (parse_template_arg_body rec)
body rec braced_expression = parse_braced_expression_body rec
body rec expression = expression_atoms rec or with_level expressions (expression_forms rec)
body rec local_name = with_level locals (parse_local_name_body rec)

-- A call of the source at depth `d` is `parse n` with `64 < d + n`, so the depth's guard fails
-- before the fuel runs out.
unfoldable pub parse : ℕ → NonTerminal → Parser
parse zero non_terminal m = none
parse (suc n) non_terminal m = with_depth (body (parse n) non_terminal) m

abbrev pub parse_fuel : ℕ
parse_fuel = 65

-- `ParseTopLevelMangledName`, behind the mangled name
unfoldable pub parse_suffix : Parser
parse_suffix = reading λ m.
    if first m.mangled_cur == 0
    then succeed
    else if first m.mangled_cur == b'@'
    then act (maybe_append m.mangled_cur)
    else if first m.mangled_cur == b'.' && not (second m.mangled_cur == 0)
    then succeed
    else fail

unfoldable pub parse_top_level_mangled_name : Parser
parse_top_level_mangled_name = parse_mangled_name (parse parse_fuel) & parse_suffix

unfoldable pub initial : List ℕ → List ℕ → Machine
initial mangled out = record {
  state = init_state mangled;
  buffer = set out 0 0;
  steps_remaining = max_parse_steps;
}

-- What `Demangle` returns for the outcome of the parse, and the output buffer.
unfoldable pub finish : Outcome → Option (Bool × List ℕ)
finish none = none
finish (some (ok, m)) =
    if ok && not m.overflowed then some (true, m.buffer) else some (false, set m.buffer 0 0)

-- `Demangle(mangled, out, out_size)`: `out` is the buffer as the caller passes it.
unfoldable pub demangle : List ℕ → List ℕ → Option (Bool × List ℕ)
demangle mangled out =
    if length out == 0
    then some (false, out)
    else finish (parse_top_level_mangled_name (initial mangled out))
