-- ===== src/Demangle/NamesGood.antt =====
-- Names, operators and substitutions by the rules.
use mathlib.Core.Option.{Option, none, some}
use ng_log.Prelude.{ℕ, Bool, true, false}
use ng_log.Demangle.Machine.{Name}
use ng_log.Demangle.Output.{output}
use ng_log.Demangle.Parser.{Parser, act}
use ng_log.Demangle.Names.{
  NonTerminal, encoding, name, nested_name, prefix, type, template_arg, braced_expression,
  expression, local_name, parse_abi_tag, silently, parse_abi_tags, parse_local_source_name,
  binding_item, parse_structured_binding_name, print_prev_name, has_prev_name,
  parse_requires_clause, parse_ctor_dtor_name,
}
use ng_log.Demangle.Moves.{Moved-refl, Good}
use ng_log.Demangle.Writes.{maybe_append_with_length-Moves}
use ng_log.Demangle.Acts.{token_rules}
use ng_log.Demangle.Scans.{one_char-Good}
use ng_log.Demangle.Rules.{&-left, act-Good}

-- What the parsers of the non-terminals keep; all but a prefix use up some text.
pub record AllGood (n : ℕ) (rec : NonTerminal → Parser) : Type 0 where
  pub encodings : (c : Bool) → Good n c (rec encoding)
  pub names : (c : Bool) → Good n c (rec name)
  pub nested_names : (c : Bool) → Good n c (rec nested_name)
  pub prefixes : Good n false (rec prefix)
  pub types : (c : Bool) → Good n c (rec type)
  pub template_args : (c : Bool) → Good n c (rec template_arg)
  pub braced_expressions : (c : Bool) → Good n c (rec braced_expression)
  pub expressions : (c : Bool) → Good n c (rec expression)
  pub local_names : (c : Bool) → Good n c (rec local_name)

module _ {n : ℕ} {rec : NonTerminal → Parser} (h : AllGood n rec) where
  pub encoding-Good : {c : Bool} → Good n c (rec encoding)
  encoding-Good {c} = h.encodings c

  pub name-Good : {c : Bool} → Good n c (rec name)
  name-Good {c} = h.names c

  pub nested_name-Good : {c : Bool} → Good n c (rec nested_name)
  nested_name-Good {c} = h.nested_names c

  pub prefix-Good : Good n false (rec prefix)
  prefix-Good = h.prefixes

  pub type-Good : {c : Bool} → Good n c (rec type)
  type-Good {c} = h.types c

  pub template_arg-Good : {c : Bool} → Good n c (rec template_arg)
  template_arg-Good {c} = h.template_args c

  pub braced_expression-Good : {c : Bool} → Good n c (rec braced_expression)
  braced_expression-Good {c} = h.braced_expressions c

  pub expression-Good : {c : Bool} → Good n c (rec expression)
  expression-Good {c} = h.expressions c

  pub local_name-Good : {c : Bool} → Good n c (rec local_name)
  local_name-Good {c} = h.local_names c

pub ruleset rec_rules = (
  encoding-Good, name-Good, nested_name-Good, prefix-Good, type-Good, template_arg-Good,
  braced_expression-Good, expression-Good, local_name-Good,
)

pub silently-Good : {n : ℕ} {c : Bool} {p : Parser} → Good n true p → Good n c (silently p)
unfolding silently
silently-Good h = search token_rules

pub abi_tag-Good : {n : ℕ} {c : Bool} → Good n c parse_abi_tag
unfolding parse_abi_tag
abi_tag-Good = search token_rules

pub abi_tags-Good : {n : ℕ} {c : Bool} → Good n c parse_abi_tags
unfolding parse_abi_tags
abi_tags-Good = silently-Good (search (token_rules, abi_tag-Good))

pub local_source_name-Good : {n : ℕ} {c : Bool} → Good n c parse_local_source_name
unfolding parse_local_source_name
local_source_name-Good = search token_rules depth 10

binding_item-Good : {n : ℕ} {c : Bool} → Good n c binding_item
unfolding binding_item
binding_item-Good = search token_rules depth 10

pub structured_binding_name-Good : {n : ℕ} {c : Bool} → Good n c parse_structured_binding_name
unfolding parse_structured_binding_name
structured_binding_name-Good = search (token_rules, binding_item-Good) depth 12

pub requires_clause-Good :
    {n : ℕ} {c : Bool} {rec : NonTerminal → Parser}
    → AllGood n rec
    → Good n c (parse_requires_clause rec)
unfolding parse_requires_clause
requires_clause-Good h = silently-Good (&-left (one_char-Good b'Q') (expression-Good h))

has_prev_name-Good : {n : ℕ} → Good n false has_prev_name
unfolding has_prev_name
has_prev_name-Good = search token_rules

print_prev_name-Good : {n : ℕ} (o : Option Name) → Good n false (act (print_prev_name o))
unfolding print_prev_name
print_prev_name-Good none = act-Good (record { at = λ m s. Moved-refl m s })
print_prev_name-Good (some x) =
    act-Good
      (record { at = λ m s. (maybe_append_with_length-Moves (output x.start) x.size).at m s })

pub ctor_dtor_name-Good :
    {n : ℕ} {c : Bool} {rec : NonTerminal → Parser}
    → AllGood n rec
    → Good n c (parse_ctor_dtor_name rec)
unfolding parse_ctor_dtor_name
ctor_dtor_name-Good h =
    search (token_rules, h.types, has_prev_name-Good, print_prev_name-Good) depth 12 fits 5000
