-- ===== src/Demangle/Acts.antt =====
-- The functions that cannot fail, as parsers.
use ng_log.Prelude.{ℕ, Bool, false, List, codes, String}
use ng_log.Demangle.Machine.{ℤ, Machine}
use ng_log.Demangle.Output.{
  enter_nested_name, leave_nested_name, disable_append, restore_append, maybe_increase_nest_level,
  maybe_append_separator, maybe_cancel_last_separator, maybe_append,
}
use ng_log.Demangle.Parser.{act}
use ng_log.Demangle.Numerals.{skip_text}
use ng_log.Demangle.Names.{print}
use ng_log.Demangle.Types.{restore_skip_separator}
use ng_log.Demangle.Qualified.{print_ref_qualifier, set_ref_qualifier}
use ng_log.Demangle.Moves.{Good, Moves, Moved, Moved-refl}
use ng_log.Demangle.Writes.{
  maybe_append-Moves, enter_nested_name-Moves, leave_nested_name-Moves, disable_append-Moves,
  restore_append-Moves, maybe_increase_nest_level-Moves, maybe_append_separator-Moves,
  maybe_cancel_last_separator-Moves, if-Moved,
}
use ng_log.Demangle.Numbers.{skip_text-Moves}
use ng_log.Demangle.Scans.{one_char-Good, two_char-Good, char_class-Good}
use ng_log.Demangle.Reads.{
  parse_number-Good, parse_non_negative_number-Good, parse_positive_number-Good,
  parse_float_number-Good, parse_seq_id-Good,
}
use ng_log.Demangle.Numbers.{parse_source_name-Good, parse_discriminator-Good}
use ng_log.Demangle.Rules.{parser_rules, act-Good}
use ng_log.Prelude.{arith, ◌==◌, ℕ}

module _ {n : ℕ} where
  pub print-Good : (str : String) → Good n false (print str)
  unfolding print
  print-Good str = act-Good (maybe_append-Moves (codes str))

  pub append-Good : (str : List ℕ) → Good n false (act (maybe_append str))
  append-Good str = act-Good (maybe_append-Moves str)

  pub enter_nested-Good : Good n false (act enter_nested_name)
  enter_nested-Good = act-Good enter_nested_name-Moves

  pub leave_nested-Good : (level : ℤ) → Good n false (act (leave_nested_name level))
  leave_nested-Good level = act-Good (leave_nested_name-Moves level)

  pub disable-Good : Good n false (act disable_append)
  disable-Good = act-Good disable_append-Moves

  pub restore-Good : (value : Bool) → Good n false (act (restore_append value))
  restore-Good value = act-Good (restore_append-Moves value)

  pub increase-Good : Good n false (act maybe_increase_nest_level)
  increase-Good = act-Good maybe_increase_nest_level-Moves

  pub separator-Good : Good n false (act maybe_append_separator)
  separator-Good = act-Good maybe_append_separator-Moves

  pub cancel-Good : Good n false (act maybe_cancel_last_separator)
  cancel-Good = act-Good maybe_cancel_last_separator-Moves

  pub skip_text-Good : (size : ℕ) → Good n false (act (skip_text size))
  skip_text-Good size = act-Good (skip_text-Moves size)

restore_skip_separator-Moves : (value : Bool) → Moves (restore_skip_separator value)
unfolding restore_skip_separator
restore_skip_separator-Moves value = record { at = λ m s. ground arith }

set_ref_qualifier-Moves : (c : ℕ) → Moves (set_ref_qualifier c)
unfolding set_ref_qualifier
set_ref_qualifier-Moves c = record { at = λ m s. ground arith }

clear_qualifier :
    (m m' : Machine)
    → Moved m m'
    → Moved m (record m' { state = record m'.state { pending_ref_qualifier = 0 } })
clear_qualifier m m' h = ground arith

print_ref_qualifier-Moves : Moves print_ref_qualifier
unfolding print_ref_qualifier
print_ref_qualifier-Moves = record {
  at = λ m s. clear_qualifier m _ (
      if-Moved (m.pending_ref_qualifier == b'R') m _ _ ((maybe_append-Moves (codes " &")).at m s) (
        if-Moved (m.pending_ref_qualifier == b'O') m _ _ ((maybe_append-Moves (codes " &&")).at m s)
          (Moved-refl m s)));
}

module _ {n : ℕ} where
  pub restore_skip-Good : (value : Bool) → Good n false (act (restore_skip_separator value))
  restore_skip-Good value = act-Good (restore_skip_separator-Moves value)

  pub set_qualifier-Good : (c : ℕ) → Good n false (act (set_ref_qualifier c))
  set_qualifier-Good c = act-Good (set_ref_qualifier-Moves c)

  pub print_qualifier-Good : Good n false (act print_ref_qualifier)
  print_qualifier-Good = act-Good print_ref_qualifier-Moves

pub ruleset token_rules = (
  parser_rules, one_char-Good, two_char-Good, char_class-Good, parse_number-Good,
  parse_non_negative_number-Good, parse_positive_number-Good, parse_float_number-Good,
  parse_seq_id-Good, parse_source_name-Good, parse_discriminator-Good, print-Good, append-Good,
  enter_nested-Good, leave_nested-Good, disable-Good, restore-Good, increase-Good, separator-Good,
  cancel-Good, skip_text-Good, restore_skip-Good, set_qualifier-Good, print_qualifier-Good,
)
