-- ===== src/Flags/Examples.antt =====
-- internal/flag_registry.cc: flags of a program, and the witnesses.
use ng_log.Prelude.{
  ℕ, ◌≡◌, refl, true, List, [], ◌∷◌, none, some, arith, codes, contains, same_text,
}
use ng_log.Demangle.Machine.{negsuc}
use ng_log.Flags.Values.{
  parse_signed, signed_to_string, integer_base, scan_integer, scan_digits, digit_of, parse_boolean,
  to_lower, one_of, parse_unsigned,
}
use ng_log.Flags.RoundTrip.{parse_signed-signed_to_string}
use ng_log.Flags.Registry.{
  Flag, Registry, empty, register_flag, aborts, negation_conflict, registered, is_bool, lookup,
  text_before, emplace, find_flag, underscored, behind_no, is_valid_flag_name,
  has_negation_conflict, is_mismatched, Reachable, start, registers,
}
use ng_log.Flags.Negations.{Reachable-Unambiguous}
use ng_log.Flags.CommandLine.{
  Progress, goes, begin, set_from_string, set_value, split_equals, keep_argument, long_option,
  single_dash, unknown_option, parse_argument, parse_arguments, parse_command_line_flags,
}
use ng_log.Flags.Effects.{passing_on}
use ng_log.Flags.Repeats.{parse_command_line_flags-again}

hexadecimal : parse_signed (codes "-0x1F") ≡ some (negsuc 30)
unfolding parse_signed integer_base scan_integer scan_digits digit_of
hexadecimal = refl

too_large : parse_unsigned (codes "4294967296") ≡ none
unfolding parse_unsigned integer_base scan_integer scan_digits digit_of
too_large = refl

written_yes : parse_boolean (codes "Yes") ≡ some true
unfolding parse_boolean to_lower one_of same_text
written_yes = refl

parse_signed-signed_to_string_example :
    parse_signed (signed_to_string (negsuc 2147483647)) ≡ some (negsuc 2147483647)
parse_signed-signed_to_string_example =
    parse_signed-signed_to_string (negsuc 2147483647) (omega arith)

-- A flag of any type whose values are their own texts.
abbrev flag_named : ℕ → List ℕ → List ℕ → Flag
flag_named address name type_name = record {
  address = address;
  name = name;
  type_name = type_name;
  parses = λ text. some text;
}

abbrev verbose : Flag
verbose = flag_named 1 (codes "verbose") (codes "bool")

abbrev log_dir : Flag
log_dir = flag_named 2 (codes "log_dir") (codes "string")

abbrev one_flag : Registry
one_flag = record empty { flags = (codes "verbose", verbose) ∷ []; entries = 1 ∷ [] }

abbrev two_flags : Registry
two_flags = record empty {
  flags = (codes "log_dir", log_dir) ∷ (codes "verbose", verbose) ∷ [];
  entries = 2 ∷ 1 ∷ [];
}

two_flags_run : Reachable two_flags
unfolding register_flag is_valid_flag_name has_negation_conflict lookup emplace text_before
    is_mismatched contains same_text behind_no is_bool
two_flags_run = registers registered log_dir (registers registered verbose start refl) refl

conflicting :
    register_flag registered (flag_named 3 (codes "noverbose") (codes "string")) two_flags
    ≡ aborts negation_conflict
unfolding register_flag is_valid_flag_name has_negation_conflict lookup contains same_text behind_no
    is_bool
conflicting = refl

Reachable-Unambiguous_example : lookup (codes "noverbose") two_flags.flags ≡ none
unfolding lookup same_text is_bool
Reachable-Unambiguous_example =
    Reachable-Unambiguous two_flags_run (codes "verbose") verbose refl refl

abbrev arguments : List (List ℕ)
arguments =
    codes "--noverbose"
    ∷ codes "in.txt"
    ∷ codes "--log-dir"
    ∷ codes "/tmp"
    ∷ codes "--color"
    ∷ codes "--"
    ∷ codes "--verbose"
    ∷ []

abbrev left : List (List ℕ)
left = codes "in.txt" ∷ codes "--color" ∷ codes "--" ∷ codes "--verbose" ∷ []

abbrev parsed : Progress
parsed = record {
  registry = set_value 2 (codes "/tmp") (set_value 1 (codes "false") two_flags);
  parsed_flags = 2;
  output = left;
  end_of_flags = true;
  pending = none;
}

two_parsed : parse_command_line_flags passing_on arguments two_flags ≡ goes parsed
unfolding parse_command_line_flags parse_arguments parse_argument long_option single_dash
    keep_argument unknown_option set_from_string set_value split_equals find_flag lookup underscored
    is_bool behind_no same_text contains
two_parsed = refl

parse_command_line_flags-again_example :
    parse_command_line_flags passing_on parsed.output two_flags
    ≡ goes (record (begin two_flags) { output = parsed.output; end_of_flags = true })
unfolding set_value
parse_command_line_flags-again_example =
    parse_command_line_flags-again arguments two_flags two_flags parsed two_parsed refl
