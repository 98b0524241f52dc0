-- ===== src/Flags/CommandLine.antt =====
-- internal/flag_registry.cc: `ParseCommandLineFlags`, `GetCommandLineOption` and
-- `SetCommandLineOption`. The arguments are those behind the program's name.
use ng_log.Prelude.{
  ℕ, ◌+◌, Bool, true, false, ◌&&◌, ◌||◌, List, [], ◌∷◌, ◌++◌, Option, none, some, ◌==◌,
  if◌then◌else◌, codes, same_text,
}
use ng_log.Levenshtein.Distance.{find_closest_match}
use ng_log.Flags.Registry.{Flag, Registry, is_bool, is_bool_flag, is_there, find_flag, behind_no}

-- `kRemoveFlags` and `kIgnore`
pub record Modes : Type 0 where
  pub removes : Bool
  pub ignores : Bool

-- Why the program exits.
pub data Failure : Type 0 where
  unknown_flag : List ℕ → List ℕ → Failure
  help_with_value : Failure
  not_negatable : List ℕ → Failure
  negated_with_value : List ℕ → Failure
  missing_value : List ℕ → Failure
  bad_value : List ℕ → Failure

-- `pending` is a flag whose value is the next argument; `output` has the arguments that are kept.
pub record Progress : Type 0 where
  pub registry : Registry
  pub parsed_flags : ℕ
  pub output : List (List ℕ)
  pub end_of_flags : Bool
  pub pending : Option (Flag × List ℕ)

pub data Result : Type 0 where
  goes : Progress → Result
  exits : Failure → Result
  shows_help : Result

-- The values are the texts that `CurrentValue` gives; how `Flag` stores a value, and marks it as set
-- explicitly, is left out.
unfoldable pub set_value : ℕ → List ℕ → Registry → Registry
set_value address value r = record r { values = λ a. if a == address then value else r.values a }

abbrev pub set_parsed : Flag → Option (List ℕ) → Progress → Result
set_parsed flag none p = exits (bad_value flag.name)
set_parsed flag (some value) p = goes (record p {
  registry = set_value flag.address value p.registry;
  parsed_flags = p.parsed_flags + 1;
  pending = none;
})

unfoldable pub set_from_string : Flag → List ℕ → Progress → Result
unfolding set_value
set_from_string flag value p = set_parsed flag (flag.parses value) p

-- The text in front of the first '=', and the text behind it.
unfoldable pub split_equals : List ℕ → List ℕ × Option (List ℕ)
split_equals [] = ([], none)
split_equals (c ∷ text) =
    if c == b'=' then ([], some text) else (c ∷ (split_equals text).0, (split_equals text).1)

abbrev pub negated_flag : Option (List ℕ) → Registry → Option Flag
negated_flag none r = none
negated_flag (some name) r = find_flag name r

unfoldable pub is_long_option : List ℕ → Registry → Bool
unfolding find_flag is_bool behind_no
is_long_option name r =
    same_text name (codes "help")
    || is_there (find_flag name r)
    || is_bool_flag (negated_flag (behind_no name) r)

abbrev pub flag_names : List (List ℕ × Flag) → List (List ℕ)
flag_names [] = []
flag_names ((name, flag) ∷ flags) = name ∷ flag_names flags

unfoldable pub find_closest_option : List ℕ → Registry → List ℕ
unfolding find_closest_match
find_closest_option name r = find_closest_match name (codes "help" ∷ flag_names r.flags)

unfoldable pub keep_argument : Modes → List ℕ → Progress → Progress
keep_argument m argument p =
    if m.removes then record p { output = p.output ++ (argument ∷ []) } else p

abbrev pub set_negated : Flag → List ℕ → Option (List ℕ) → Progress → Result
set_negated flag name (some value) p = exits (negated_with_value name)
set_negated flag name none p = set_from_string flag (codes "false") p

abbrev pub set_flag : Flag → List ℕ → Option (List ℕ) → Progress → Result
set_flag flag name (some value) p = set_from_string flag value p
set_flag flag name none p =
    if is_bool flag
    then set_from_string flag (codes "true") p
    else goes (record p { pending = some (flag, name) })

-- An option that names no flag
unfoldable pub unknown_option : Modes → List ℕ → List ℕ → Progress → Result
unfolding keep_argument find_closest_option
unknown_option m argument name p =
    if m.ignores
    then goes (keep_argument m argument p)
    else exits (unknown_flag name (find_closest_option name p.registry))

abbrev pub negated_option :
    Modes → List ℕ → List ℕ → Option (List ℕ) → Option Flag → Progress → Result
negated_option m argument name value none p = unknown_option m argument name p
negated_option m argument name value (some flag) p =
    if is_bool flag then set_negated flag name value p else exits (not_negatable name)

abbrev pub found_option :
    Modes → List ℕ → List ℕ → Option (List ℕ) → Option Flag → Progress → Result
found_option m argument name value (some flag) p = set_flag flag name value p
found_option m argument name value none p =
    negated_option m argument name value (negated_flag (behind_no name) p.registry) p

abbrev pub help_option : Option (List ℕ) → Result
help_option none = shows_help
help_option (some value) = exits help_with_value

unfoldable pub long_option : Modes → List ℕ → List ℕ → Progress → Result
unfolding split_equals find_flag is_bool behind_no set_from_string unknown_option
long_option m argument text p =
    let (name, value) = split_equals text in
    if same_text name (codes "help")
    then help_option value
    else found_option m argument name value (find_flag name p.registry) p

-- What stands behind two dashes.
abbrev pub behind_dashes : List ℕ → Option (List ℕ)
behind_dashes [] = none
behind_dashes (c ∷ []) = none
behind_dashes (c ∷ d ∷ text) = if c == b'-' && d == b'-' then some text else none

-- What stands behind a single dash that is not alone.
abbrev pub behind_dash : List ℕ → Option (List ℕ)
behind_dash [] = none
behind_dash (c ∷ []) = none
behind_dash (c ∷ d ∷ text) = if c == b'-' then some (d ∷ text) else none

unfoldable pub single_dash : Modes → List ℕ → Option (List ℕ) → Progress → Result
unfolding is_long_option find_closest_option split_equals keep_argument
single_dash m argument none p = goes (keep_argument m argument p)
single_dash m argument (some option) p =
    let name = (split_equals option).0 in
    if m.ignores
    then goes (keep_argument m argument p)
    else exits (
        unknown_flag name
          (if is_long_option name p.registry then name else find_closest_option name p.registry))

abbrev pub option_argument : Modes → List ℕ → Option (List ℕ) → Progress → Result
option_argument m argument none p = single_dash m argument (behind_dash argument) p
option_argument m argument (some []) p =
    let q = record p { end_of_flags = true } in
    goes (if m.ignores then keep_argument m argument q else q)
option_argument m argument (some (c ∷ text)) p = long_option m argument (c ∷ text) p

abbrev pub next_argument : Modes → List ℕ → Option (Flag × List ℕ) → Progress → Result
next_argument m argument (some (flag, name)) p = set_from_string flag argument p
next_argument m argument none p =
    if p.end_of_flags
    then goes (keep_argument m argument p)
    else option_argument m argument (behind_dashes argument) p

-- A round of the loop, or the value of the flag of the round before.
unfoldable pub parse_argument : Modes → List ℕ → Progress → Result
unfolding long_option single_dash keep_argument set_from_string
parse_argument m argument p = next_argument m argument p.pending p

abbrev pub and_then : Result → (Progress → Result) → Result
and_then (goes p) f = f p
and_then (exits failure) f = exits failure
and_then shows_help f = shows_help

abbrev pub finish : Option (Flag × List ℕ) → Progress → Result
finish none p = goes p
finish (some (flag, name)) p = exits (missing_value name)

unfoldable pub parse_arguments : Modes → List (List ℕ) → Progress → Result
unfolding parse_argument
parse_arguments m [] p = finish p.pending p
parse_arguments m (argument ∷ arguments) p =
    and_then (parse_argument m argument p) (λ q. parse_arguments m arguments q)

abbrev pub begin : Registry → Progress
begin r = record {
  registry = r;
  parsed_flags = 0;
  output = [];
  end_of_flags = false;
  pending = none;
}

unfoldable pub parse_command_line_flags : Modes → List (List ℕ) → Registry → Result
unfolding parse_arguments
parse_command_line_flags m arguments r = parse_arguments m arguments (begin r)

-- `GetCommandLineOption`
abbrev pub value_of : Option Flag → Registry → Option (List ℕ)
value_of none r = none
value_of (some flag) r = some (r.values flag.address)

unfoldable pub get_command_line_option : List ℕ → Registry → Option (List ℕ)
unfolding find_flag
get_command_line_option name r = value_of (find_flag name r) r

abbrev pub store_value : Option Flag → Option (List ℕ) → Registry → Registry × Bool
store_value (some flag) (some value) r = (set_value flag.address value r, true)
store_value (some flag) none r = (r, false)
store_value none value r = (r, false)

abbrev pub parsed_by : Option Flag → List ℕ → Option (List ℕ)
parsed_by none text = none
parsed_by (some flag) text = flag.parses text

-- `SetCommandLineOption`, without the text of its error
unfoldable pub set_command_line_option : List ℕ → List ℕ → Registry → Registry × Bool
unfolding find_flag set_value
set_command_line_option name text r =
    let flag = find_flag name r in store_value flag (parsed_by flag text) r
