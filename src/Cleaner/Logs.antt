-- ===== src/Cleaner/Logs.antt =====
-- internal/log_cleaner.cc: `LogCleaner` without its thread and its waits: `AddLogFile`, `Enable`,
-- `CleanOverdueLogs`, and the round of `Worker`. What the system answers while a directory is scanned
-- is a `Files`; the matches of the regular expression are a function in the pattern.
use ng_log.Prelude.{
  ℕ, ◌+◌, Bool, true, false, ◌&&◌, ◌||◌, List, [], ◌∷◌, ◌++◌, map, Option, none, some, leb, ◌==◌,
  if◌then◌else◌, codes, same_text,
}

-- When a path was modified, and the names in a directory.
pub record Files : Type 0 where
  pub modified : List ℕ → Option ℕ
  pub names : List ℕ → List (List ℕ)

-- A log file under a base name that the program selected, or under a default one.
pub record Pattern : Type 0 where
  pub is_selected : Bool
  pub filename_matches : List ℕ → Bool
  pub filenames_by_directory : List (List ℕ × List (List ℕ))
  pub logging_directories : List (List ℕ)
  pub next_cleanup_time : ℕ

pub record Cleaner : Type 0 where
  pub enabled : Bool
  pub overdue : ℕ
  pub patterns : List (List ℕ × Pattern)

unfoldable pub member : List ℕ → List (List ℕ) → Bool
unfolding same_text
member text [] = false
member text (t ∷ texts) = same_text t text || member text texts

-- `insert` into a set
unfoldable pub insert : List ℕ → List (List ℕ) → List (List ℕ)
unfolding member
insert text texts = if member text texts then texts else texts ++ (text ∷ [])

unfoldable pub ends_with_slash : List ℕ → Bool
ends_with_slash [] = false
ends_with_slash (c ∷ []) = c == b'/'
ends_with_slash (c ∷ d ∷ text) = ends_with_slash (d ∷ text)

unfoldable pub join_path : List ℕ → List ℕ → List ℕ
unfolding ends_with_slash
join_path directory filename =
    if same_text directory (codes ".")
    then filename
    else if ends_with_slash directory
    then directory ++ filename
    else directory ++ (b'/' ∷ filename)

-- `stat` may fail. The difference of the times may be negative.
abbrev pub is_over : ℕ → ℕ → Option ℕ → Bool
is_over current_time overdue none = false
is_over current_time overdue (some modified) = leb (modified + overdue) current_time

-- The loops over names: those that pass the test and are overdue are added.
unfoldable pub add_overdue :
    (List ℕ → Bool) → Files → ℕ → ℕ → List ℕ → List (List ℕ) → List (List ℕ) → List (List ℕ)
unfolding join_path insert
add_overdue test files current_time overdue directory [] logs = logs
add_overdue test files current_time overdue directory (name ∷ names) logs =
    let path = join_path directory name in
    add_overdue test files current_time overdue directory names (
      if test name && is_over current_time overdue (files.modified path)
      then insert path logs
      else logs)

unfoldable pub filenames_in : List ℕ → List (List ℕ × List (List ℕ)) → List (List ℕ)
filenames_in directory [] = []
filenames_in directory ((key, names) ∷ entries) =
    if same_text key directory then names else filenames_in directory entries

unfoldable pub get_overdue_log_names : Files → ℕ → ℕ → Pattern → List ℕ → List (List ℕ)
unfolding filenames_in add_overdue
get_overdue_log_names files current_time overdue pattern directory =
    add_overdue pattern.filename_matches files current_time overdue directory
      (files.names directory)
      (add_overdue (λ name. true) files current_time overdue directory
        (filenames_in directory pattern.filenames_by_directory) [])

abbrev pub prepend_to : ℕ → List ℕ → Option (List ℕ × List ℕ) → Option (List ℕ × List ℕ)
prepend_to c text none = if c == b'/' then some (c ∷ [], text) else none
prepend_to c text (some (directory, name)) = some (c ∷ directory, name)

-- A text up to its last slash, and what follows.
unfoldable pub at_last_slash : List ℕ → Option (List ℕ × List ℕ)
at_last_slash [] = none
at_last_slash (c ∷ text) = prepend_to c text (at_last_slash text)

abbrev pub or_dot : List ℕ → List ℕ
or_dot [] = codes "."
or_dot (c ∷ directory) = c ∷ directory

abbrev pub directory_of : Option (List ℕ × List ℕ) → List ℕ
directory_of none = codes "."
directory_of (some (directory, name)) = directory

abbrev pub insert_all : List (List ℕ) → List (List ℕ) → List (List ℕ)
insert_all [] texts = texts
insert_all (t ∷ more) texts = insert_all more (insert (or_dot t) texts)

abbrev pub keys : List (List ℕ × List (List ℕ)) → List (List ℕ)
keys [] = []
keys ((key, names) ∷ entries) = key ∷ keys entries

unfoldable pub cleaned_directories : List ℕ → Pattern → List (List ℕ)
unfolding insert at_last_slash
cleaned_directories base_filename pattern = insert_all (keys pattern.filenames_by_directory) (
    if pattern.is_selected
    then insert (or_dot (directory_of (at_last_slash base_filename))) []
    else insert_all pattern.logging_directories [])

abbrev pub from_directories : (List ℕ → Files) → ℕ → ℕ → Pattern → List (List ℕ) → List (List ℕ)
from_directories scans current_time overdue pattern [] = []
from_directories scans current_time overdue pattern (d ∷ dirs) =
    get_overdue_log_names (scans d) current_time overdue pattern d
    ++ from_directories scans current_time overdue pattern dirs

-- The files that are removed, in their order up to the order of sets.
unfoldable pub clean_overdue_logs : (List ℕ → Files) → ℕ → ℕ → List ℕ → Pattern → List (List ℕ)
unfolding cleaned_directories get_overdue_log_names
clean_overdue_logs scans current_time overdue base_filename pattern =
    from_directories scans current_time overdue pattern (cleaned_directories base_filename pattern)

unfoldable pub add_filename :
    List ℕ → List ℕ → List (List ℕ × List (List ℕ)) → List (List ℕ × List (List ℕ))
unfolding insert
add_filename directory name [] = (directory, name ∷ []) ∷ []
add_filename directory name ((key, names) ∷ entries) =
    if same_text key directory
    then (key, insert name names) ∷ entries
    else (key, names) ∷ add_filename directory name entries

abbrev pub new_pattern : Pattern
new_pattern = record {
  is_selected = false;
  filename_matches = λ name. true;
  filenames_by_directory = [];
  logging_directories = [];
  next_cleanup_time = 0;
}

-- `operator[]` of a map makes the entry that is missing.
unfoldable pub update :
    List ℕ → (Pattern → Pattern) → List (List ℕ × Pattern) → List (List ℕ × Pattern)
update base_filename op [] = (base_filename, op new_pattern) ∷ []
update base_filename op ((key, pattern) ∷ patterns) =
    if same_text key base_filename
    then (key, op pattern) ∷ patterns
    else (key, pattern) ∷ update base_filename op patterns

abbrev pub name_of : List ℕ → Option (List ℕ × List ℕ) → List ℕ
name_of filename none = filename
name_of filename (some (directory, name)) = name

-- `matches` is what `MakeLogFilenameMatcher` makes, `directories` what `GetLoggingDirectories` has.
abbrev pub with_file : Bool → List ℕ → (List ℕ → Bool) → List (List ℕ) → Pattern → Pattern
with_file is_selected filename matches directories pattern = record {
  is_selected = is_selected;
  filename_matches = matches;
  filenames_by_directory =
      add_filename (directory_of (at_last_slash filename))
        (name_of filename (at_last_slash filename)) pattern.filenames_by_directory;
  logging_directories = if is_selected then pattern.logging_directories else directories;
  next_cleanup_time = 0;
}

unfoldable pub add_log_file :
    Bool → List ℕ → List ℕ → (List ℕ → Bool) → List (List ℕ) → Cleaner → Cleaner
unfolding update add_filename at_last_slash
add_log_file is_selected base_filename filename matches directories c = record c {
  patterns = update base_filename (with_file is_selected filename matches directories) c.patterns;
}

abbrev pub make_due : List ℕ × Pattern → List ℕ × Pattern
make_due (base_filename, pattern) = (base_filename, record pattern { next_cleanup_time = 0 })

unfoldable pub enable : ℕ → Cleaner → Cleaner
enable overdue c = record {
  enabled = true;
  overdue = overdue;
  patterns = if c.enabled then c.patterns else map make_due c.patterns;
}

-- The patterns of a round, which are copies
unfoldable pub due_patterns : ℕ → List (List ℕ × Pattern) → List (List ℕ × Pattern)
due_patterns now [] = []
due_patterns now ((key, pattern) ∷ patterns) =
    if leb pattern.next_cleanup_time now
    then (key, pattern) ∷ due_patterns now patterns
    else due_patterns now patterns

unfoldable pub schedule : ℕ → ℕ → List (List ℕ × Pattern) → List (List ℕ × Pattern)
schedule now seconds [] = []
schedule now seconds ((key, pattern) ∷ patterns) =
    (
      key,
      record pattern {
        next_cleanup_time =
            if leb pattern.next_cleanup_time now then now + seconds else pattern.next_cleanup_time;
      },
    )
    ∷ schedule now seconds patterns

abbrev pub clean_all : (List ℕ → List ℕ → Files) → ℕ → ℕ → List (List ℕ × Pattern) → List (List ℕ)
clean_all scans current_time overdue [] = []
clean_all scans current_time overdue ((key, pattern) ∷ patterns) =
    clean_overdue_logs (scans key) current_time overdue key pattern
    ++ clean_all scans current_time overdue patterns

-- A round of the worker at a time of the steady clock and one of the wall clock, with the files that
-- it removes.
unfoldable pub worker_round :
    (List ℕ → List ℕ → Files) → ℕ → ℕ → ℕ → Cleaner → Cleaner × List (List ℕ)
unfolding due_patterns schedule clean_overdue_logs
worker_round scans now seconds current_time c =
    if c.enabled
    then (
      record c { patterns = schedule now seconds c.patterns },
      clean_all scans current_time c.overdue (due_patterns now c.patterns),
    )
    else (c, [])
