-- ===== src/Cleaner/Examples.antt =====
-- internal/log_cleaner.cc: two log files, one of which is overdue.
use ng_log.Prelude.{
  ℕ, ◌≡◌, ◌↔◌, refl, true, List, [], ◌∷◌, none, some, codes, same_text, if◌then◌else◌,
}
use ng_log.Cleaner.Logs.{
  Files, Pattern, Cleaner, member, cleaned_directories, clean_overdue_logs, add_log_file,
  worker_round, with_file, new_pattern, at_last_slash, get_overdue_log_names, filenames_in,
  add_overdue, join_path, insert, add_filename, ends_with_slash,
}
use ng_log.Cleaner.Overdue.{Overdue, clean_overdue_logs_iff}
use ng_log.Cleaner.Rounds.{add_log_file-removed}

abbrev old_log : List ℕ
old_log = codes "/var/log/app.1"

-- Only the old log exists; it was modified at 5.
abbrev var_log : Files
var_log = record {
  modified = λ path. if same_text path old_log then some 5 else none;
  names = λ directory. codes "app.1" ∷ codes "app.2" ∷ [];
}

abbrev app_pattern : Pattern
app_pattern = with_file true old_log (λ name. true) [] new_pattern

abbrev new_cleaner : Cleaner
new_cleaner = record { enabled = true; overdue = 10; patterns = [] }

removed_logs :
    clean_overdue_logs (λ directory. var_log) 20 10 (codes "/var/log/app.") app_pattern
    ≡ old_log ∷ []
unfolding clean_overdue_logs cleaned_directories get_overdue_log_names filenames_in add_overdue
    join_path insert add_filename at_last_slash member same_text ends_with_slash
removed_logs = refl

clean_overdue_logs_iff_example :
    (member old_log
        (clean_overdue_logs (λ directory. var_log) 20 10 (codes "/var/log/app.") app_pattern)
      ≡ true)
    ↔ ((directory : List ℕ) × (member directory
            (cleaned_directories (codes "/var/log/app.") app_pattern)
          ≡ true)
        × Overdue var_log 20 10 app_pattern directory old_log)
clean_overdue_logs_iff_example =
    clean_overdue_logs_iff (λ directory. var_log) 20 10 (codes "/var/log/app.") app_pattern old_log

add_log_file-removed_example :
    member old_log
      (worker_round
        (λ base directory. var_log)
        100
        60
        20
        (add_log_file true (codes "/var/log/app.") old_log (λ name. true) [] new_cleaner)).1
    ≡ true
unfolding same_text
add_log_file-removed_example =
    add_log_file-removed (λ base directory. var_log) 100 60 20 true (codes "/var/log/app.") old_log
      (λ name. true) [] new_cleaner refl refl
