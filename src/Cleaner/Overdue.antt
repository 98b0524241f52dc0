-- ===== src/Cleaner/Overdue.antt =====
-- internal/log_cleaner.cc: which files `CleanOverdueLogs` removes.
use ng_log.Prelude.{
  ℕ, ◌≡◌, refl, sym, ap, ◌∙◌, ◌⊎◌, ◌↔◌, inl, inr, Bool, true, false, ◌&&◌, ◌||◌, List, [], ◌∷◌,
  arith, Bool-cases, and-first, and-second, same_text, same_text-eq,
}
use mathlib.Core.Path.{subst}
use ng_log.Cleaner.Logs.{
  Files, Pattern, member, join_path, is_over, add_overdue, filenames_in, get_overdue_log_names,
  cleaned_directories, from_directories, clean_overdue_logs,
}
use ng_log.Cleaner.Names.{member-first, member-append}
use ng_log.Cleaner.Additions.{add_overdue-keeps, add_overdue-adds, add_overdue-Passes}

-- A file of a directory that is overdue, and which this process created there or whose name matches.
pub record Overdue (files : Files) (current_time overdue : ℕ) (pattern : Pattern)
    (directory path : List ℕ) : Type 0 where
  pub name : List ℕ
  pub is_log :
      (member name (filenames_in directory pattern.filenames_by_directory)
        || pattern.filename_matches name && member name (files.names directory))
      ≡ true
  pub over : is_over current_time overdue (files.modified (join_path directory name)) ≡ true
  pub joined : join_path directory name ≡ path

or-cases : (a b : Bool) → (a || b) ≡ true → (a ≡ true) ⊎ (b ≡ true)
or-cases true b h = inl h
or-cases false b h = inr h

module _ (files : Files) (current_time overdue : ℕ) (pattern : Pattern)
    (directory path : List ℕ) where
  pub get_overdue_log_names-adds :
      Overdue files current_time overdue pattern directory path
      → member path (get_overdue_log_names files current_time overdue pattern directory) ≡ true
  unfolding get_overdue_log_names
  get_overdue_log_names-adds p =
      let exact =
        add_overdue (λ name. true) files current_time overdue directory
          (filenames_in directory pattern.filenames_by_directory) [] in
      elim (or-cases (member p.name (filenames_in directory pattern.filenames_by_directory)) _
        p.is_log) [
          | inl e ↦
              add_overdue-keeps pattern.filename_matches files current_time overdue directory
                (files.names directory) exact path
                (add_overdue-adds (λ name. true) files current_time overdue directory
                  (filenames_in directory pattern.filenames_by_directory) [] path
                  (record {
                    name = p.name;
                    listed = e;
                    passed = refl;
                    over = p.over;
                    joined = p.joined;
                  }))
          | inr e ↦
              add_overdue-adds pattern.filename_matches files current_time overdue directory
                (files.names directory) exact path
                (record {
                  name = p.name;
                  listed = and-second (pattern.filename_matches p.name) _ e;
                  passed = and-first (pattern.filename_matches p.name) _ e;
                  over = p.over;
                  joined = p.joined;
                })
        ]

  get_overdue_log_names-Overdue :
      member path (get_overdue_log_names files current_time overdue pattern directory) ≡ true
      → Overdue files current_time overdue pattern directory path
  unfolding get_overdue_log_names member
  get_overdue_log_names-Overdue h =
      let exact =
        add_overdue (λ name. true) files current_time overdue directory
          (filenames_in directory pattern.filenames_by_directory) [] in
      elim (add_overdue-Passes pattern.filename_matches files current_time overdue directory
        (files.names directory) exact path h) [
          | inr p ↦ record {
            name = p.name;
            is_log = ground (arith, p.passed, p.listed);
            over = p.over;
            joined = p.joined;
          }
          | inl m ↦
              elim (add_overdue-Passes (λ name. true) files current_time overdue directory
                (filenames_in directory pattern.filenames_by_directory) [] path m) [
                  | inl none_there ↦ cc
                  | inr p ↦ record {
                    name = p.name;
                    is_log =
                        ap
                          (λ b.
                            b
                            || pattern.filename_matches p.name
                              && member p.name (files.names directory))
                          p.listed;
                    over = p.over;
                    joined = p.joined;
                  }
                ]
        ]

module _ (scans : List ℕ → Files) (current_time overdue : ℕ) (pattern : Pattern)
    (path : List ℕ) where
  pub from_directories-adds :
      (dirs : List (List ℕ)) (directory : List ℕ)
      → member directory dirs ≡ true
      → Overdue (scans directory) current_time overdue pattern directory path
      → member path (from_directories scans current_time overdue pattern dirs) ≡ true
  unfolding member
  from_directories-adds [] directory h p = let absurd_listed : false ≡ true = h in cc
  from_directories-adds (d ∷ dirs) directory h p =
      member-append path (get_overdue_log_names (scans d) current_time overdue pattern d) _
      ∙ elim (Bool-cases (same_text d directory)) [
        | inl e ↦
            ap (λ b. b || member path (from_directories scans current_time overdue pattern dirs))
              (subst
                (λ x.
                  member path (get_overdue_log_names (scans x) current_time overdue pattern x)
                  ≡ true)
                (sym (same_text-eq d directory e))
                (get_overdue_log_names-adds (scans directory) current_time overdue pattern directory
                  path p))
        | inr e ↦
            let rest =
              from_directories-adds dirs directory
                (sym (ap (λ b. b || member directory dirs) e) ∙ h) p in
            ground (arith, rest)
      ]

  from_directories-Overdue :
      (dirs : List (List ℕ))
      → member path (from_directories scans current_time overdue pattern dirs) ≡ true
      → (directory : List ℕ) × (member directory dirs ≡ true)
        × Overdue (scans directory) current_time overdue pattern directory path
  unfolding member
  from_directories-Overdue [] h = let absurd_listed : false ≡ true = h in cc
  from_directories-Overdue (d ∷ dirs) h =
      elim (or-cases (member path (get_overdue_log_names (scans d) current_time overdue pattern d))
        _
        (sym (member-append path (get_overdue_log_names (scans d) current_time overdue pattern d) _)
          ∙ h)) [
            | inl e ↦ (
              d,
              member-first d dirs,
              get_overdue_log_names-Overdue (scans d) current_time overdue pattern d path e,
            )
            | inr e ↦
                let (directory, listed, p) = from_directories-Overdue dirs e in
                (directory, ground (arith, listed), p)
          ]

-- CleanOverdueLogs removes exactly the files of the directories of a pattern that are overdue, and
-- which this process created there or whose names match.
pub clean_overdue_logs_iff :
    (scans : List ℕ → Files) (current_time overdue : ℕ) (base_filename : List ℕ) (pattern : Pattern)
    (path : List ℕ)
    → (member path (clean_overdue_logs scans current_time overdue base_filename pattern) ≡ true) ↔ (
        (directory : List ℕ) × (member directory (cleaned_directories base_filename pattern) ≡ true)
        × Overdue (scans directory) current_time overdue pattern directory path)
unfolding clean_overdue_logs
clean_overdue_logs_iff scans current_time overdue base_filename pattern path = (
  from_directories-Overdue scans current_time overdue pattern path
      (cleaned_directories base_filename pattern),
  λ (directory, listed, p).
      from_directories-adds scans current_time overdue pattern path
        (cleaned_directories base_filename pattern) directory listed p,
)
