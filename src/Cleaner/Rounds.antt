-- ===== src/Cleaner/Rounds.antt =====
-- internal/log_cleaner.cc: the round of the worker behind `AddLogFile`.
use ng_log.Prelude.{
  ℕ, ◌+◌, ◌≡◌, ◌≤◌, refl, sym, ap, ◌∙◌, inl, inr, Bool, true, false, ◌&&◌, ◌||◌, List, [], ◌∷◌,
  arith, leb, if◌then◌else◌, if-true, if-false, Bool-cases, Option-cases, same_text, same_text-eq,
  same_text_self,
}
use mathlib.Core.Path.{subst}
use ng_log.Cleaner.Logs.{
  Files, Pattern, Cleaner, member, insert, ends_with_slash, is_over, filenames_in, at_last_slash,
  or_dot, directory_of, insert_all, keys, cleaned_directories, clean_overdue_logs, add_filename,
  new_pattern, update, name_of, with_file, add_log_file, due_patterns, schedule, clean_all,
  worker_round,
}
use ng_log.Cleaner.Names.{
  member-first, member-append, insert_self, insert-keeps, join_path-at_last_slash,
  at_last_slash-slash,
}
use ng_log.Cleaner.Overdue.{clean_overdue_logs_iff}

insert_all-keeps :
    (texts set : List (List ℕ)) (text : List ℕ)
    → member text set ≡ true
    → member text (insert_all texts set) ≡ true
insert_all-keeps [] set text h = h
insert_all-keeps (t ∷ texts) set text h =
    insert_all-keeps texts (insert (or_dot t) set) text (insert-keeps text (or_dot t) set h)

insert_all-adds :
    (texts set : List (List ℕ)) (text : List ℕ)
    → member text texts ≡ true
    → member (or_dot text) (insert_all texts set) ≡ true
unfolding member
insert_all-adds [] set text h = let absurd_listed : false ≡ true = h in cc
insert_all-adds (t ∷ texts) set text h = elim (Bool-cases (same_text t text)) [
  | inl e ↦ insert_all-keeps texts (insert (or_dot t) set) (or_dot text) (
      subst (λ x. member (or_dot x) (insert (or_dot t) set) ≡ true) (same_text-eq t text e)
        (insert_self (or_dot t) set))
  | inr e ↦
      insert_all-adds texts (insert (or_dot t) set) text
        (sym (ap (λ b. b || member text texts) e) ∙ h)
]

add_filename-listed :
    (directory name : List ℕ) (entries : List (List ℕ × List (List ℕ)))
    → member name (filenames_in directory (add_filename directory name entries)) ≡ true
unfolding add_filename filenames_in
add_filename-listed directory name [] =
    ap (member name) (if-true _ _ (same_text_self directory)) ∙ member-first name []
add_filename-listed directory name ((key, names) ∷ entries) =
    elim (Bool-cases (same_text key directory)) [
      | inl e ↦
          ap (λ x. member name (filenames_in directory x)) (if-true _ _ e)
          ∙ ap (member name) (if-true _ _ e)
          ∙ insert_self name names
      | inr e ↦
          ap (λ x. member name (filenames_in directory x)) (if-false _ _ e)
          ∙ ap (member name) (if-false _ _ e)
          ∙ add_filename-listed directory name entries
    ]

add_filename-key :
    (directory name : List ℕ) (entries : List (List ℕ × List (List ℕ)))
    → member directory (keys (add_filename directory name entries)) ≡ true
unfolding add_filename member
add_filename-key directory name [] = member-first directory []
add_filename-key directory name ((key, names) ∷ entries) =
    elim (Bool-cases (same_text key directory)) [
      | inl e ↦
          ap (λ x. member directory (keys x)) (if-true _ _ e)
          ∙ ap (λ b. b || member directory (keys entries)) e
      | inr e ↦
          ap (λ x. member directory (keys x)) (if-false _ _ e)
          ∙ ap (λ b. b || member directory (keys (add_filename directory name entries))) e
          ∙ add_filename-key directory name entries
    ]

or_dot-slash :
    (directory : List ℕ) → ends_with_slash directory ≡ true → or_dot directory ≡ directory
unfolding ends_with_slash
or_dot-slash [] h = cc
or_dot-slash (c ∷ directory) h = refl

or_dot-directory_of :
    (text : List ℕ) → or_dot (directory_of (at_last_slash text)) ≡ directory_of (at_last_slash text)
or_dot-directory_of text = elim (Option-cases (at_last_slash text)) [
  | inl e ↦ rw e refl
  | inr ((directory, name), e) ↦
      rw e (or_dot-slash directory (at_last_slash-slash text directory name e))
]

-- The file of a pattern that AddLogFile has just changed is removed when it is overdue.
with_file-removed :
    (scans : List ℕ → Files) (current_time overdue : ℕ) (is_selected : Bool)
    (base_filename filename : List ℕ) (matches : List ℕ → Bool) (directories : List (List ℕ))
    (pattern : Pattern)
    → is_over current_time overdue
        ((scans (directory_of (at_last_slash filename))).modified filename)
      ≡ true
    → member filename (
        clean_overdue_logs scans current_time overdue base_filename
          (with_file is_selected filename matches directories pattern))
      ≡ true
unfolding cleaned_directories
with_file-removed scans current_time overdue is_selected base_filename filename matches directories
      pattern over =
    let directory = directory_of (at_last_slash filename) in
    let name = name_of filename (at_last_slash filename) in
    let new = with_file is_selected filename matches directories pattern in
    let joined = join_path-at_last_slash filename in
    (clean_overdue_logs_iff scans current_time overdue base_filename new filename).1 (
      directory,
      subst (λ x. member x (cleaned_directories base_filename new) ≡ true)
          (or_dot-directory_of filename)
          (insert_all-adds (keys new.filenames_by_directory) _ directory
            (add_filename-key directory name pattern.filenames_by_directory)),
      record {
        name = name;
        is_log =
            ap (λ b. b || matches name && member name ((scans directory).names directory))
              (add_filename-listed directory name pattern.filenames_by_directory);
        over = ap (λ x. is_over current_time overdue ((scans directory).modified x)) joined ∙ over;
        joined = joined;
      },
    )

update-removed :
    (scans : List ℕ → List ℕ → Files) (now current_time overdue : ℕ) (base_filename path : List ℕ)
    (op : Pattern → Pattern) (patterns : List (List ℕ × Pattern))
    → ((p : Pattern) → (op p).next_cleanup_time ≡ 0)
    → ((p : Pattern)
        → member path
            (clean_overdue_logs (scans base_filename) current_time overdue base_filename (op p))
          ≡ true)
    → member path
        (clean_all scans current_time overdue (due_patterns now (update base_filename op patterns)))
      ≡ true
unfolding update due_patterns
update-removed scans now current_time overdue base_filename path op [] due removed =
    let now_due : leb (op new_pattern).next_cleanup_time now ≡ true =
      ground (arith, due new_pattern) in
    ap (λ x. member path (clean_all scans current_time overdue x)) (if-true _ _ now_due)
    ∙ member-append path
        (clean_overdue_logs (scans base_filename) current_time overdue base_filename
          (op new_pattern))
        []
    ∙ ap (λ b. b || member path []) (removed new_pattern)
update-removed scans now current_time overdue base_filename path op ((key, pattern) ∷ patterns) due
      removed =
    elim (Bool-cases (same_text key base_filename)) [
      | inl e ↦
          let now_due : leb (op pattern).next_cleanup_time now ≡ true =
            ground (arith, due pattern) in
          ap (λ x. member path (clean_all scans current_time overdue (due_patterns now x)))
            (if-true _ _ e)
          ∙ ap (λ x. member path (clean_all scans current_time overdue x)) (if-true _ _ now_due)
          ∙ member-append path
              (clean_overdue_logs (scans key) current_time overdue key (op pattern)) _
          ∙ ap
              (λ b.
                b || member path (clean_all scans current_time overdue (due_patterns now patterns)))
              (subst
                (λ k.
                  member path (clean_overdue_logs (scans k) current_time overdue k (op pattern))
                  ≡ true)
                (sym (same_text-eq key base_filename e)) (removed pattern))
      | inr e ↦
          let rest =
            update-removed scans now current_time overdue base_filename path op patterns due
              removed in
          ap (λ x. member path (clean_all scans current_time overdue (due_patterns now x)))
            (if-false _ _ e)
          ∙ elim (Bool-cases (leb pattern.next_cleanup_time now)) [
            | inr q ↦
                ap (λ x. member path (clean_all scans current_time overdue x)) (if-false _ _ q)
                ∙ rest
            | inl q ↦
                ap (λ x. member path (clean_all scans current_time overdue x)) (if-true _ _ q)
                ∙ member-append path
                    (clean_overdue_logs (scans key) current_time overdue key pattern) _
                ∙ ground (arith, rest)
          ]
    ]

-- While the cleaner is enabled the round behind AddLogFile removes the file if it is overdue then.
pub add_log_file-removed :
    (scans : List ℕ → List ℕ → Files) (now seconds current_time : ℕ) (is_selected : Bool)
    (base_filename filename : List ℕ) (matches : List ℕ → Bool) (directories : List (List ℕ))
    (c : Cleaner)
    → c.enabled ≡ true
    → is_over current_time c.overdue
        ((scans base_filename (directory_of (at_last_slash filename))).modified filename)
      ≡ true
    → member filename
        (worker_round scans now seconds current_time
          (add_log_file is_selected base_filename filename matches directories c)).1
      ≡ true
unfolding worker_round add_log_file
add_log_file-removed scans now seconds current_time is_selected base_filename filename matches
      directories c on over =
    ap (λ (r : Cleaner × List (List ℕ)). member filename r.1) (if-true _ _ on)
    ∙ update-removed scans now current_time c.overdue base_filename filename
        (with_file is_selected filename matches directories) c.patterns (λ p. refl)
        (λ p.
          with_file-removed (scans base_filename) current_time c.overdue is_selected base_filename
            filename matches directories p over)

-- Behind a round no pattern is due at its time, if the rounds have an interval.
pub due_patterns-schedule :
    (now seconds : ℕ) (patterns : List (List ℕ × Pattern))
    → 1 ≤ seconds
    → due_patterns now (schedule now seconds patterns) ≡ []
unfolding due_patterns schedule
due_patterns-schedule now seconds [] h = refl
due_patterns-schedule now seconds ((key, pattern) ∷ patterns) h =
    let later : leb
          (if leb pattern.next_cleanup_time now then now + seconds else pattern.next_cleanup_time)
          now
        ≡ false =
      ground arith in
    if-false _ _ later ∙ due_patterns-schedule now seconds patterns h
