-- ===== src/Cleaner/Additions.antt =====
-- internal/log_cleaner.cc: the names that a loop adds.
use ng_log.Prelude.{
  ℕ, ◌≡◌, sym, ap, ◌∙◌, ◌⊎◌, inl, inr, Bool, true, false, ◌&&◌, ◌||◌, List, [], ◌∷◌, arith,
  if◌then◌else◌, if-true, if-false, Bool-cases, and-first, and-second, same_text, same_text-eq,
}
use mathlib.Core.Path.{subst}
use ng_log.Cleaner.Logs.{Files, member, insert, join_path, is_over, add_overdue}
use ng_log.Cleaner.Names.{member-first, insert_self, insert-keeps, member-insert}

-- A name of a directory that passes a test, and whose file is overdue.
pub record Passes (test : List ℕ → Bool) (files : Files) (current_time overdue : ℕ)
    (directory : List ℕ) (names : List (List ℕ)) (path : List ℕ) : Type 0 where
  pub name : List ℕ
  pub listed : member name names ≡ true
  pub passed : test name ≡ true
  pub over : is_over current_time overdue (files.modified (join_path directory name)) ≡ true
  pub joined : join_path directory name ≡ path

module _ (test : List ℕ → Bool) (files : Files) (current_time overdue : ℕ)
    (directory : List ℕ) where
  abbrev counts : List ℕ → Bool
  counts name =
      test name && is_over current_time overdue (files.modified (join_path directory name))

  abbrev added : List ℕ → List (List ℕ) → List (List ℕ)
  added name logs = if counts name then insert (join_path directory name) logs else logs

  added-keeps :
      (name path : List ℕ) (logs : List (List ℕ))
      → member path logs ≡ true
      → member path (added name logs) ≡ true
  added-keeps name path logs h = elim (Bool-cases (counts name)) [
    | inl e ↦ ap (member path) (if-true _ _ e) ∙ insert-keeps path (join_path directory name) logs h
    | inr e ↦ ap (member path) (if-false _ _ e) ∙ h
  ]

  pub add_overdue-keeps :
      (names logs : List (List ℕ)) (path : List ℕ)
      → member path logs ≡ true
      → member path (add_overdue test files current_time overdue directory names logs) ≡ true
  unfolding add_overdue
  add_overdue-keeps [] logs path h = h
  add_overdue-keeps (name ∷ names) logs path h =
      add_overdue-keeps names (added name logs) path (added-keeps name path logs h)

  pub add_overdue-adds :
      (names logs : List (List ℕ)) (path : List ℕ)
      → Passes test files current_time overdue directory names path
      → member path (add_overdue test files current_time overdue directory names logs) ≡ true
  unfolding add_overdue member
  add_overdue-adds [] logs path p = let absurd_listed : false ≡ true = p.listed in cc
  add_overdue-adds (name ∷ names) logs path p = elim (Bool-cases (same_text name p.name)) [
    | inl e ↦
        let same = same_text-eq name p.name e in
        let good : counts name ≡ true =
          ap counts same
          ∙ ap
              (λ b. b && is_over current_time overdue (files.modified (join_path directory p.name)))
              p.passed
          ∙ p.over in
        add_overdue-keeps names (added name logs) path (
          ap (member path) (if-true _ _ good)
          ∙ subst (λ t. member t (insert (join_path directory name) logs) ≡ true)
              (ap (join_path directory) same ∙ p.joined)
              (insert_self (join_path directory name) logs))
    | inr e ↦ add_overdue-adds names (added name logs) path (record {
      name = p.name;
      listed = sym (ap (λ b. b || member p.name names) e) ∙ p.listed;
      passed = p.passed;
      over = p.over;
      joined = p.joined;
    })
  ]

  pub add_overdue-Passes :
      (names logs : List (List ℕ)) (path : List ℕ)
      → member path (add_overdue test files current_time overdue directory names logs) ≡ true
      → (member path logs ≡ true) ⊎ Passes test files current_time overdue directory names path
  unfolding add_overdue member
  add_overdue-Passes [] logs path h = inl h
  add_overdue-Passes (name ∷ names) logs path h =
      elim (add_overdue-Passes names (added name logs) path h) [
        | inr p ↦ inr (record {
          name = p.name;
          listed = ground (arith, p.listed);
          passed = p.passed;
          over = p.over;
          joined = p.joined;
        })
        | inl m ↦ elim (Bool-cases (counts name)) [
          | inr e ↦ inl (sym (ap (member path) (if-false _ _ e)) ∙ m)
          | inl e ↦
              elim (member-insert path (join_path directory name) logs
                (sym (ap (member path) (if-true _ _ e)) ∙ m)) [
                  | inl k ↦ inl k
                  | inr q ↦ inr (record {
                    name = name;
                    listed = member-first name names;
                    passed = and-first (test name) _ e;
                    over = and-second (test name) _ e;
                    joined = q;
                  })
                ]
        ]
      ]
