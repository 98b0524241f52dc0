-- ===== src/Demangle/Tables.antt =====
-- demangle.cc: no entry of a table hides another.
use ng_log.Prelude.{ℕ, ◌≡◌, refl, List, [], ◌∷◌, ◌++◌, some}
use ng_log.Demangle.Machine.{first, second}
use ng_log.Demangle.Operators.{operator_list, builtin_type_list, substitution_list}
use ng_log.Demangle.Names.{find_operator}
use ng_log.Demangle.Types.{find_substitution, find_builtin}

-- `P` holds of each element.
abbrev pub Each {ℓ} : {A : Type ℓ} → (A → Type 0) → List A → Type 0
Each P [] = Unit {0}
Each P (x ∷ xs) = P x × Each P xs

-- For each entry of `kOperatorList`, its two characters lead to this very entry: none is hidden
-- by an earlier one.
find_operator_complete :
    Each
      (λ o. find_operator (first o.abbrev_name) (second o.abbrev_name) operator_list ≡ some o)
      operator_list
unfolding find_operator
find_operator_complete = search refl depth 60 fits 9000

-- For each entry of `kBuiltinTypeList`, a text that begins with its code leads to this very entry,
-- whatever follows: no code of the table is the beginning of a later one.
find_builtin_complete :
    Each
      (λ p. (rest : List ℕ) → find_builtin (p.abbrev_name ++ rest) builtin_type_list ≡ some p)
      builtin_type_list
unfolding find_builtin
find_builtin_complete = search refl depth 60 fits 9000

-- For each entry of `kSubstitutionList`, its second character leads to this very entry.
find_substitution_complete :
    Each
      (λ p. find_substitution (second p.abbrev_name) substitution_list ≡ some p)
      substitution_list
unfolding find_substitution
find_substitution_complete = search refl depth 60 fits 9000
