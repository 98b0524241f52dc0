-- ===== src/Demangle/Listed.antt =====
-- What is read from the tables of operators, builtin types and substitutions.
use mathlib.Core.Option.{Option, none, some}
use ng_log.Prelude.{
  ℕ, ◌+◌, ◌≤◌, ◌≡◌, inl, inr, Bool, true, false, ◌&&◌, List, [], ◌∷◌, arith, codes, length, ◌==◌,
  Bool-cases, length-drop,
}
use ng_log.Demangle.Machine.{Machine, first, second, is_lower, is_alpha, str_prefix}
use ng_log.Demangle.Output.{maybe_append}
use ng_log.Demangle.Parser.{fail, act, ◌&◌, reading, branch}
use ng_log.Demangle.Numerals.{skip_text}
use ng_log.Demangle.Operators.{Operator, Abbrev, operator_list, builtin_type_list}
use ng_log.Demangle.Names.{find_operator, print_operator, listed_operator, parse_listed_operator}
use ng_log.Demangle.Types.{
  print_substitution, listed_substitution, parse_substitution, find_builtin, listed_builtin,
  parse_listed_builtin, parse_template_param, parse_template_template_param, parse_cv_qualifiers,
}
use ng_log.Demangle.Moves.{Sound, Moved, Moved-refl, Moved-trans, cost, Ends, Good, Moves}
use ng_log.Demangle.Writes.{maybe_append-Moves, if-Moved}
use ng_log.Demangle.Numbers.{skip_text-Moves}
use ng_log.Demangle.Acts.{token_rules}
use ng_log.Demangle.NamesGood.{abi_tags-Good}
use ng_log.Demangle.Rules.{act-Good, fail-Good, &-both, optional-Good}

-- The text goes on by `size` characters, of at least as many, behind a function that writes.
skip-Ends :
    (c : Bool) (f : Machine → Machine) (size : ℕ) (m : Machine)
    → Moves f
    → Sound m
    → 1 ≤ size
    → size ≤ length m.mangled_cur
    → Ends c m ((act f & act (skip_text size)) m)
unfolding ◌&◌ act
skip-Ends c f size m h s l w =
    let written = h.at m s in
    let skipped = (skip_text-Moves size).at (f m) written.sound in
    (Moved-trans m (f m) _ written skipped, cost_le c written)
  where
    cost_le :
        (c : Bool)
        → Moved m (f m)
        → length (skip_text size (f m)).mangled_cur + cost true c ≤ length m.mangled_cur
    cost_le true k =
        unfold skip_text in omega (arith, length-drop size (f m).mangled_cur, k.shorter)
    cost_le false k =
        unfold skip_text in omega (arith, length-drop size (f m).mangled_cur, k.shorter)

-- A letter and a letter are two characters in front of the null character.
two_letters :
    (text : List ℕ) → (is_lower (first text) && is_alpha (second text)) ≡ true → 2 ≤ length text
unfolding is_lower is_alpha
two_letters [] h = ground arith
two_letters (c ∷ []) h = ground arith
two_letters (c ∷ d ∷ text) h = omega arith

print_operator-Moves : (o : Operator) → Moves (print_operator o)
unfolding print_operator
print_operator-Moves o = record {
  at = λ m s.
      let named = (maybe_append-Moves (codes "operator")).at m s in
      let spaced =
        if-Moved (is_lower (first o.real_name)) m _ _
          (Moved-trans _ _ _ named ((maybe_append-Moves (codes " ")).at _ named.sound)) named in
      Moved-trans _ _ _ spaced ((maybe_append-Moves o.real_name).at _ spaced.sound);
}

pub listed_operator-Good : {n : ℕ} {c : Bool} → Good n c parse_listed_operator
unfolding parse_listed_operator branch reading fail
listed_operator-Good {n} {c} = record {
  at = λ m s r.
      elim (Bool-cases (is_lower (first m.mangled_cur) && is_alpha (second m.mangled_cur))) [
        | inr other ↦ rw other (Moved-refl m s, omega arith)
        | inl letters ↦ rw letters (
            found (find_operator (first m.mangled_cur) (second m.mangled_cur) operator_list) m s
              (two_letters m.mangled_cur letters))
      ];
}
  where
    found :
        (o : Option Operator) (m : Machine)
        → Sound m
        → 2 ≤ length m.mangled_cur
        → Ends c m (listed_operator o m)
    found none m s l = unfold listed_operator fail in (Moved-refl m s, omega arith)
    found (some o) m s l =
        unfold listed_operator in
        skip-Ends c (print_operator o) 2 m (print_operator-Moves o) s (omega arith) l

print_substitution-Moves : (p : Abbrev) → Moves (print_substitution p)
unfolding print_substitution
print_substitution-Moves p = record {
  at = λ m s.
      let std = (maybe_append-Moves (codes "std")).at m s in
      let colons = Moved-trans _ _ _ std ((maybe_append-Moves (codes "::")).at _ std.sound) in
      if-Moved (first p.real_name == 0) m _ _ std
        (Moved-trans _ _ _ colons ((maybe_append-Moves p.real_name).at _ colons.sound));
}

listed_substitution-Good : {n : ℕ} (o : Option Abbrev) → Good n false (listed_substitution o)
unfolding listed_substitution
listed_substitution-Good none = fail-Good
listed_substitution-Good (some p) =
    &-both (act-Good (print_substitution-Moves p))
      (&-both (act-Good (skip_text-Moves 1)) (optional-Good abi_tags-Good))

pub substitution-Good : {n : ℕ} {c : Bool} → Good n c parse_substitution
unfolding parse_substitution
substitution-Good = search (token_rules, abi_tags-Good, listed_substitution-Good) depth 12 fits 5000

pub template_param-Good : {n : ℕ} {c : Bool} → Good n c parse_template_param
unfolding parse_template_param
template_param-Good = search token_rules depth 12 fits 5000

pub template_template_param-Good : {n : ℕ} {c : Bool} → Good n c parse_template_template_param
unfolding parse_template_template_param
template_template_param-Good = search (token_rules, template_param-Good, substitution-Good)

pub cv_qualifiers-Good : {n : ℕ} {c : Bool} → Good n c parse_cv_qualifiers
unfolding parse_cv_qualifiers
cv_qualifiers-Good = search token_rules depth 12 fits 5000

str_prefix-le : (text p : List ℕ) → str_prefix text p ≡ true → length p ≤ length text
unfolding str_prefix
str_prefix-le text [] h = omega arith
str_prefix-le [] (p ∷ ps) h = cc
str_prefix-le (c ∷ cs) (p ∷ ps) h = ground (arith, str_prefix-le cs ps)

abbrev Named : List Abbrev → Type 0
Named [] = Unit {0}
Named (p ∷ ps) = (1 ≤ length p.abbrev_name) × Named ps

abbrev Fits : List ℕ → Option Abbrev → Type 0
Fits text none = Unit {0}
Fits text (some p) = (1 ≤ length p.abbrev_name) × (length p.abbrev_name ≤ length text)

find_builtin-Fits : (text : List ℕ) (ps : List Abbrev) → Named ps → Fits text (find_builtin text ps)
unfolding find_builtin
find_builtin-Fits text [] h = tt
find_builtin-Fits text (p ∷ ps) h = elim (Bool-cases (str_prefix text p.abbrev_name)) [
  | inl e ↦ rw e (h.0, str_prefix-le text p.abbrev_name e)
  | inr e ↦ rw e (find_builtin-Fits text ps h.1)
]

pub listed_builtin-Good : {n : ℕ} {c : Bool} → Good n c parse_listed_builtin
unfolding parse_listed_builtin reading
listed_builtin-Good {n} {c} = record {
  at = λ m s r.
      found (find_builtin m.mangled_cur builtin_type_list) m s
        (find_builtin-Fits m.mangled_cur builtin_type_list (omega arith));
}
  where
    found :
        (o : Option Abbrev) (m : Machine)
        → Sound m
        → Fits m.mangled_cur o
        → Ends c m (listed_builtin o m)
    found none m s l = unfold listed_builtin fail in (Moved-refl m s, omega arith)
    found (some p) m s l =
        unfold listed_builtin in
        skip-Ends c (maybe_append p.real_name) (length p.abbrev_name) m
          (maybe_append-Moves p.real_name) s l.0 l.1
