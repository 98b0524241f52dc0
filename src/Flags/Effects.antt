-- ===== src/Flags/Effects.antt =====
-- internal/flag_registry.cc: how a parser takes an argument, and how another one would take it.
use ng_log.Prelude.{
  ℕ, ◌≡◌, refl, sym, ap, ◌∙◌, Bool, true, List, [], ◌∷◌, ◌++◌, Option, none, some, inl, inr,
  Bool-cases, Option-cases, if-true, if-false, codes, same_text,
}
use ng_log.Flags.Registry.{Flag, Registry, is_bool, find_flag, behind_no}
use ng_log.Flags.CommandLine.{
  Modes, Failure, Progress, Result, goes, exits, shows_help, set_value, set_parsed, set_from_string,
  split_equals, negated_flag, keep_argument, set_negated, set_flag, unknown_option, negated_option,
  found_option, help_option, long_option, behind_dashes, behind_dash, single_dash, option_argument,
  next_argument, parse_argument, bad_value, not_negatable, negated_with_value, help_with_value,
}

-- `kRemoveFlags` with `kIgnore`
abbrev pub passing_on : Modes
passing_on = record { removes = true; ignores = true }

-- An argument that stays, as each parser leaves it.
abbrev pub stays : List ℕ → Bool → Progress → Progress
stays argument at_end p = record p { output = p.output ++ (argument ∷ []); end_of_flags = at_end }

-- An argument is consumed, or it stays and does so for every parser with these flags.
pub data Effect (argument : List ℕ) (p q : Progress) : Type 0 where
  consumed :
      q.output ≡ p.output
      → q.end_of_flags ≡ p.end_of_flags
      → q.registry.flags ≡ p.registry.flags
      → Effect argument p q
  kept :
      q.output ≡ p.output ++ (argument ∷ [])
      → q.pending ≡ none
      → q.registry.flags ≡ p.registry.flags
      → ((p' : Progress)
          → p'.registry.flags ≡ p.registry.flags
          → p'.end_of_flags ≡ p.end_of_flags
          → p'.pending ≡ none
          → parse_argument passing_on argument p' ≡ goes (stays argument q.end_of_flags p'))
      → Effect argument p q

pub goes-eq : {p q : Progress} → goes p ≡ goes q → p ≡ q
goes-eq h = cc

pub not-exits : (failure : Failure) {q : Progress} {A : Type 0} → exits failure ≡ goes q → A
not-exits failure h = cc

pub not-help : {q : Progress} {A : Type 0} → shows_help ≡ goes q → A
not-help h = cc

set_parsed-Effect :
    (argument : List ℕ) (flag : Flag) (value : Option (List ℕ)) (p q : Progress)
    → set_parsed flag value p ≡ goes q
    → Effect argument p q
unfolding set_value
set_parsed-Effect argument flag none p q h = not-exits (bad_value flag.name) h
set_parsed-Effect argument flag (some value) p q h =
    let e = goes-eq h in
    consumed (ap (λ (r : Progress). r.output) (sym e))
      (ap (λ (r : Progress). r.end_of_flags) (sym e))
      (ap (λ (r : Progress). r.registry.flags) (sym e))

set_from_string-Effect :
    (argument : List ℕ) (flag : Flag) (text : List ℕ) (p q : Progress)
    → set_from_string flag text p ≡ goes q
    → Effect argument p q
unfolding set_from_string
set_from_string-Effect argument flag text p q h =
    set_parsed-Effect argument flag (flag.parses text) p q h

set_negated-Effect :
    (argument : List ℕ) (flag : Flag) (name : List ℕ) (value : Option (List ℕ)) (p q : Progress)
    → set_negated flag name value p ≡ goes q
    → Effect argument p q
set_negated-Effect argument flag name (some value) p q h = not-exits (negated_with_value name) h
set_negated-Effect argument flag name none p q h =
    set_from_string-Effect argument flag (codes "false") p q h

set_flag-Effect :
    (argument : List ℕ) (flag : Flag) (name : List ℕ) (value : Option (List ℕ)) (p q : Progress)
    → set_flag flag name value p ≡ goes q
    → Effect argument p q
set_flag-Effect argument flag name (some value) p q h =
    set_from_string-Effect argument flag value p q h
set_flag-Effect argument flag name none p q h = elim (Bool-cases (is_bool flag)) [
  | inl e ↦ set_from_string-Effect argument flag (codes "true") p q (sym (if-true _ _ e) ∙ h)
  | inr e ↦
      let s = goes-eq (sym (if-false _ _ e) ∙ h) in
      consumed (ap (λ (r : Progress). r.output) (sym s))
        (ap (λ (r : Progress). r.end_of_flags) (sym s))
        (ap (λ (r : Progress). r.registry.flags) (sym s))
]

-- Only the flags decide what a name finds.
find_flag-flags :
    (name : List ℕ) (r s : Registry) → r.flags ≡ s.flags → find_flag name r ≡ find_flag name s
unfolding find_flag
find_flag-flags name r s e = rw e refl

negated_flag-flags :
    (name : Option (List ℕ)) (r s : Registry)
    → r.flags ≡ s.flags
    → negated_flag name r ≡ negated_flag name s
negated_flag-flags none r s e = refl
negated_flag-flags (some name) r s e = find_flag-flags name r s e

-- An argument that stays where `dispatch` decides, which asks only what is common to the parsers.
kept-by :
    (argument : List ℕ) (p q : Progress) (at_end : Bool)
    → goes (stays argument at_end p) ≡ goes q
    → p.pending ≡ none
    → ((p' : Progress)
        → p'.registry.flags ≡ p.registry.flags
        → p'.end_of_flags ≡ p.end_of_flags
        → p'.pending ≡ none
        → parse_argument passing_on argument p' ≡ goes (stays argument at_end p'))
    → Effect argument p q
kept-by argument p q at_end h nothing again =
    let e = goes-eq h in
    kept (ap (λ (r : Progress). r.output) (sym e))
      (ap (λ (r : Progress). r.pending) (sym e) ∙ nothing)
      (ap (λ (r : Progress). r.registry.flags) (sym e))
      (λ p' f g n.
        again p' f g n ∙ ap (λ (r : Progress). goes (stays argument r.end_of_flags p')) e)

-- How another parser with these flags takes the argument.
abbrev Agrees : List ℕ → Progress → (Progress → Result) → Type 0
Agrees argument p dispatch =
    (p' : Progress)
    → p'.registry.flags ≡ p.registry.flags
    → p'.end_of_flags ≡ p.end_of_flags
    → p'.pending ≡ none
    → parse_argument passing_on argument p' ≡ dispatch p'

-- An argument that stays and says nothing about the end of the flags.
plain-Effect :
    (argument : List ℕ) (p q : Progress)
    → goes (keep_argument passing_on argument p) ≡ goes q
    → p.pending ≡ none
    → Agrees argument p (λ p'. goes (keep_argument passing_on argument p'))
    → Effect argument p q
unfolding keep_argument
plain-Effect argument p q h nothing agrees =
    kept-by argument p q p.end_of_flags h nothing
      (λ p' f g n. agrees p' f g n ∙ ap (λ b. goes (stays argument b p')) g)

single_dash-Effect :
    (argument : List ℕ) (d : Option (List ℕ)) (p q : Progress)
    → single_dash passing_on argument d p ≡ goes q
    → p.pending ≡ none
    → Agrees argument p (single_dash passing_on argument d)
    → Effect argument p q
unfolding single_dash
single_dash-Effect argument none p q h nothing agrees = plain-Effect argument p q h nothing agrees
single_dash-Effect argument (some option) p q h nothing agrees =
    plain-Effect argument p q h nothing agrees

negated_option-Effect :
    (argument name : List ℕ) (value : Option (List ℕ)) (o : Option Flag) (p q : Progress)
    → negated_option passing_on argument name value o p ≡ goes q
    → p.pending ≡ none
    → Agrees argument p (negated_option passing_on argument name value o)
    → Effect argument p q
unfolding unknown_option
negated_option-Effect argument name value none p q h nothing agrees =
    plain-Effect argument p q h nothing agrees
negated_option-Effect argument name value (some flag) p q h nothing agrees =
    elim (Bool-cases (is_bool flag)) [
      | inl e ↦ set_negated-Effect argument flag name value p q (sym (if-true _ _ e) ∙ h)
      | inr e ↦ not-exits (not_negatable name) (sym (if-false _ _ e) ∙ h)
    ]

found_option-Effect :
    (argument name : List ℕ) (value : Option (List ℕ)) (o : Option Flag) (p q : Progress)
    → found_option passing_on argument name value o p ≡ goes q
    → p.pending ≡ none
    → Agrees argument p (found_option passing_on argument name value o)
    → Effect argument p q
found_option-Effect argument name value (some flag) p q h nothing agrees =
    set_flag-Effect argument flag name value p q h
found_option-Effect argument name value none p q h nothing agrees =
    let negated = negated_flag (behind_no name) p.registry in
    negated_option-Effect argument name value negated p q h nothing (λ p' f g n.
      agrees p' f g n
      ∙ ap (λ o. negated_option passing_on argument name value o p')
          (negated_flag-flags (behind_no name) p'.registry p.registry f))

help_option-exits :
    (value : Option (List ℕ)) {q : Progress} {A : Type 0} → help_option value ≡ goes q → A
help_option-exits none h = not-help h
help_option-exits (some value) h = not-exits help_with_value h

long_option-Effect :
    (argument text : List ℕ) (p q : Progress)
    → long_option passing_on argument text p ≡ goes q
    → p.pending ≡ none
    → Agrees argument p (long_option passing_on argument text)
    → Effect argument p q
unfolding long_option
long_option-Effect argument text p q h nothing agrees =
    let name = (split_equals text).0 in
    let value = (split_equals text).1 in
    elim (Bool-cases (same_text name (codes "help"))) [
      | inl e ↦ help_option-exits value (sym (if-true _ _ e) ∙ h)
      | inr e ↦
          found_option-Effect argument name value (find_flag name p.registry) p q
            (sym (if-false _ _ e) ∙ h) nothing
            (λ p' f g n.
              agrees p' f g n
              ∙ if-false _ _ e
              ∙ ap (λ o. found_option passing_on argument name value o p')
                  (find_flag-flags name p'.registry p.registry f))
    ]

option_argument-Effect :
    (argument : List ℕ) (o : Option (List ℕ)) (p q : Progress)
    → option_argument passing_on argument o p ≡ goes q
    → p.pending ≡ none
    → Agrees argument p (option_argument passing_on argument o)
    → Effect argument p q
unfolding keep_argument
option_argument-Effect argument none p q h nothing agrees =
    single_dash-Effect argument (behind_dash argument) p q h nothing agrees
option_argument-Effect argument (some []) p q h nothing agrees =
    kept-by argument p q true h nothing agrees
option_argument-Effect argument (some (c ∷ text)) p q h nothing agrees =
    long_option-Effect argument (c ∷ text) p q h nothing agrees

pub parse_argument-Effect :
    (argument : List ℕ) (p q : Progress)
    → parse_argument passing_on argument p ≡ goes q
    → Effect argument p q
unfolding parse_argument
parse_argument-Effect argument p q h = elim (Option-cases p.pending) [
  | inr ((flag, name), e) ↦
      set_from_string-Effect argument flag argument p q
        (sym (ap (λ o. next_argument passing_on argument o p) e) ∙ h)
  | inl e ↦
      let h' = sym (ap (λ o. next_argument passing_on argument o p) e) ∙ h in
      elim (Bool-cases p.end_of_flags) [
        | inl t ↦
            plain-Effect argument p q (sym (if-true _ _ t) ∙ h') e
              (λ p' f g n. ap (λ o. next_argument passing_on argument o p') n ∙ if-true _ _ (g ∙ t))
        | inr t ↦
            option_argument-Effect argument (behind_dashes argument) p q (sym (if-false _ _ t) ∙ h')
              e
              (λ p' f g n.
                ap (λ o. next_argument passing_on argument o p') n ∙ if-false _ _ (g ∙ t))
      ]
]
