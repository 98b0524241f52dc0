-- ===== src/Flags/Options.antt =====
-- internal/flag_registry.cc: the arguments behind "--".
use ng_log.Prelude.{
  ℕ, ◌≡◌, refl, sym, ap, ◌∙◌, Bool, true, false, List, [], ◌∷◌, ◌++◌, none, if◌then◌else◌, inl, inr,
  Bool-cases, if-true, if-false,
}
use mathlib.Core.List.{append-nil, append_assoc}
use ng_log.Flags.CommandLine.{
  Modes, Progress, goes, keep_argument, next_argument, parse_argument, and_then, finish,
  parse_arguments,
}

-- The arguments that a parser leaves when it takes none.
abbrev pub all_left : Modes → Progress → List (List ℕ) → List (List ℕ)
all_left m p arguments = if m.removes then p.output ++ arguments else p.output

-- Behind the separator no argument sets a flag, and kRemoveFlags leaves them all in their order.
pub parse_arguments-end :
    (m : Modes) (arguments : List (List ℕ)) (p : Progress)
    → p.end_of_flags ≡ true
    → p.pending ≡ none
    → parse_arguments m arguments p ≡ goes (record p { output = all_left m p arguments })
unfolding parse_arguments parse_argument keep_argument
parse_arguments-end m [] p e n =
    ap (λ o. finish o p) n ∙ ap (λ x. goes (record p { output = x })) (unchanged m.removes)
  where
    unchanged : (b : Bool) → p.output ≡ (if b then p.output ++ [] else p.output)
    unchanged true = sym (append-nil p.output)
    unchanged false = refl
parse_arguments-end m (argument ∷ arguments) p e n =
    ap (λ r. and_then r (parse_arguments m arguments))
      (ap (λ o. next_argument m argument o p) n ∙ if-true _ _ e)
    ∙ elim (Bool-cases m.removes) [
      | inl t ↦
          let q = record p { output = p.output ++ (argument ∷ []) } in
          ap (parse_arguments m arguments) (if-true _ _ t)
          ∙ parse_arguments-end m arguments q e n
          ∙ ap (λ x. goes (record p { output = x }))
              (if-true _ _ t
                ∙ append_assoc p.output (argument ∷ []) arguments
                ∙ sym (if-true _ _ t))
      | inr t ↦
          ap (parse_arguments m arguments) (if-false _ _ t)
          ∙ parse_arguments-end m arguments p e n
          ∙ ap (λ x. goes (record p { output = x })) (if-false _ _ t ∙ sym (if-false _ _ t))
    ]
