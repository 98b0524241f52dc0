-- ===== src/Flags/Repeats.antt =====
-- internal/flag_registry.cc: what one parser leaves of the arguments another one leaves too.
use ng_log.Prelude.{ℕ, ◌≡◌, refl, sym, ap, ◌∙◌, List, [], ◌∷◌, ◌++◌, Option, none, some}
use mathlib.Core.List.{append-nil, append_assoc}
use ng_log.Flags.Registry.{Flag, Registry}
use ng_log.Flags.CommandLine.{
  Progress, Result, goes, exits, shows_help, parse_argument, and_then, finish, parse_arguments,
  begin, parse_command_line_flags, missing_value,
}
use ng_log.Flags.Effects.{
  passing_on, stays, Effect, consumed, kept, goes-eq, not-exits, not-help, parse_argument-Effect,
}

-- What is left of the arguments behind some that were parsed.
record Left (arguments : List (List ℕ)) (p q : Progress) : Type 0 where
  output : List (List ℕ)
  appended : q.output ≡ p.output ++ output
  again :
      (p' : Progress)
      → p'.registry.flags ≡ p.registry.flags
      → p'.end_of_flags ≡ p.end_of_flags
      → p'.pending ≡ none
      → parse_arguments passing_on output p'
        ≡ goes (record p' { output = p'.output ++ output; end_of_flags = q.end_of_flags })

end_of_arguments :
    (o : Option (Flag × List ℕ)) (p q : Progress) → finish o p ≡ goes q → (o ≡ none) × (p ≡ q)
end_of_arguments none p q h = (refl, goes-eq h)
end_of_arguments (some (flag, name)) p q h = not-exits (missing_value name) h

first_result :
    (r : Result) (f : Progress → Result) (q : Progress)
    → and_then r f ≡ goes q
    → (s : Progress) × (r ≡ goes s) × (f s ≡ goes q)
first_result (goes s) f q h = (s, refl, h)
first_result (exits failure) f q h = not-exits failure h
first_result shows_help f q h = not-help h

-- The rest of the arguments behind one that a parser took.
behind_first :
    (argument : List ℕ) (arguments : List (List ℕ)) (p s q : Progress)
    → Effect argument p s
    → Left arguments s q
    → Left (argument ∷ arguments) p q
unfolding parse_arguments
behind_first argument arguments p s q (consumed o e f) l = record {
  output = l.output;
  appended = l.appended ∙ ap (λ x. x ++ l.output) o;
  again = λ p' g h n. l.again p' (g ∙ sym f) (h ∙ sym e) n;
}
behind_first argument arguments p s q (kept o n f repeat) l = record {
  output = argument ∷ l.output;
  appended =
      l.appended ∙ ap (λ x. x ++ l.output) o ∙ append_assoc p.output (argument ∷ []) l.output;
  again = λ p' g h k.
      let p'' = stays argument s.end_of_flags p' in
      ap (λ r. and_then r (parse_arguments passing_on l.output)) (repeat p' g h k)
      ∙ l.again p'' (g ∙ sym f) refl k
      ∙ ap (λ x. goes (record p' { output = x; end_of_flags = q.end_of_flags }))
          (append_assoc p'.output (argument ∷ []) l.output);
}

parse_arguments-Left :
    (arguments : List (List ℕ)) (p q : Progress)
    → parse_arguments passing_on arguments p ≡ goes q
    → Left arguments p q
unfolding parse_arguments
parse_arguments-Left [] p q h =
    let (nothing, same) = end_of_arguments p.pending p q h in
    record {
      output = [];
      appended = ap (λ (r : Progress). r.output) (sym same) ∙ sym (append-nil p.output);
      again = λ p' f g n.
          ap (λ o. finish o p') n
          ∙ ap (λ x. goes (record p' { output = x })) (sym (append-nil p'.output))
          ∙ ap (λ b. goes (record p' { output = p'.output ++ []; end_of_flags = b }))
              (g ∙ ap (λ (r : Progress). r.end_of_flags) same);
    }
parse_arguments-Left (argument ∷ arguments) p q h =
    let (s, first, rest) =
      first_result (parse_argument passing_on argument p) (parse_arguments passing_on arguments) q
        h in
    behind_first argument arguments p s q (parse_argument-Effect argument p s first)
      (parse_arguments-Left arguments s q rest)

-- With kRemoveFlags and kIgnore a second parser of the arguments that the first one left sets no
-- flag and leaves them all.
pub parse_command_line_flags-again :
    (arguments : List (List ℕ)) (r s : Registry) (q : Progress)
    → parse_command_line_flags passing_on arguments r ≡ goes q
    → s.flags ≡ r.flags
    → parse_command_line_flags passing_on q.output s
      ≡ goes (record (begin s) { output = q.output; end_of_flags = q.end_of_flags })
unfolding parse_command_line_flags
parse_command_line_flags-again arguments r s q h same =
    let l = parse_arguments-Left arguments (begin r) q h in
    ap (λ x. parse_arguments passing_on x (begin s)) l.appended
    ∙ l.again (begin s) same refl refl
    ∙ ap (λ x. goes (record (begin s) { output = x; end_of_flags = q.end_of_flags }))
        (sym l.appended)
