-- ===== src/Levenshtein/Examples.antt =====
-- internal/levenshtein.cc: distances of flag values, and the witnesses.
use ng_log.Prelude.{ℕ, ◌≡◌, ◌≤◌, refl, List, [], ◌∷◌, arith, codes}
use mathlib.Core.List.{Memᴰ}
use ng_log.Levenshtein.Distance.{
  first_row, row_cells, next_row, all_rows, back, levenshtein_distance, try_candidate,
  try_candidates, find_closest_match,
}
use ng_log.Levenshtein.Scripts.{Script, done, replace}
use ng_log.Levenshtein.Rows.{levenshtein_distance-minimal}
use ng_log.Levenshtein.Closest.{find_closest_match-closest}

abbrev typed : List ℕ
typed = codes "alwys"

abbrev choices : List (List ℕ)
choices = codes "never" ∷ codes "always" ∷ codes "auto" ∷ []

kitten_sitting : levenshtein_distance (codes "kitten") (codes "sitting") ≡ 3
unfolding levenshtein_distance first_row row_cells next_row all_rows back
kitten_sitting = refl

alwys_always : levenshtein_distance typed (codes "always") ≡ 1
unfolding levenshtein_distance first_row row_cells next_row all_rows back
alwys_always = refl

closest_of_choices : find_closest_match typed choices ≡ codes "always"
unfolding find_closest_match try_candidates try_candidate levenshtein_distance first_row row_cells
    next_row all_rows back
closest_of_choices = refl

nothing_close : find_closest_match typed (codes "never" ∷ []) ≡ []
unfolding find_closest_match try_candidates try_candidate levenshtein_distance first_row row_cells
    next_row all_rows back
nothing_close = refl

levenshtein_distance-minimal_example :
    Script (codes "ab") (codes "cb") (levenshtein_distance (codes "ab") (codes "cb"))
    × (levenshtein_distance (codes "ab") (codes "cb") ≤ 1)
levenshtein_distance-minimal_example =
    levenshtein_distance-minimal (codes "ab") (codes "cb") 1 (replace (replace done))

find_closest_match-closest_example :
    Memᴰ (find_closest_match typed choices) choices
    × (levenshtein_distance typed (find_closest_match typed choices)
        ≤ levenshtein_distance typed (codes "always"))
find_closest_match-closest_example =
    find_closest_match-closest typed choices (codes "always") (omega arith)
      (Memᴰ.tail (Memᴰ.head refl)) (rw alwys_always (omega arith))
