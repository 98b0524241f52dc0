-- ===== src/Levenshtein/Distance.antt =====
-- internal/levenshtein.cc: `LevenshteinDistance` and `FindClosestMatch`. A `size_t` is a number.
use ng_log.Prelude.{
  ℕ, zero, suc, ◌+◌, ◌-◌, ◌/◌, ◌^◌, List, [], ◌∷◌, ltb, leb, ◌==◌, if◌then◌else◌, length,
}

abbrev pub min_of_three : ℕ → ℕ → ℕ → ℕ
min_of_three a b c = let least = if ltb b a then b else a in if ltb c least then c else least

abbrev pub substitution_cost : ℕ → ℕ → ℕ
substitution_cost a b = if a == b then 0 else 1

-- `previous` before the first round, from `index` on
unfoldable pub first_row : ℕ → ℕ → List ℕ
first_row index zero = index ∷ []
first_row index (suc n) = index ∷ first_row (suc index) n

-- The cells of `current` behind the one that holds `left`. Above it stands `diagonal`, and
-- `previous` goes on with the last argument.
unfoldable pub row_cells : ℕ → ℕ → ℕ → List ℕ → List ℕ → List ℕ
row_cells a left diagonal [] above = []
row_cells a left diagonal (b ∷ second) [] = []
row_cells a left diagonal (b ∷ second) (up ∷ above) =
    let cell = min_of_three (up + 1) (left + 1) (diagonal + substitution_cost a b) in
    cell ∷ row_cells a cell up second above

-- One round of the outer loop
unfoldable pub next_row : ℕ → ℕ → List ℕ → List ℕ → List ℕ
next_row first_index a second [] = []
next_row first_index a second (diagonal ∷ above) =
    (first_index + 1) ∷ row_cells a (first_index + 1) diagonal second above

unfoldable pub all_rows : ℕ → List ℕ → List ℕ → List ℕ → List ℕ
all_rows first_index [] second previous = previous
all_rows first_index (a ∷ first) second previous =
    all_rows (suc first_index) first second (next_row first_index a second previous)

-- `previous.back()`: the vector is never empty.
unfoldable pub back : List ℕ → ℕ
back [] = 0
back (x ∷ []) = x
back (x ∷ y ∷ xs) = back (y ∷ xs)

unfoldable pub levenshtein_distance : List ℕ → List ℕ → ℕ
levenshtein_distance first second = back (all_rows 0 first second (first_row 0 (length second)))

abbrev pub max_size : ℕ
max_size = 2 ^ 64 - 1

-- The closest candidate so far, and its distance
pub record Closest : Type 0 where
  pub closest : List ℕ
  pub closest_distance : ℕ

abbrev pub no_candidate : Closest
no_candidate = record { closest = []; closest_distance = max_size }

unfoldable pub try_candidate : List ℕ → Closest → List ℕ → Closest
try_candidate value best candidate =
    let distance = levenshtein_distance value candidate in
    if ltb distance best.closest_distance
    then record { closest = candidate; closest_distance = distance }
    else best

unfoldable pub try_candidates : List ℕ → Closest → List (List ℕ) → Closest
try_candidates value best [] = best
try_candidates value best (candidate ∷ candidates) =
    try_candidates value (try_candidate value best candidate) candidates

abbrev pub maximum_distance : List ℕ → ℕ
maximum_distance value = let half = length value / 2 in if ltb 2 half then half else 2

unfoldable pub find_closest_match : List ℕ → List (List ℕ) → List ℕ
find_closest_match value candidates =
    let best = try_candidates value no_candidate candidates in
    if leb best.closest_distance (maximum_distance value) then best.closest else []
