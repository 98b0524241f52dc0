-- ===== src/Levenshtein/Rows.antt =====
-- internal/levenshtein.cc: the rows of `LevenshteinDistance` hold the distances of prefixes.
use ng_log.Prelude.{ℕ, ◌+◌, ◌≡◌, ◌≤◌, refl, sym, ap, ◌∙◌, List, [], ◌∷◌, arith, length}
use mathlib.Core.List.{reverse_aux, reverse, reverse-reverse}
use ng_log.Levenshtein.Distance.{
  first_row, row_cells, next_row, all_rows, back, levenshtein_distance,
}
use ng_log.Levenshtein.Scripts.{
  Script, done, delete, insert, replace, with_cost, edit, edit-least, edit-Script,
}

-- The distances of `x` to `y` with more and more of a text put in front.
tail_row : List ℕ → List ℕ → List ℕ → List ℕ
tail_row x y [] = []
tail_row x y (b ∷ second) = edit x (b ∷ y) ∷ tail_row x (b ∷ y) second

first_row-tail_row :
    (y second : List ℕ) → first_row (length y) (length second) ≡ edit [] y ∷ tail_row [] y second
unfolding first_row tail_row edit
first_row-tail_row y [] = refl
first_row-tail_row y (b ∷ second) = ap (λ r. length y ∷ r) (first_row-tail_row (b ∷ y) second)

row_cells-tail_row :
    (a : ℕ) (x y second : List ℕ)
    → row_cells a (edit (a ∷ x) y) (edit x y) second (tail_row x y second)
      ≡ tail_row (a ∷ x) y second
unfolding row_cells tail_row edit
row_cells-tail_row a x y [] = refl
row_cells-tail_row a x y (b ∷ second) =
    ap (λ r. edit (a ∷ x) (b ∷ y) ∷ r) (row_cells-tail_row a x (b ∷ y) second)

next_row-tail_row :
    (a : ℕ) (x second : List ℕ)
    → next_row (length x) a second (edit x [] ∷ tail_row x [] second)
      ≡ edit (a ∷ x) [] ∷ tail_row (a ∷ x) [] second
unfolding next_row edit
next_row-tail_row a x second = ap (λ r. (length x + 1) ∷ r) (row_cells-tail_row a x [] second)

all_rows-tail_row :
    (first x second : List ℕ)
    → all_rows (length x) first second (edit x [] ∷ tail_row x [] second)
      ≡ edit (reverse_aux first x) [] ∷ tail_row (reverse_aux first x) [] second
unfolding all_rows
all_rows-tail_row [] x second = refl
all_rows-tail_row (a ∷ first) x second =
    rw (next_row-tail_row a x second) (all_rows-tail_row first (a ∷ x) second)

back-tail_row :
    (x y second : List ℕ) → back (edit x y ∷ tail_row x y second) ≡ edit x (reverse_aux second y)
unfolding back tail_row
back-tail_row x y [] = refl
back-tail_row x y (b ∷ second) = back-tail_row x (b ∷ y) second

levenshtein_distance-edit :
    (first second : List ℕ)
    → levenshtein_distance first second ≡ edit (reverse first) (reverse second)
unfolding levenshtein_distance
levenshtein_distance-edit first second =
    ap (λ r. back (all_rows 0 first second r)) (first_row-tail_row [] second)
    ∙ ap back (all_rows-tail_row first [] second)
    ∙ back-tail_row (reverse first) [] second

-- A script and the reverse of another, one behind the other.
reverse_aux-Script :
    {x y u v : List ℕ} {m n : ℕ}
    → Script x y m
    → Script u v n
    → Script (reverse_aux x u) (reverse_aux y v) (m + n)
reverse_aux-Script {n = n} done t = with_cost (omega arith) t
reverse_aux-Script (delete s) t = with_cost (omega arith) (reverse_aux-Script s (delete t))
reverse_aux-Script (insert s) t = with_cost (omega arith) (reverse_aux-Script s (insert t))
reverse_aux-Script (replace s) t = with_cost (omega arith) (reverse_aux-Script s (replace t))

reverse-Script : {x y : List ℕ} {n : ℕ} → Script x y n → Script (reverse x) (reverse y) n
reverse-Script s = with_cost (omega arith) (reverse_aux-Script s done)

with_texts : {x y u v : List ℕ} {n : ℕ} → x ≡ u → y ≡ v → Script x y n → Script u v n
with_texts e d s = rw (sym e, sym d) s

-- No script makes the second text of the first at a lower cost than LevenshteinDistance returns.
pub levenshtein_distance-least :
    (first second : List ℕ) (n : ℕ) → Script first second n → levenshtein_distance first second ≤ n
levenshtein_distance-least first second n s =
    rw (levenshtein_distance-edit first second) (edit-least (reverse-Script s))

-- There is a script with the cost that LevenshteinDistance returns.
pub levenshtein_distance-Script :
    (first second : List ℕ) → Script first second (levenshtein_distance first second)
levenshtein_distance-Script first second =
    let back_and_forth = reverse-Script (edit-Script (reverse first) (reverse second)) in
    rw (levenshtein_distance-edit first second)
      (with_texts (reverse-reverse first) (reverse-reverse second) back_and_forth)

-- LevenshteinDistance returns the cost of a script, and no script has a lower cost.
pub levenshtein_distance-minimal :
    (first second : List ℕ) (n : ℕ)
    → Script first second n
    → Script first second (levenshtein_distance first second)
      × (levenshtein_distance first second ≤ n)
levenshtein_distance-minimal first second n s =
    (levenshtein_distance-Script first second, levenshtein_distance-least first second n s)
