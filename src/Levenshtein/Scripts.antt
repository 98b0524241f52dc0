-- ===== src/Levenshtein/Scripts.antt =====
-- internal/levenshtein.cc: what the distance of two texts means.
use ng_log.Prelude.{
  ℕ, ◌+◌, ◌≡◌, ◌≤◌, refl, sym, Bool, true, false, List, [], ◌∷◌, arith, length, if◌then◌else◌,
}
use ng_log.Levenshtein.Distance.{min_of_three, substitution_cost}

-- A way to make the second text of the first at a cost, from their ends.
pub data Script : List ℕ → List ℕ → ℕ → Type 0 where
  done : Script [] [] 0
  delete : {a : ℕ} {x y : List ℕ} {n : ℕ} → Script x y n → Script (a ∷ x) y (n + 1)
  insert : {b : ℕ} {x y : List ℕ} {n : ℕ} → Script x y n → Script x (b ∷ y) (n + 1)
  replace :
      {a b : ℕ} {x y : List ℕ} {n : ℕ}
      → Script x y n
      → Script (a ∷ x) (b ∷ y) (n + substitution_cost a b)

-- The recursion that the rows tabulate, on the texts from their ends.
unfoldable pub edit : List ℕ → List ℕ → ℕ
edit [] y = length y
edit (a ∷ x) [] = length x + 1
edit (a ∷ x) (b ∷ y) =
    min_of_three (edit x (b ∷ y) + 1) (edit (a ∷ x) y + 1) (edit x y + substitution_cost a b)

edit-empty : (x : List ℕ) → edit x [] ≡ length x
unfolding edit
edit-empty [] = refl
edit-empty (a ∷ x) = omega arith

pub edit-least : {x y : List ℕ} {n : ℕ} → Script x y n → edit x y ≤ n
unfolding edit
edit-least done = omega arith
edit-least (delete {x = x} {y = []} s) = omega (arith, edit-least s, edit-empty x)
edit-least (delete {y = b ∷ y} s) = let ih = edit-least s in ground arith
edit-least (insert {x = []} s) = omega (arith, edit-least s)
edit-least (insert {x = a ∷ x} s) = let ih = edit-least s in ground arith
edit-least (replace s) = let ih = edit-least s in ground arith

pub with_cost : {x y : List ℕ} {m n : ℕ} → m ≡ n → Script x y m → Script x y n
with_cost {x} {y} e s = rw (sym e) s

only_insert : (y : List ℕ) → Script [] y (length y)
only_insert [] = done
only_insert (b ∷ y) = with_cost (omega arith) (insert (only_insert y))

only_delete : (x : List ℕ) → Script x [] (length x)
only_delete [] = done
only_delete (a ∷ x) = with_cost (omega arith) (delete (only_delete x))

if-Script :
    {x y : List ℕ} {k l : ℕ} (test : Bool)
    → Script x y k
    → Script x y l
    → Script x y (if test then k else l)
if-Script true s t = s
if-Script false s t = t

pub edit-Script : (x y : List ℕ) → Script x y (edit x y)
unfolding edit
edit-Script [] y = only_insert y
edit-Script (a ∷ x) [] = delete (only_delete x)
edit-Script (a ∷ x) (b ∷ y) =
    let deletion = delete (edit-Script x (b ∷ y)) in
    let insertion = insert (edit-Script (a ∷ x) y) in
    let substitution = replace (edit-Script x y) in
    if-Script _ substitution (if-Script _ insertion deletion)
