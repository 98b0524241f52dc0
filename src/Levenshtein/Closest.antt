-- ===== src/Levenshtein/Closest.antt =====
-- internal/levenshtein.cc: `FindClosestMatch` returns a closest candidate.
use ng_log.Prelude.{
  ℕ, ◌≡◌, ◌≤◌, ◌<◌, ◌^◌, refl, ap, ◌⊎◌, inl, inr, true, List, [], ◌∷◌, arith, length, ltb, leb,
  leb→le, Bool-cases,
}
use mathlib.Core.List.Memᴰ
use mathlib.Core.List.{Memᴰ}
use ng_log.Levenshtein.Distance.{
  levenshtein_distance, Closest, try_candidate, try_candidates, maximum_distance,
  find_closest_match, max_size, no_candidate,
}

try_candidate-best :
    (value : List ℕ) (best : Closest) (candidate : List ℕ)
    → (try_candidate value best candidate).closest_distance ≤ best.closest_distance
unfolding try_candidate
try_candidate-best value best candidate =
    elim (Bool-cases (ltb (levenshtein_distance value candidate) best.closest_distance)) [
      | inl e ↦ rw e (ground arith)
      | inr e ↦ rw e (ground arith)
    ]

try_candidate-candidate :
    (value : List ℕ) (best : Closest) (candidate : List ℕ)
    → (try_candidate value best candidate).closest_distance ≤ levenshtein_distance value candidate
unfolding try_candidate
try_candidate-candidate value best candidate =
    elim (Bool-cases (ltb (levenshtein_distance value candidate) best.closest_distance)) [
      | inl e ↦ rw e (ground arith)
      | inr e ↦ rw e (ground arith)
    ]

try_candidates-best :
    (value : List ℕ) (best : Closest) (candidates : List (List ℕ))
    → (try_candidates value best candidates).closest_distance ≤ best.closest_distance
unfolding try_candidates
try_candidates-best value best [] = omega arith
try_candidates-best value best (c ∷ candidates) = omega (
  arith,
  try_candidates-best value (try_candidate value best c) candidates,
  try_candidate-best value best c,
)

try_candidates-least :
    (value : List ℕ) (best : Closest) (candidates : List (List ℕ)) (candidate : List ℕ)
    → Memᴰ candidate candidates
    → (try_candidates value best candidates).closest_distance ≤ levenshtein_distance value candidate
unfolding try_candidates
try_candidates-least value best [] candidate m = elim m [ ]
try_candidates-least value best (c ∷ candidates) candidate (Memᴰ.head e) = rw e (
    omega (
      arith,
      try_candidates-best value (try_candidate value best c) candidates,
      try_candidate-candidate value best c,
    ))
try_candidates-least value best (c ∷ candidates) candidate (Memᴰ.tail m) =
    try_candidates-least value (try_candidate value best c) candidates candidate m

-- A candidate of the list, with its distance.
Measured : List ℕ → List (List ℕ) → Closest → Type 0
Measured value candidates best =
    Memᴰ best.closest candidates × (best.closest_distance ≡ levenshtein_distance value best.closest)

try_candidate-Measured :
    (value : List ℕ) (best : Closest) (candidate : List ℕ)
    → (try_candidate value best candidate ≡ best)
      ⊎ Measured value (candidate ∷ []) (try_candidate value best candidate)
unfolding try_candidate Measured
try_candidate-Measured value best candidate =
    elim (Bool-cases (ltb (levenshtein_distance value candidate) best.closest_distance)) [
      | inl e ↦ rw e (inr (Memᴰ.head refl, refl))
      | inr e ↦ rw e (inl refl)
    ]

Measured-tail :
    (value c : List ℕ) (candidates : List (List ℕ)) (best : Closest)
    → Measured value candidates best
    → Measured value (c ∷ candidates) best
unfolding Measured
Measured-tail value c candidates best (m, e) = (Memᴰ.tail m, e)

Measured-head :
    (value c : List ℕ) (candidates : List (List ℕ)) (best : Closest)
    → Measured value (c ∷ []) best
    → Measured value (c ∷ candidates) best
unfolding Measured
Measured-head value c candidates best (m, e) = (Memᴰ.append_left _ m, e)

-- The candidate kept at the end is the one kept before, or it is in the list.
try_candidates-Measured :
    (value : List ℕ) (best : Closest) (candidates : List (List ℕ))
    → (try_candidates value best candidates ≡ best)
      ⊎ Measured value candidates (try_candidates value best candidates)
unfolding try_candidates
try_candidates-Measured value best [] = inl refl
try_candidates-Measured value best (c ∷ candidates) =
    elim (try_candidates-Measured value (try_candidate value best c) candidates) [
      | inr m ↦ inr (Measured-tail _ _ _ _ m)
      | inl e ↦ rw e (elim (try_candidate-Measured value best c) [
        | inl e' ↦ inl e'
        | inr m ↦ inr (Measured-head _ _ _ _ m)
      ])
    ]

chosen-closest :
    (value : List ℕ) (candidates : List (List ℕ)) (candidate : List ℕ) (best : Closest)
    → best.closest_distance < max_size
    → best.closest_distance ≤ levenshtein_distance value candidate
    → (best ≡ no_candidate) ⊎ Measured value candidates best
    → Memᴰ best.closest candidates
      × (levenshtein_distance value best.closest ≤ levenshtein_distance value candidate)
unfolding Measured
chosen-closest value candidates candidate best low least (inl e) =
    let e' = ap (λ (b : Closest). b.closest_distance) e in absurd (omega arith)
chosen-closest value candidates candidate best low least (inr (m, e)) = (m, omega arith)

-- If a candidate is at most max(2, size / 2) away from the value FindClosestMatch returns one of
-- the candidates, and none is closer.
pub find_closest_match-closest :
    (value : List ℕ) (candidates : List (List ℕ)) (candidate : List ℕ)
    → length value < 2 ^ 64
    → Memᴰ candidate candidates
    → levenshtein_distance value candidate ≤ maximum_distance value
    → Memᴰ (find_closest_match value candidates) candidates
      × (levenshtein_distance value (find_closest_match value candidates)
          ≤ levenshtein_distance value candidate)
unfolding find_closest_match
find_closest_match-closest value candidates candidate short m near =
    let least = try_candidates-least value no_candidate candidates candidate m in
    let accepted : leb (try_candidates value no_candidate candidates).closest_distance
          (maximum_distance value)
        ≡ true =
      ground arith in
    rw accepted (
      chosen-closest value candidates candidate (try_candidates value no_candidate candidates)
        (ground arith) least (try_candidates-Measured value no_candidate candidates))

chosen-near :
    (value : List ℕ) (candidates : List (List ℕ)) (best : Closest)
    → best.closest_distance ≤ maximum_distance value
    → length value < 2 ^ 64
    → (best ≡ no_candidate) ⊎ Measured value candidates best
    → Memᴰ best.closest candidates
      × (levenshtein_distance value best.closest ≤ maximum_distance value)
unfolding Measured
chosen-near value candidates best low short (inl e) =
    let e' = ap (λ (b : Closest). b.closest_distance) e in absurd (ground arith)
chosen-near value candidates best low short (inr (m, e)) = (m, omega arith)

-- FindClosestMatch returns the empty text, or a candidate at most max(2, size / 2) away from the
-- value.
pub find_closest_match-near :
    (value : List ℕ) (candidates : List (List ℕ))
    → length value < 2 ^ 64
    → (find_closest_match value candidates ≡ [])
      ⊎ (Memᴰ (find_closest_match value candidates) candidates
          × (levenshtein_distance value (find_closest_match value candidates)
              ≤ maximum_distance value))
unfolding find_closest_match
find_closest_match-near value candidates short =
    let best = try_candidates value no_candidate candidates in
    elim (Bool-cases (leb best.closest_distance (maximum_distance value))) [
      | inr e ↦ rw e (inl refl)
      | inl e ↦ rw e (
          inr (
            chosen-near value candidates best (leb→le _ _ e) short
              (try_candidates-Measured value no_candidate candidates)))
    ]
