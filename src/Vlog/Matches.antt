-- ===== src/Vlog/Matches.antt =====
-- vlog_is_on.cc: `SafeFNMatch_` decides what its wildcards mean.
use ng_log.Prelude.{
  ℕ, zero, suc, ◌≡◌, ◌<◌, refl, ◌⊎◌, inl, inr, Bool, true, false, ◌&&◌, ◌||◌, List, [], ◌∷◌, ◌++◌,
  arith, drop, length, ◌==◌, Bool-cases, ◌↔◌,
}
use ng_log.Vlog.Glob.{is_empty, any_suffix, safe_fnmatch}

-- What a pattern matches: `*` any characters, `?` one character, another character itself.
abbrev pub Glob : List ℕ → List ℕ → Type 0
Glob [] [] = Unit {0}
Glob [] (c ∷ str) = ⊥
Glob (p ∷ pattern) [] = (p ≡ b'*') × Glob pattern []
Glob (p ∷ pattern) (c ∷ str) =
    (((p ≡ c) ⊎ (p ≡ b'?')) × Glob pattern str)
    ⊎ ((p ≡ b'*') × (k : ℕ) × Glob pattern (drop k (c ∷ str)))

abbrev pub NoStar : List ℕ → Type 0
NoStar [] = Unit {0}
NoStar (c ∷ str) = (c == b'*' ≡ false) × NoStar str

-- No two stars stand side by side.
abbrev pub SingleStars : List ℕ → Type 0
SingleStars [] = Unit {0}
SingleStars (p ∷ []) = Unit {0}
SingleStars (p ∷ q ∷ pattern) = ((p == b'*' && q == b'*') ≡ false) × SingleStars (q ∷ pattern)

any_suffix-some :
    (match : List ℕ → Bool) (str : List ℕ)
    → any_suffix match str ≡ true
    → (k : ℕ) × (match (drop k str) ≡ true)
unfolding any_suffix
any_suffix-some match [] = λ h. cc
any_suffix-some match (c ∷ str) = elim (Bool-cases (match (c ∷ str))) [
  | inl e ↦ λ h. (0, e)
  | inr e ↦ rw e (λ h. let (k, found) = any_suffix-some match str h in (suc k, found))
]

any_suffix-all :
    (match : List ℕ → Bool) (str : List ℕ) (k : ℕ)
    → k < length str
    → match (drop k str) ≡ true
    → any_suffix match str ≡ true
unfolding any_suffix
any_suffix-all match [] k l h = absurd (omega arith)
any_suffix-all match (c ∷ str) zero l h = rw h refl
any_suffix-all match (c ∷ str) (suc k) l h = elim (Bool-cases (match (c ∷ str))) [
  | inl e ↦ rw e refl
  | inr e ↦ rw e (any_suffix-all match str k (omega arith) h)
]

-- A pattern and a string with a character each, if the pattern behind its first is understood.
step-Glob :
    (p c : ℕ) (pattern str : List ℕ)
    → ((t : List ℕ) → safe_fnmatch pattern t ≡ true → Glob pattern t)
    → safe_fnmatch (p ∷ pattern) (c ∷ str) ≡ true
    → Glob (p ∷ pattern) (c ∷ str)
unfolding safe_fnmatch
step-Glob p c pattern str ih = elim (Bool-cases (p == c || p == b'?')) [
  | inl e ↦ rw e (λ h. inl (literal e, ih str h))
  | inr e ↦ rw e (elim (Bool-cases (p == b'*')) [
    | inr other ↦ rw other (λ h. cc)
    | inl star ↦ rw star (λ h. let (k, found) = rest pattern ih h in inr (ground arith, k, found))
  ])
]
  where
    literal : (p == c || p == b'?') ≡ true → (p ≡ c) ⊎ (p ≡ b'?')
    literal e = ground arith

    all_dropped : (str : List ℕ) → Glob [] (drop (length str) str)
    all_dropped [] = tt
    all_dropped (c ∷ str) = all_dropped str

    rest :
        (pattern : List ℕ)
        → ((t : List ℕ) → safe_fnmatch pattern t ≡ true → Glob pattern t)
        → (is_empty pattern || any_suffix (λ s. safe_fnmatch pattern s) (c ∷ str)) ≡ true
        → (k : ℕ) × Glob pattern (drop k (c ∷ str))
    rest [] ih h = (length (c ∷ str), all_dropped (c ∷ str))
    rest (q ∷ pattern) ih h =
        let (k, found) = any_suffix-some (λ s. safe_fnmatch (q ∷ pattern) s) (c ∷ str) h in
        (k, ih _ found)

safe_fnmatch-Glob : (pattern str : List ℕ) → safe_fnmatch pattern str ≡ true → Glob pattern str
unfolding safe_fnmatch
safe_fnmatch-Glob [] [] h = tt
safe_fnmatch-Glob [] (c ∷ str) h = cc
safe_fnmatch-Glob (p ∷ []) [] h = (ground arith, tt)
safe_fnmatch-Glob (p ∷ q ∷ pattern) [] h = cc
safe_fnmatch-Glob (p ∷ pattern) (c ∷ str) h =
    step-Glob p c pattern str (λ t. safe_fnmatch-Glob pattern t) h

drop-cases : (k : ℕ) (str : List ℕ) → (k < length str) ⊎ (drop k str ≡ [])
drop-cases zero [] = inr refl
drop-cases zero (c ∷ str) = inl (omega arith)
drop-cases (suc k) [] = inr refl
drop-cases (suc k) (c ∷ str) = elim (drop-cases k str) [ inl l ↦ inl (omega arith) | inr e ↦ inr e ]

drop-NoStar : (k : ℕ) (str : List ℕ) → NoStar str → NoStar (drop k str)
drop-NoStar zero str n = n
drop-NoStar (suc k) [] n = tt
drop-NoStar (suc k) (c ∷ str) n = drop-NoStar k str n.1

SingleStars-tail : (p : ℕ) (pattern : List ℕ) → SingleStars (p ∷ pattern) → SingleStars pattern
SingleStars-tail p [] s = tt
SingleStars-tail p (q ∷ pattern) s = s.1

-- Behind a star that is not the last, the pattern does not match the empty string.
starved :
    (p q : ℕ) (pattern str : List ℕ)
    → p ≡ b'*'
    → SingleStars (p ∷ q ∷ pattern)
    → str ≡ []
    → Glob (q ∷ pattern) str
    → ⊥
starved p q pattern [] e s n g = ground arith
starved p q pattern (c ∷ str) e s n g = cc

Glob-safe_fnmatch :
    (pattern str : List ℕ)
    → SingleStars pattern
    → NoStar str
    → Glob pattern str
    → safe_fnmatch pattern str ≡ true
unfolding safe_fnmatch
Glob-safe_fnmatch [] [] s n g = refl
Glob-safe_fnmatch [] (c ∷ str) s n g = absurd g
Glob-safe_fnmatch (p ∷ []) [] s n g = ground arith
Glob-safe_fnmatch (p ∷ q ∷ pattern) [] s n g = absurd (starved p q pattern [] g.0 s refl g.1)
Glob-safe_fnmatch (p ∷ pattern) (c ∷ str) s n (inl (e, g)) =
    rw (same e) (Glob-safe_fnmatch pattern str (SingleStars-tail p pattern s) n.1 g)
  where
    same : (p ≡ c) ⊎ (p ≡ b'?') → (p == c || p == b'?') ≡ true
    same (inl e) = ground arith
    same (inr e) = ground arith
Glob-safe_fnmatch (p ∷ pattern) (c ∷ str) s n (inr (e, k, g)) = rw (other e n.0) (
    rw (star e)
      (rest pattern s k g (λ t. Glob-safe_fnmatch pattern t (SingleStars-tail p pattern s))))
  where
    other : p ≡ b'*' → c == b'*' ≡ false → (p == c || p == b'?') ≡ false
    other e d = ground arith

    star : p ≡ b'*' → p == b'*' ≡ true
    star e = ground arith

    rest :
        (pattern : List ℕ)
        → SingleStars (p ∷ pattern)
        → (k : ℕ) → Glob pattern (drop k (c ∷ str))
        → ((t : List ℕ) → NoStar t → Glob pattern t → safe_fnmatch pattern t ≡ true)
        → (is_empty pattern || any_suffix (λ t. safe_fnmatch pattern t) (c ∷ str)) ≡ true
    rest [] s k g ih = refl
    rest (q ∷ pattern) s k g ih = elim (drop-cases k (c ∷ str)) [
      | inl l ↦
          any_suffix-all (λ t. safe_fnmatch (q ∷ pattern) t) (c ∷ str) k l
            (ih (drop k (c ∷ str)) (drop-NoStar k (c ∷ str) n) g)
      | inr gone ↦ absurd (starved p q pattern _ e s gone g)
    ]

-- On a string without a star, `SafeFNMatch_` is true for a pattern in which no two stars stand
-- side by side exactly if the pattern matches: `*` any characters, none included, `?` one
-- character, and any other character itself.
pub safe_fnmatch_iff :
    (pattern str : List ℕ)
    → SingleStars pattern
    → NoStar str
    → (safe_fnmatch pattern str ≡ true) ↔ Glob pattern str
safe_fnmatch_iff pattern str s n =
    (safe_fnmatch-Glob pattern str, Glob-safe_fnmatch pattern str s n)

-- A pattern that ends in two stars matches no string by `SafeFNMatch_` that its part in front of
-- them matches as a whole: with no characters left, one star at most may be left. Here the part in
-- front of them is a name without wildcards.
pub safe_fnmatch-two_stars :
    (name : List ℕ) → NoStar name → safe_fnmatch (name ++ (b'*' ∷ b'*' ∷ [])) name ≡ false
unfolding safe_fnmatch
safe_fnmatch-two_stars [] n = refl
safe_fnmatch-two_stars (c ∷ name) n = rw (same c) (safe_fnmatch-two_stars name n.1)
  where
    same : (c : ℕ) → (c == c || c == b'?') ≡ true
    same c = ground arith
