-- ===== src/Vlog/Glob.antt =====
-- vlog_is_on.cc: `SafeFNMatch_`, with the wildcards `*` and `?`.
use ng_log.Prelude.{ℕ, Bool, true, false, ◌&&◌, ◌||◌, List, [], ◌∷◌, ◌==◌, if◌then◌else◌}

abbrev pub is_empty : List ℕ → Bool
is_empty [] = true
is_empty (c ∷ cs) = false

-- `do { if (match(str)) return true; s += 1; } while (s != str_len); return false;`
unfoldable pub any_suffix : (List ℕ → Bool) → List ℕ → Bool
any_suffix match [] = false
any_suffix match (c ∷ cs) = match (c ∷ cs) || any_suffix match cs

unfoldable pub safe_fnmatch : List ℕ → List ℕ → Bool
unfolding any_suffix
safe_fnmatch [] [] = true
safe_fnmatch [] (c ∷ str) = false
safe_fnmatch (p ∷ pattern) [] = is_empty pattern && p == b'*'
safe_fnmatch (p ∷ pattern) (c ∷ str) =
    let next = safe_fnmatch pattern str in
    let later = any_suffix (λ s. safe_fnmatch pattern s) (c ∷ str) in
    if p == c || p == b'?' then next else if p == b'*' then is_empty pattern || later else false
