-- ===== src/Demangle/Tokens.antt =====
-- demangle.cc: tokens, numbers and identifiers.
use ng_log.Prelude.{
  ℕ, Bool, true, false, not, ◌&&◌, List, [], ◌∷◌, Option, none, some, contains, ◌==◌, if◌then◌else◌,
  length,
}
use ng_log.Demangle.Machine.{at_text}
use ng_log.Demangle.Parser.{Parser}

-- The text behind one character, if `test` holds of it.
abbrev pub strip : (ℕ → Bool) → List ℕ → Option (List ℕ)
strip test [] = none
strip test (c ∷ cs) = if test c then some cs else none

abbrev pub advance : Option (List ℕ) → Parser
advance none m = some (false, m)
advance (some rest) m = some (true, at_text m rest)

unfoldable pub parse_one_char_token : ℕ → Parser
parse_one_char_token token m = advance (strip (λ c. c == token) m.mangled_cur) m

abbrev pub strip_two : ℕ → ℕ → List ℕ → Option (List ℕ)
strip_two a b [] = none
strip_two a b (c ∷ []) = none
strip_two a b (c ∷ d ∷ cs) = if c == a && d == b then some cs else none

-- The token's two characters are `a` and `b`.
unfoldable pub parse_two_char_token : ℕ → ℕ → Parser
parse_two_char_token a b m = advance (strip_two a b m.mangled_cur) m

unfoldable pub parse_char_class : List ℕ → Parser
unfolding contains
parse_char_class char_class m = advance (strip (contains char_class) m.mangled_cur) m

-- The text from the first character of which `test` fails.
unfoldable pub skip_while : (ℕ → Bool) → List ℕ → List ℕ
skip_while test [] = []
skip_while test (c ∷ cs) = let rest = skip_while test cs in if test c then rest else c ∷ cs

-- `p != state->mangled_cur`, for a `p` that was moved on from there
abbrev pub moved : List ℕ → List ℕ → Bool
moved p mangled_cur = not (length p == length mangled_cur)
