-- ===== src/Demangle/Scans.antt =====
-- Tokens, numbers and identifiers: what a success uses up of the text.
use mathlib.Core.Option.{Option, none, some}
use ng_log.Prelude.{
  ℕ, ◌≤◌, ◌<◌, ◌≡◌, refl, Bool, true, false, ◌&&◌, List, [], ◌∷◌, arith, if◌then◌else◌, length,
  contains,
}
use ng_log.Demangle.Machine.{Machine, at_text}
use ng_log.Demangle.Parser.{Outcome}
use ng_log.Demangle.Tokens.{
  strip, advance, strip_two, parse_one_char_token, parse_two_char_token, parse_char_class,
  skip_while, moved,
}
use ng_log.Demangle.Moves.{Sound, Moved, Moved-refl, Moved-trans, Ends, Good}

pub at_text-Moved :
    (m : Machine) (rest : List ℕ)
    → Sound m
    → length rest ≤ length m.mangled_cur
    → Moved m (at_text m rest)
at_text-Moved m rest s h = ground arith

-- An outcome that goes on to a shorter text, or stays.
abbrev pub Eats : List ℕ → Option (List ℕ) → Type 0
Eats text none = Unit {0}
Eats text (some rest) = length rest < length text

advance-Ends :
    (c : Bool) (m : Machine) (rest : Option (List ℕ))
    → Sound m
    → Eats m.mangled_cur rest
    → Ends c m (advance rest m)
advance-Ends c m none s h = (Moved-refl m s, omega arith)
advance-Ends true m (some rest) s h = (at_text-Moved m rest s (omega arith), omega arith)
advance-Ends false m (some rest) s h = (at_text-Moved m rest s (omega arith), omega arith)

pub strip-Eats : (test : ℕ → Bool) (text : List ℕ) → Eats text (strip test text)
strip-Eats test [] = tt
strip-Eats test (c ∷ cs) = ground arith

strip_two-Eats : (a b : ℕ) (text : List ℕ) → Eats text (strip_two a b text)
strip_two-Eats a b [] = tt
strip_two-Eats a b (c ∷ []) = tt
strip_two-Eats a b (c ∷ d ∷ cs) = ground arith

module _ {n : ℕ} {c : Bool} where
  pub one_char-Good : (token : ℕ) → Good n c (parse_one_char_token token)
  unfolding parse_one_char_token
  one_char-Good token = record { at = λ m s r. advance-Ends c m _ s (strip-Eats _ m.mangled_cur) }

  pub two_char-Good : (a b : ℕ) → Good n c (parse_two_char_token a b)
  unfolding parse_two_char_token
  two_char-Good a b = record {
    at = λ m s r. advance-Ends c m _ s (strip_two-Eats a b m.mangled_cur);
  }

  pub char_class-Good : (char_class : List ℕ) → Good n c (parse_char_class char_class)
  unfolding parse_char_class
  char_class-Good char_class = record {
    at = λ m s r. advance-Ends c m _ s (strip-Eats (contains char_class) m.mangled_cur);
  }

pub skip_while-le : (test : ℕ → Bool) (text : List ℕ) → length (skip_while test text) ≤ length text
unfolding skip_while
skip_while-le test [] = omega arith
skip_while-le test (c ∷ cs) = ground (arith, skip_while-le test cs)

-- `state->mangled_cur = p; return true;`, from a machine `m'` that `m` went on to
shorter-Ends :
    (c : Bool) (m m' : Machine) (p : List ℕ)
    → Moved m m'
    → length p < length m'.mangled_cur
    → Ends c m (some (true, at_text m' p))
shorter-Ends true m m' p h l =
    (Moved-trans m m' _ h (at_text-Moved m' p h.sound (omega arith)), omega (arith, h.shorter))
shorter-Ends false m m' p h l =
    (Moved-trans m m' _ h (at_text-Moved m' p h.sound (omega arith)), omega (arith, h.shorter))

-- `if (test) { state->mangled_cur = p; return true; }`, or `miss`
pub if-Ends :
    (test c : Bool) (m m' : Machine) (p : List ℕ) (miss : Outcome)
    → Moved m m'
    → (test ≡ true → length p < length m'.mangled_cur)
    → Ends c m miss
    → Ends c m (if test then some (true, at_text m' p) else miss)
if-Ends true c m m' p miss h k e = shorter-Ends c m m' p h (k refl)
if-Ends false c m m' p miss h k e = e

pub unless-Ends :
    (test c : Bool) (m : Machine) (x y : Outcome)
    → Ends c m x
    → Ends c m y
    → Ends c m (if test then x else y)
unless-Ends true c m x y h k = h
unless-Ends false c m x y h k = k

pub moved-lt :
    (p text : List ℕ) → length p ≤ length text → moved p text ≡ true → length p < length text
moved-lt p text l h = ground arith

pub of_and : (a b : Bool) → (a && b) ≡ true → a ≡ true
of_and a b h = ground arith
