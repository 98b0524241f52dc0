-- ===== src/Demangle/Reads.antt =====
-- demangle.cc: what a number uses up of the text.
use mathlib.Core.Option.{Option, none, some}
use ng_log.Prelude.{
  ℕ, ◌+◌, ◌-◌, ◌*◌, ◌/◌, ◌%◌, ◌≤◌, inl, inr, Bool, true, false, not, ◌&&◌, ◌||◌, List, [], ◌∷◌,
  arith, ltb, ◌==◌, if◌then◌else◌, length, Bool-cases,
}
use ng_log.Demangle.Machine.{Machine, first, second, is_digit, with_state, at_text}
use ng_log.Demangle.Tokens.{skip_while, moved}
use ng_log.Demangle.Numerals.{
  behind_sign, parse_digits, parse_sign, parse_number, scan_number, parse_non_negative_number,
  parse_positive_number, parse_float_number, parse_seq_id, is_float_digit, is_seq_digit,
}
use ng_log.Demangle.Moves.{Sound, Moved, Moved-refl, Moved-back, Ends, Good}
use ng_log.Demangle.Scans.{
  at_text-Moved, Eats, strip-Eats, skip_while-le, if-Ends, unless-Ends, moved-lt, of_and,
}

-- A failure that leaves the machine, or restores the state of `m`.
stays : (c : Bool) (m : Machine) → Sound m → Ends c m (some (false, m))
stays c m s = (Moved-refl m s, omega arith)

restored :
    (c : Bool) (m m' : Machine)
    → Sound m
    → Moved m m'
    → Ends c m (some (false, with_state m' m.state))
restored c m m' s h = (Moved-back m m' s h, omega arith)

behind_sign-Moved :
    (m : Machine) (rest : Option (List ℕ))
    → Sound m
    → Eats m.mangled_cur rest
    → Moved m (behind_sign m rest).1
behind_sign-Moved m none s h = Moved-refl m s
behind_sign-Moved m (some rest) s h = at_text-Moved m rest s (omega arith)

pub parse_sign-Moved : (m : Machine) → Sound m → Moved m (parse_sign m).1
unfolding parse_sign
parse_sign-Moved m s = behind_sign-Moved m _ s (strip-Eats (λ c. c == b'n') m.mangled_cur)

-- `copy` is the state in front of the sign.
parse_digits-Ends :
    (c : Bool) (m m' : Machine) → Sound m → Moved m m' → Ends c m (parse_digits m.state m')
unfolding parse_digits
parse_digits-Ends c m m' s h =
    let back = some (false, with_state m' m.state) in
    let p = skip_while is_digit m'.mangled_cur in
    unless-Ends (first m'.mangled_cur == b'0' && is_digit (second m'.mangled_cur)) c m back
      (if moved p m'.mangled_cur then some (true, at_text m' p) else back) (restored c m m' s h)
      (if-Ends (moved p m'.mangled_cur) c m m' p back h
        (moved-lt p _ (skip_while-le is_digit m'.mangled_cur)) (restored c m m' s h))

module _ {n : ℕ} {c : Bool} where
  pub parse_number-Good : Good n c parse_number
  unfolding parse_number
  parse_number-Good = record {
    at = λ m s r. parse_digits-Ends c m (parse_sign m).1 s (parse_sign-Moved m s);
  }

  pub parse_non_negative_number-Good : Good n c parse_non_negative_number
  unfolding parse_non_negative_number
  parse_non_negative_number-Good = record {
    at = λ m s r.
        unless-Ends (first m.mangled_cur == b'n') c m (some (false, m)) (parse_number m)
          (stays c m s) (parse_number-Good.at m s r);
  }

  pub parse_positive_number-Good : Good n c parse_positive_number
  unfolding parse_positive_number
  parse_positive_number-Good = record {
    at = λ m s r.
        unless-Ends (first m.mangled_cur == b'0' || first m.mangled_cur == b'n') c m
          (some (false, m)) (parse_number m) (stays c m s) (parse_number-Good.at m s r);
  }

  pub parse_float_number-Good : Good n c parse_float_number
  unfolding parse_float_number
  parse_float_number-Good = record {
    at = λ m s r.
        let p = skip_while is_float_digit m.mangled_cur in
        if-Ends (moved p m.mangled_cur) c m m p (some (false, m)) (Moved-refl m s)
          (moved-lt p _ (skip_while-le is_float_digit m.mangled_cur)) (stays c m s);
  }

  pub parse_seq_id-Good : Good n c parse_seq_id
  unfolding parse_seq_id
  parse_seq_id-Good = record {
    at = λ m s r.
        let p = skip_while is_seq_digit m.mangled_cur in
        let long = ltb 1 (length m.mangled_cur - length p) in
        if-Ends (moved p m.mangled_cur && not (long && first m.mangled_cur == b'0')) c m m p
          (some (false, m)) (Moved-refl m s)
          (λ test. moved-lt p _ (skip_while-le is_seq_digit m.mangled_cur) (of_and _ _ test))
          (stays c m s);
  }

-- The text behind the digits is not longer.
unfoldable pub NotLonger : Option (ℕ × List ℕ) → List ℕ → Type 0
NotLonger none text = Unit {0}
NotLonger (some (number, rest)) text = length rest ≤ length text

NotLonger-cons :
    (r : Option (ℕ × List ℕ)) (c : ℕ) (text : List ℕ) → NotLonger r text → NotLonger r (c ∷ text)
unfolding NotLonger
NotLonger-cons none c text h = tt
NotLonger-cons (some (number, rest)) c text h = omega arith

NotLonger-if :
    (b : Bool) (r : Option (ℕ × List ℕ)) (text : List ℕ)
    → NotLonger r text
    → NotLonger (if b then none else r) text
unfolding NotLonger
NotLonger-if true r text h = tt
NotLonger-if false r text h = h

pub scan_number-NotLonger :
    (limit number : ℕ) (text : List ℕ) → NotLonger (scan_number limit number text) text
unfolding scan_number NotLonger
scan_number-NotLonger limit number [] = omega arith
scan_number-NotLonger limit number (c ∷ cs) =
    let digit = c - b'0' in
    elim (Bool-cases (not (is_digit c))) [
      | inl other ↦ rw other (omega arith)
      | inr more ↦ rw more (
          NotLonger-if (ltb (limit / 10) number || (number == limit / 10 && ltb (limit % 10) digit))
            _ (c ∷ cs)
            (NotLonger-cons (scan_number limit (number * 10 + digit) cs) c cs
              (scan_number-NotLonger limit (number * 10 + digit) cs)))
    ]
