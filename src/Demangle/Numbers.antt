-- ===== src/Demangle/Numbers.antt =====
-- Numbers with a value, and what is read by their length.
use mathlib.Core.Option.{Option, none, some}
use ng_log.Prelude.{
  ℕ, ◌+◌, ◌≤◌, ◌<◌, ◌≡◌, inl, inr, Bool, true, false, not, ◌&&◌, List, arith, ◌==◌, if◌then◌else◌,
  length, drop, length-drop, Bool-cases,
}
use ng_log.Demangle.Machine.{
  ℤ, pos, negsuc, Machine, first, second, is_digit, at_least_num_chars_remaining, with_state,
}
use ng_log.Demangle.Output.{text, maybe_append, maybe_append_with_length}
use ng_log.Demangle.Parser.{Parser}
use ng_log.Demangle.Tokens.{moved}
use ng_log.Demangle.Numerals.{
  parse_sign, Parsed, finish_number, parse_number_value, parse_non_negative_value,
  parse_positive_value, skip_text, append_identifier, identifier_of_size, parse_identifier,
  number_then, parse_source_name, long_discriminator, short_discriminator, parse_discriminator,
  at_least_ten,
}
use ng_log.Demangle.Moves.{
  Sound, Moved, Moved-refl, Moved-trans, Moved-back, cost, Ends, Good, Moves, covers, Ends-trans,
}
use ng_log.Demangle.Writes.{maybe_append-Moves, maybe_append_with_length-Moves}
use ng_log.Demangle.Rules.{retry-Good, or-Good, &-left, fail-Good, succeed-Good, if-Good}
use ng_log.Demangle.Scans.{one_char-Good, two_char-Good, at_text-Moved, moved-lt}
use ng_log.Demangle.Reads.{parse_sign-Moved, NotLonger, scan_number-NotLonger}

-- A number with its value: the cursor goes on, and past a digit at least if it succeeds.
pub record Reads (m : Machine) (parsed : Parsed) : Type 0 where
  pub moved_on : Moved m parsed.machine
  pub used : parsed.success ≡ true → length parsed.machine.mangled_cur < length m.mangled_cur

finish_number-Reads :
    (negative : Bool) (m m' : Machine) (r : Option (ℕ × List ℕ)) (number_out : ℤ)
    → Sound m
    → Moved m m'
    → NotLonger r m'.mangled_cur
    → Reads m (finish_number negative m.state m' r number_out)
unfolding finish_number NotLonger
finish_number-Reads negative m m' none number_out s h l = record {
  moved_on = Moved-back m m' s h;
  used = λ e. cc;
}
finish_number-Reads negative m m' (some (number, p)) number_out s h l =
    elim (Bool-cases (moved p m'.mangled_cur)) [
      | inr same ↦ rw same (record { moved_on = h; used = λ e. cc })
      | inl different ↦
          let less = moved-lt p _ l different in
          rw different (record {
            moved_on = Moved-trans m m' _ h (at_text-Moved m' p h.sound l);
            used = λ e. omega (arith, h.shorter);
          })
    ]

unless-Reads :
    (test : Bool) (m : Machine) (x y : Parsed)
    → Reads m x
    → Reads m y
    → Reads m (if test then x else y)
unless-Reads true m x y h k = h
unless-Reads false m x y h k = k

refused :
    (m m' : Machine) (number_out : ℤ)
    → Sound m
    → Moved m m'
    → Reads m (record { success = false; machine = with_state m' m.state; number = number_out })
refused m m' number_out s h = record { moved_on = Moved-back m m' s h; used = λ e. cc }

parse_number_value-Reads :
    (number_out : ℤ) (m : Machine) → Sound m → Reads m (parse_number_value number_out m)
unfolding parse_number_value
parse_number_value-Reads number_out m s =
    let signed = (parse_sign m).1 in
    let h = parse_sign-Moved m s in
    unless-Reads (first signed.mangled_cur == b'0' && is_digit (second signed.mangled_cur)) m _ _
      (refused m signed number_out s h)
      (finish_number-Reads (parse_sign m).0 m signed _ number_out s h
        (scan_number-NotLonger _ 0 signed.mangled_cur))

-- The wrappers keep the result if it passes a test, and restore the state otherwise.
kept-Reads :
    (m : Machine) (parsed : Parsed) (number_out : ℤ) (test : Bool)
    → Sound m
    → Reads m parsed
    → Reads m (
        if test then parsed else record {
          success = false;
          machine = with_state parsed.machine m.state;
          number = number_out;
        })
kept-Reads m parsed number_out test s h =
    unless-Reads test m _ _ h (refused m parsed.machine number_out s h.moved_on)

parse_non_negative_value-Reads :
    (number_out : ℤ) (m : Machine) → Sound m → Reads m (parse_non_negative_value number_out m)
unfolding parse_non_negative_value
parse_non_negative_value-Reads number_out m s =
    kept-Reads m _ number_out _ s (parse_number_value-Reads (pos 0) m s)

parse_positive_value-Reads :
    (number_out : ℤ) (m : Machine) → Sound m → Reads m (parse_positive_value number_out m)
unfolding parse_positive_value
parse_positive_value-Reads number_out m s =
    kept-Reads m _ number_out _ s (parse_non_negative_value-Reads (pos 0) m s)

number_then-Good :
    {n : ℕ} {c : Bool} (parse : Machine → Parsed) (next : ℤ → Parser)
    → ((m : Machine) → Sound m → Reads m (parse m))
    → ((number : ℤ) → Good n false (next number))
    → Good n c (number_then parse next)
unfolding number_then
number_then-Good {n} {c} parse next hp hn = record {
  at = λ m s r.
      let h = hp m s in
      elim (Bool-cases (parse m).success) [
        | inr failed ↦ rw failed (h.moved_on, omega (arith, h.moved_on.shorter))
        | inl read ↦ rw read (
            Ends-trans false c 1 m (parse m).machine _ h.moved_on (omega (arith, h.used read))
              (cost_le c) ((hn (parse m).number).at _ h.moved_on.sound (covers n m _ h.moved_on r)))
      ];
}
  where
    cost_le : (c : Bool) → cost true c ≤ 1 + 0
    cost_le true = omega arith
    cost_le false = omega arith

skip_text-Moved : (size : ℕ) (m : Machine) → Sound m → Moved m (skip_text size m)
unfolding skip_text
skip_text-Moved size m s =
    at_text-Moved m (drop size m.mangled_cur) s (omega (arith, length-drop size m.mangled_cur))

pub skip_text-Moves : (size : ℕ) → Moves (skip_text size)
skip_text-Moves size = record { at = skip_text-Moved size }

if-Moves :
    (test : Bool) (f g : Machine → Machine) (m : Machine)
    → Sound m
    → Moves f
    → Moves g
    → Moved m (if test then f m else g m)
if-Moves true f g m s h k = h.at m s
if-Moves false f g m s h k = k.at m s

append_identifier-Moved : (size : ℕ) (m : Machine) → Sound m → Moved m (append_identifier size m)
unfolding append_identifier
append_identifier-Moved size m s =
    if-Moves _ (maybe_append _) (maybe_append_with_length (text m.mangled_cur) size) m s
      (maybe_append-Moves _) (maybe_append_with_length-Moves (text m.mangled_cur) size)

identifier_of_size-Good : {n : ℕ} (size : ℕ) → Good n false (identifier_of_size size)
unfolding identifier_of_size
identifier_of_size-Good {n} size = record {
  at = λ m s r.
      let h = append_identifier-Moved size m s in
      let k = Moved-trans m _ _ h (skip_text-Moved size _ h.sound) in
      both (not (at_least_num_chars_remaining m.mangled_cur size)) m _ s k;
}
  where
    both :
        (b : Bool) (m m' : Machine)
        → Sound m
        → Moved m m'
        → Ends false m (if b then some (false, m) else some (true, m'))
    both true m m' s h = (Moved-refl m s, omega arith)
    both false m m' s h = (h, omega (arith, h.shorter))

parse_identifier-Good : {n : ℕ} (size : ℤ) → Good n false (parse_identifier size)
unfolding parse_identifier
parse_identifier-Good (pos size) = identifier_of_size-Good size
parse_identifier-Good (negsuc k) = record { at = λ m s r. (Moved-refl m s, omega arith) }

pub parse_source_name-Good : {n : ℕ} {c : Bool} → Good n c parse_source_name
unfolding parse_source_name
parse_source_name-Good =
    retry-Good (number_then-Good _ _ (parse_positive_value-Reads (negsuc 0)) parse_identifier-Good)

long_discriminator-Good : {n : ℕ} (number : ℤ) → Good n false (long_discriminator number)
unfolding long_discriminator
long_discriminator-Good number = if-Good (at_least_ten number) (one_char-Good b'_') fail-Good

short_discriminator-Good : {n : ℕ} (number : ℤ) → Good n false (short_discriminator number)
unfolding short_discriminator
short_discriminator-Good number = if-Good (at_least_ten number) fail-Good succeed-Good

pub parse_discriminator-Good : {n : ℕ} {c : Bool} → Good n c parse_discriminator
unfolding parse_discriminator
parse_discriminator-Good =
    or-Good
      (retry-Good (
        &-left (two_char-Good b'_' b'_')
          (number_then-Good _ _ (parse_non_negative_value-Reads (pos 0)) long_discriminator-Good)))
      (retry-Good (
        &-left (one_char-Good b'_')
          (number_then-Good _ _ (parse_non_negative_value-Reads (pos 0)) short_discriminator-Good)))
