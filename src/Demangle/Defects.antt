-- ===== src/Demangle/Defects.antt =====
-- demangle.cc: where a failure does not restore the state, and where the output is not ended.
use ng_log.Prelude.{ℕ, ◌+◌, ◌≡◌, refl, Bool, true, false, ◌&&◌, List, [], ◌∷◌, some, arith, ◌==◌}
use ng_log.Demangle.Machine.{ℤ, pos, Machine, first, second, is_digit, at_text}
use ng_log.Demangle.Parser.{retry, ◌&◌, fail, succeed}
use ng_log.Demangle.Tokens.{parse_one_char_token, moved}
use ng_log.Demangle.Numerals.{
  parse_sign, parse_number_value, finish_number, scan_number, parse_non_negative_value,
  parse_positive_value, parse_source_name, number_then, max_positive,
}
use ng_log.Demangle.Names.{parse_abi_tag}
use ng_log.Demangle.Values.{scan-end}

moved_refl : (rest : List ℕ) → moved rest rest ≡ false
moved_refl rest = ground arith

unsigned :
    (m : Machine) (rest : List ℕ)
    → (first rest == b'n') ≡ false
    → parse_sign (at_text m rest) ≡ (false, at_text m rest)
unfolding parse_sign
unsigned m [] h = refl
unsigned m (c ∷ cs) h = rw h refl

not_zero : (c d : ℕ) → is_digit c ≡ false → (c == b'0' && is_digit d) ≡ false
unfolding is_digit
not_zero c d h = ground arith

-- Behind the sign, or without one, a text with no digit has no number, and the cursor stays where
-- the sign left it.
finish-fails :
    (negative : Bool) (limit : ℕ) (copy : Machine) (m : Machine) (number_out : ℤ)
    → is_digit (first m.mangled_cur) ≡ false
    → finish_number negative copy.state m (scan_number limit 0 m.mangled_cur) number_out
      ≡ record { success = false; machine = m; number = number_out }
unfolding finish_number
finish-fails negative limit copy m number_out h =
    rw (scan-end limit 0 m.mangled_cur h) (rw (moved_refl m.mangled_cur) refl)

-- On a sign with no digit behind it, `ParseNumber` with a number to store returns false, and
-- leaves the cursor behind the sign: only the failures by a leading zero or by an overflow restore
-- the state.
pub parse_number_value-keeps_sign :
    (m : Machine) (rest : List ℕ) (number_out : ℤ)
    → is_digit (first rest) ≡ false
    → parse_number_value number_out (at_text m (b'n' ∷ rest))
      ≡ record { success = false; machine = at_text m rest; number = number_out }
unfolding parse_number_value parse_sign
parse_number_value-keeps_sign m rest number_out h =
    rw (not_zero (first rest) (second rest) h)
      (finish-fails true (max_positive + 1) (at_text m (b'n' ∷ rest)) (at_text m rest) number_out h)

no_number :
    (m : Machine) (rest : List ℕ) (number_out : ℤ)
    → is_digit (first rest) ≡ false
    → (first rest == b'n') ≡ false
    → parse_number_value number_out (at_text m rest)
      ≡ record { success = false; machine = at_text m rest; number = number_out }
unfolding parse_number_value
no_number m rest number_out h k = rw (unsigned m rest k) (
    rw (not_zero (first rest) (second rest) h)
      (finish-fails false max_positive (at_text m rest) (at_text m rest) number_out h))

no_source_name :
    (m : Machine) (rest : List ℕ)
    → is_digit (first rest) ≡ false
    → (first rest == b'n') ≡ false
    → parse_source_name (at_text m rest) ≡ some (false, at_text m rest)
unfolding parse_source_name retry number_then parse_positive_value parse_non_negative_value succeed
no_source_name m rest h k = rw (no_number m rest (pos 0) h k) refl

-- On a 'B' that no source name follows, `ParseAbiTag` returns false with the cursor behind the 'B'.
pub abi_tag-consumes :
    (m : Machine) (rest : List ℕ)
    → is_digit (first rest) ≡ false
    → (first rest == b'n') ≡ false
    → parse_abi_tag (at_text m (b'B' ∷ rest)) ≡ some (false, at_text m rest)
unfolding parse_abi_tag ◌&◌ parse_one_char_token fail
abi_tag-consumes m rest h k = rw (no_source_name m rest h k) refl
