-- ===== src/Demangle/Ranges.antt =====
-- demangle.cc: the range of the numbers that are handed back.
use ng_log.Prelude.{
  ℕ, zero, suc, ◌+◌, ◌-◌, ◌*◌, ◌/◌, ◌%◌, ◌≤◌, ◌≡◌, refl, Bool, true, false, not, ◌&&◌, ◌||◌, List,
  [], ◌∷◌, Option, none, some, arith, ltb, ◌==◌, if◌then◌else◌,
}
use ng_log.Demangle.Machine.{ℤ, pos, negsuc, State, Machine, first, second, is_digit, with_state}
use ng_log.Demangle.Tokens.{moved}
use ng_log.Demangle.Numerals.{
  scan_number, Parsed, finish_number, parse_number_value, parse_sign, negate, max_positive,
  parse_positive_value, parse_non_negative_value, non_negative, positive,
}
use ng_log.Demangle.Values.{digit-le}

-- An `int64_t`.
abbrev pub Int64 : ℤ → Type 0
Int64 (pos n) = n ≤ max_positive
Int64 (negsuc n) = n ≤ max_positive

abbrev Within : ℕ → Option (ℕ × List ℕ) → Type 0
Within limit none = Unit {0}
Within limit (some (number, rest)) = number ≤ limit

Within-if :
    (b : Bool) (limit : ℕ) (x y : Option (ℕ × List ℕ))
    → (b ≡ true → Within limit x)
    → (b ≡ false → Within limit y)
    → Within limit (if b then x else y)
Within-if true limit x y h k = h refl
Within-if false limit x y h k = k refl

scan_number-Within :
    (limit number : ℕ) (mangled : List ℕ)
    → number ≤ limit
    → Within limit (scan_number limit number mangled)
unfolding scan_number
scan_number-Within limit number [] h = h
scan_number-Within limit number (c ∷ cs) h =
    let digit = c - b'0' in
    Within-if (not (is_digit c)) limit (some (number, c ∷ cs)) _ (λ e. h)
      (λ d.
        Within-if (ltb (limit / 10) number || (number == limit / 10 && ltb (limit % 10) digit))
          limit none (scan_number limit (number * 10 + digit) cs) (λ e. tt)
          (λ e.
            scan_number-Within limit (number * 10 + digit) cs
              (fits digit (digit-le c (ground arith)) e)))
  where
    fits :
        (digit : ℕ)
        → digit ≤ 9
        → (ltb (limit / 10) number || (number == limit / 10 && ltb (limit % 10) digit)) ≡ false
        → number * 10 + digit ≤ limit
    fits digit d e = ground arith

-- A success hands back an `int64_t`.
abbrev Ranged : Parsed → Type 0
Ranged parsed = parsed.success ≡ true → Int64 parsed.number

Ranged-if : (b : Bool) (x y : Parsed) → Ranged x → Ranged y → Ranged (if b then x else y)
Ranged-if true x y h k = h
Ranged-if false x y h k = k

signed-Int64 :
    (negative : Bool) (number : ℕ)
    → number ≤ (if negative then max_positive + 1 else max_positive)
    → Int64 (if negative then negate number else pos number)
unfolding negate
signed-Int64 true zero h = omega arith
signed-Int64 true (suc n) h = omega arith
signed-Int64 false number h = h

finish_number-Ranged :
    (negative : Bool) (copy : State) (m : Machine) (r : Option (ℕ × List ℕ)) (number_out : ℤ)
    → Within (if negative then max_positive + 1 else max_positive) r
    → Ranged (finish_number negative copy m r number_out)
unfolding finish_number
finish_number-Ranged negative copy m none number_out w = λ e. cc
finish_number-Ranged negative copy m (some (number, p)) number_out w =
    Ranged-if (moved p m.mangled_cur) _ _ (λ e. signed-Int64 negative number w) (λ e. cc)

-- When `ParseNumber` succeeds, the number that it stores is between -2^63 and 2^63 - 1, however
-- many digits the text has.
pub parse_number_value-range :
    (number_out : ℤ) (m : Machine)
    → (parse_number_value number_out m).success ≡ true
    → Int64 (parse_number_value number_out m).number
unfolding parse_number_value
parse_number_value-range number_out m =
    let (negative, signed) = parse_sign m in
    let limit = if negative then max_positive + 1 else max_positive in
    Ranged-if (first signed.mangled_cur == b'0' && is_digit (second signed.mangled_cur)) _ _
      (λ e. cc)
      (finish_number-Ranged negative m.state signed (scan_number limit 0 signed.mangled_cur)
        number_out (scan_number-Within limit 0 signed.mangled_cur (omega arith)))

non_negative-Ranged :
    (number_out : ℤ) (m : Machine) → Ranged (parse_non_negative_value number_out m)
unfolding parse_non_negative_value
non_negative-Ranged number_out m =
    let parsed = parse_number_value (pos 0) m in
    Ranged-if (parsed.success && non_negative parsed.number) parsed _
      (parse_number_value-range (pos 0) m) (λ e. cc)

-- The failure of a number's parser that has restored the state of `m`.
failed : ℤ → Machine → Machine → Parsed
failed number_out m m' = record {
  success = false;
  machine = with_state m' m.state;
  number = number_out;
}

pub Positive : Parsed → Type 0
Positive parsed = (positive parsed.number ≡ true) × Int64 parsed.number

pub Unchanged : ℤ → Machine → Parsed → Type 0
Unchanged number_out m parsed = (parsed.number ≡ number_out) × (parsed.machine.state ≡ m.state)

Positive-or_failed :
    (b : Bool) (number_out : ℤ) (m : Machine) (x : Parsed)
    → (b ≡ true → (x.success ≡ true) × Positive x)
    → let y = if b then x else failed number_out m x.machine in
      (y.success ≡ true → Positive y) × (y.success ≡ false → Unchanged number_out m y)
unfolding failed Unchanged
Positive-or_failed true number_out m x h = (λ e. (h refl).1, λ e. absurd (differ e (h refl).0))
  where
    differ : x.success ≡ false → x.success ≡ true → ⊥
    differ e f = cc
Positive-or_failed false number_out m x h = (λ e. cc, λ e. (refl, refl))

-- When `ParsePositiveNumber` succeeds, the number that it stores is positive and at most
-- 2^63 - 1; when it fails, the caller's number and the whole parsing state are as they were.
pub parse_positive_value-Positive :
    (number_out : ℤ) (m : Machine)
    → let parsed = parse_positive_value number_out m in
      (parsed.success ≡ true → Positive parsed)
      × (parsed.success ≡ false → Unchanged number_out m parsed)
unfolding parse_positive_value failed
parse_positive_value-Positive number_out m =
    let inner = parse_non_negative_value (pos 0) m in
    Positive-or_failed (inner.success && positive inner.number) number_out m inner (λ e. (
      of_left _ _ e,
      positive_of inner (of_right _ _ e) (non_negative-Ranged (pos 0) m (of_left _ _ e)),
    ))
  where
    of_left : (a b : Bool) → (a && b) ≡ true → a ≡ true
    of_left a b e = ground arith

    of_right : (a b : Bool) → (a && b) ≡ true → b ≡ true
    of_right a b e = ground arith

    positive_of :
        (parsed : Parsed) → positive parsed.number ≡ true → Int64 parsed.number → Positive parsed
    positive_of parsed p r = unfold Positive in (p, r)
