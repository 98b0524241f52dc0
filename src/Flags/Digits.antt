-- ===== src/Flags/Digits.antt =====
-- internal/flag_registry.cc: the digits of a number are read as its value.
use ng_log.Prelude.{
  ℕ, zero, suc, ◌+◌, ◌-◌, ◌*◌, ◌/◌, ◌%◌, ◌^◌, ◌≡◌, ◌≤◌, ◌<◌, refl, ap, ◌∙◌, Bool, true, false, ◌&&◌,
  List, [], ◌∷◌, map, some, arith, ltb, ◌==◌, length, inl, inr, Bool-cases, if-true,
}
use ng_log.Signal.Formatter.{hex_digit, uint64_digits}
use ng_log.Signal.Digits.{digits_value, AllBelow, uint64_digits-value}
use ng_log.Flags.Values.{digit_of, scan_digits, scan_integer, has_hex_prefix}

pub hex_digit-decimal : (d : ℕ) → d < 10 → hex_digit d ≡ b'0' + d
hex_digit-decimal d h = ground arith

digit_of-decimal : (c : ℕ) → b'0' ≤ c → c ≤ b'9' → digit_of c ≡ c - b'0'
unfolding digit_of
digit_of-decimal c h k = ground arith

-- What stands in front of a digit does not matter to its value.
digit_of-hex_digit : (d : ℕ) → d < 10 → digit_of (hex_digit d) ≡ d
digit_of-hex_digit d h = omega (
  arith,
  hex_digit-decimal d h,
  digit_of-decimal (hex_digit d) (omega (arith, hex_digit-decimal d h))
      (omega (arith, hex_digit-decimal d h)),
)

pub scan_digits-value :
    (base value : ℕ) (ds : List ℕ)
    → base ≤ 10
    → AllBelow base ds
    → scan_digits base value (map hex_digit ds) ≡ (digits_value base value ds, [])
unfolding scan_digits
scan_digits-value base value [] small h = refl
scan_digits-value base value (d ∷ ds) small (h, rest) =
    let digit = digit_of-hex_digit d (omega arith) in
    let below : ltb (digit_of (hex_digit d)) base ≡ true = ground arith in
    if-true _ _ below
    ∙ ap (λ k. scan_digits base (value * base + k) (map hex_digit ds)) digit
    ∙ scan_digits-value base (value * base + d) ds small rest

length-uint64_digits :
    (room number radix : ℕ) (digits : List ℕ)
    → length digits ≤ length (uint64_digits room number radix digits)
unfolding uint64_digits
length-uint64_digits zero number radix digits = omega arith
length-uint64_digits (suc room) number radix digits = elim (Bool-cases (number / radix == 0)) [
  | inl e ↦ rw e (omega arith)
  | inr e ↦ rw e (
      omega (
        arith,
        length-uint64_digits room (number / radix) radix (hex_digit (number % radix) ∷ digits),
      ))
]

-- There is at least one digit.
uint64_digits-digit :
    (room number radix : ℕ) → 1 ≤ length (uint64_digits (suc room) number radix [])
unfolding uint64_digits
uint64_digits-digit room number radix = elim (Bool-cases (number / radix == 0)) [
  | inl e ↦ rw e (omega arith)
  | inr e ↦ rw e (
      omega
        (arith, length-uint64_digits room (number / radix) radix (hex_digit (number % radix) ∷ [])))
]

-- The digits of a number, the first one apart.
pub record DigitsOf (number radix : ℕ) (text : List ℕ) : Type 0 where
  pub first : ℕ
  pub others : List ℕ
  pub written : text ≡ map hex_digit (first ∷ others)
  pub below : AllBelow radix (first ∷ others)
  pub value : digits_value radix 0 (first ∷ others) ≡ number

pub uint64_digits-DigitsOf :
    (room number radix : ℕ)
    → 2 ≤ radix
    → number < 2 ^ suc room
    → DigitsOf number radix (uint64_digits (suc room) number radix [])
uint64_digits-DigitsOf room number radix two small =
    let (ds, written, below, value) = uint64_digits-value (suc room) number radix [] two small tt in
    split ds written below value
  where
    split :
        (ds : List ℕ)
        → uint64_digits (suc room) number radix [] ≡ map hex_digit ds
        → AllBelow radix ds
        → digits_value radix 0 ds ≡ number
        → DigitsOf number radix (uint64_digits (suc room) number radix [])
    split [] written below value =
        absurd (omega (arith, uint64_digits-digit room number radix, ap length written))
    split (d ∷ ds) written below value = record {
      first = d;
      others = ds;
      written = written;
      below = below;
      value = value;
    }

-- A text of decimal digits has no prefix.
pub no_prefix :
    (d : ℕ) (ds : List ℕ) → AllBelow 10 (d ∷ ds) → has_hex_prefix (map hex_digit (d ∷ ds)) ≡ false
no_prefix d [] h = refl
no_prefix d (e ∷ ds) (h, (k, rest)) =
    let digit = hex_digit-decimal e k in
    let x : hex_digit e == b'x' ≡ false = ground arith in
    let y : hex_digit e == b'X' ≡ false = ground arith in
    rw (x, y) (and_false (hex_digit d == b'0'))
  where
    and_false : (b : Bool) → (b && false) ≡ false
    and_false true = refl
    and_false false = refl

-- The digits of a number below 2^32 in base 10 are scanned as the number, to their end.
pub scan_integer-decimal :
    (number : ℕ) (text : List ℕ)
    → DigitsOf number 10 text
    → scan_integer 10 text ≡ some (number, [])
unfolding scan_integer
scan_integer-decimal number text h =
    let digit = digit_of-hex_digit h.first h.below.0 in
    let below : ltb (digit_of (hex_digit h.first)) 10 ≡ true = ground (arith, h.below.0) in
    rw h.written (
      if-true _ _ below
      ∙ ap some (
          scan_digits-value 10 0 (h.first ∷ h.others) (omega arith) h.below
          ∙ ap (λ n. (n, [])) h.value))
