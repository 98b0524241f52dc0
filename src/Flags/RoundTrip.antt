-- ===== src/Flags/RoundTrip.antt =====
-- internal/flag_registry.cc: what is written of a value is read as the value.
use ng_log.Prelude.{
  ℕ, zero, suc, ◌+◌, ◌-◌, ◌*◌, ◌^◌, ◌≡◌, ◌≤◌, ◌<◌, refl, ap, ◌∙◌, true, false, ◌||◌, List, [], ◌∷◌,
  map, some, arith, ltb, leb, ◌==◌, if◌then◌else◌, length, if-true, if-false,
}
use ng_log.Demangle.Machine.{ℤ, pos, negsuc}
use ng_log.Signal.Formatter.{hex_digit, uint64_digits}
use ng_log.Signal.Digits.{digits_value, AllBelow}
use ng_log.Flags.Values.{
  scan_integer, integer_base, has_hex_prefix, starts_with, behind_sign, is_space, is_sign,
  signed_of, unsigned_of, parse_signed, parse_unsigned, to_decimal, signed_to_string,
  maximum_file_mode, mode_digits, parse_file_mode, zero_fill, file_mode_to_string,
}
use ng_log.Flags.Digits.{
  hex_digit-decimal, DigitsOf, uint64_digits-DigitsOf, no_prefix, scan_integer-decimal,
}

-- What the readers ask of the front of a text.
record Plain (text : List ℕ) : Type 0 where
  base : integer_base text ≡ 10
  negative_base : integer_base (b'-' ∷ text) ≡ 10
  behind : behind_sign text ≡ text
  unsigned : starts_with b'-' text ≡ false

DigitsOf-Plain : (number : ℕ) (text : List ℕ) → DigitsOf number 10 text → Plain text
unfolding integer_base
DigitsOf-Plain number text h =
    let digit = hex_digit-decimal h.first h.below.0 in
    let below = h.below.0 in
    let space : is_space (hex_digit h.first) ≡ false = ground arith in
    let sign : is_sign (hex_digit h.first) ≡ false = ground arith in
    let minus : hex_digit h.first == b'-' ≡ false = ground arith in
    let prefix = no_prefix h.first h.others h.below in
    rw h.written (record {
      base =
          if-false _ _ space
          ∙ ap (λ t. if has_hex_prefix t then 16 else 10) (if-false _ _ sign)
          ∙ if-false _ _ prefix;
      negative_base = if-false _ _ prefix;
      behind = if-false _ _ sign;
      unsigned = minus;
    })

-- The text of a uint32 flag's value is parsed as the value.
pub parse_unsigned-to_decimal : (n : ℕ) → n < 2 ^ 32 → parse_unsigned (to_decimal n) ≡ some n
unfolding parse_unsigned to_decimal
parse_unsigned-to_decimal n small =
    let text = uint64_digits 32 n 10 [] in
    let digits = uint64_digits-DigitsOf 31 n 10 (omega arith) small in
    let plain = DigitsOf-Plain n text digits in
    let in_range : ltb n (2 ^ 32) ≡ true = ground arith in
    if-false _ _ (ap (λ b. b == 0 || starts_with b'-' text) plain.base ∙ plain.unsigned)
    ∙ ap (λ b. unsigned_of (scan_integer b (behind_sign text))) plain.base
    ∙ ap (λ t. unsigned_of (scan_integer 10 t)) plain.behind
    ∙ ap unsigned_of (scan_integer-decimal n text digits)
    ∙ if-true _ _ in_range

parse_signed-pos : (n : ℕ) → n < 2 ^ 31 → parse_signed (to_decimal n) ≡ some (pos n)
unfolding parse_signed to_decimal
parse_signed-pos n small =
    let text = uint64_digits 32 n 10 [] in
    let digits = uint64_digits-DigitsOf 31 n 10 (omega arith) (omega arith) in
    let plain = DigitsOf-Plain n text digits in
    let in_range : ltb n (2 ^ 31) ≡ true = ground arith in
    if-false _ _ (ap (λ b. b == 0) plain.base)
    ∙ ap (λ b. signed_of b (scan_integer (integer_base text) (behind_sign text))) plain.unsigned
    ∙ ap (λ b. signed_of false (scan_integer b (behind_sign text))) plain.base
    ∙ ap (λ t. signed_of false (scan_integer 10 t)) plain.behind
    ∙ ap (signed_of false) (scan_integer-decimal n text digits)
    ∙ if-true _ _ in_range

parse_signed-negsuc :
    (n : ℕ) → n < 2 ^ 31 → parse_signed (b'-' ∷ to_decimal (n + 1)) ≡ some (negsuc n)
unfolding parse_signed to_decimal
parse_signed-negsuc n small =
    let in_range : leb (n + 1) (2 ^ 31) ≡ true = ground arith in
    let nonzero : n + 1 == 0 ≡ false = ground arith in
    let text = uint64_digits 32 (n + 1) 10 [] in
    let digits = uint64_digits-DigitsOf 31 (n + 1) 10 (omega arith) (omega arith) in
    let plain = DigitsOf-Plain (n + 1) text digits in
    if-false _ _ (ap (λ b. b == 0) plain.negative_base)
    ∙ ap (λ b. signed_of true (scan_integer b text)) plain.negative_base
    ∙ ap (signed_of true) (scan_integer-decimal (n + 1) text digits)
    ∙ if-true _ _ in_range
    ∙ ap some (if-false _ _ nonzero)
    ∙ ap (λ k. some (negsuc k)) {x = n + 1 - 1} (omega arith)

-- The integers between -2^31 and 2^31 - 1.
abbrev pub InRange : ℤ → Type 0
InRange (pos n) = n < 2 ^ 31
InRange (negsuc n) = n < 2 ^ 31

-- The text that ToString gives of an int32 flag's value is parsed as the value.
pub parse_signed-signed_to_string :
    (value : ℤ) → InRange value → parse_signed (signed_to_string value) ≡ some value
unfolding signed_to_string
parse_signed-signed_to_string (pos n) h = parse_signed-pos n h
parse_signed-signed_to_string (negsuc n) h = parse_signed-negsuc n h

digits_value-le : (radix value : ℕ) (ds : List ℕ) → 1 ≤ radix → value ≤ digits_value radix value ds
digits_value-le radix value [] h = omega arith
digits_value-le radix value (d ∷ ds) h =
    let grown : value * 1 ≤ value * radix = grind arith in
    omega (arith, digits_value-le radix (value * radix + d) ds h)

mode_digits-value :
    (mode : ℕ) (ds : List ℕ)
    → AllBelow 8 ds
    → digits_value 8 mode ds ≤ maximum_file_mode
    → mode_digits mode (map hex_digit ds) ≡ some (digits_value 8 mode ds)
unfolding mode_digits
mode_digits-value mode [] h small = refl
mode_digits-value mode (d ∷ ds) (h, rest) small =
    let digit = hex_digit-decimal d (omega arith) in
    let grown = digits_value-le 8 (mode * 8 + d) ds (omega arith) in
    let valid : ltb (hex_digit d) b'0' || ltb b'7' (hex_digit d) ≡ false = ground arith in
    let fits : ltb maximum_file_mode (mode * 8 + (hex_digit d - b'0')) ≡ false = ground arith in
    let same : hex_digit d - b'0' ≡ d = omega arith in
    if-false _ _ valid
    ∙ if-false _ _ fits
    ∙ ap (λ k. mode_digits (mode * 8 + k) (map hex_digit ds)) same
    ∙ mode_digits-value (mode * 8 + d) ds rest small

mode_digits-zeroes : (n : ℕ) (text : List ℕ) → mode_digits 0 (zero_fill n text) ≡ mode_digits 0 text
unfolding mode_digits
mode_digits-zeroes zero text = refl
mode_digits-zeroes (suc n) text = mode_digits-zeroes n text

-- The text of a file mode is parsed as the mode.
pub parse_file_mode-to_string :
    (mode : ℕ) → mode ≤ maximum_file_mode → parse_file_mode (file_mode_to_string mode) ≡ some mode
unfolding parse_file_mode file_mode_to_string
parse_file_mode-to_string mode small =
    let text = uint64_digits 12 mode 8 [] in
    let digits = uint64_digits-DigitsOf 11 mode 8 (omega arith) (omega arith) in
    let value = digits.value in
    mode_digits-zeroes (suc (3 - length text)) text
    ∙ ap (mode_digits 0) digits.written
    ∙ mode_digits-value 0 (digits.first ∷ digits.others) digits.below (omega arith)
    ∙ ap some value
