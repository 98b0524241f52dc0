-- ===== src/Flags/Values.antt =====
-- internal/flag_registry.cc: how the values of flags are read and written. A text is the list of its
-- characters, with no null character.
use ng_log.Prelude.{
  same_text, ℕ, zero, suc, ◌+◌, ◌-◌, ◌*◌, ◌^◌, Bool, true, false, ◌&&◌, ◌||◌, List, [], ◌∷◌, map,
  Option, none, some, leb, ltb, ◌==◌, if◌then◌else◌, codes, length,
}
use ng_log.Demangle.Machine.{ℤ, pos, negsuc}
use ng_log.Signal.Formatter.{uint64_digits}

unfoldable pub to_lower : ℕ → ℕ
to_lower c = if leb b'A' c && leb c b'Z' then c + 32 else c

unfoldable pub one_of : List ℕ → List (List ℕ) → Bool
unfolding same_text
one_of text [] = false
one_of text (t ∷ texts) = same_text text t || one_of text texts

unfoldable pub parse_boolean : List ℕ → Option Bool
unfolding to_lower one_of
parse_boolean value =
    let normalized = map to_lower value in
    if one_of normalized (codes "1" ∷ codes "true" ∷ codes "yes" ∷ codes "y" ∷ codes "t" ∷ [])
    then some true
    else if one_of normalized (codes "0" ∷ codes "false" ∷ codes "no" ∷ codes "n" ∷ codes "f" ∷ [])
    then some false
    else none

-- `std::isspace` in the "C" locale
abbrev pub is_space : ℕ → Bool
is_space c = c == 32 || leb 9 c && leb c 13

abbrev pub is_sign : ℕ → Bool
is_sign c = c == b'+' || c == b'-'

abbrev pub has_hex_prefix : List ℕ → Bool
has_hex_prefix [] = false
has_hex_prefix (c ∷ []) = false
has_hex_prefix (c ∷ d ∷ text) = c == b'0' && (d == b'x' || d == b'X')

abbrev pub behind_sign : List ℕ → List ℕ
behind_sign [] = []
behind_sign (c ∷ text) = if is_sign c then text else c ∷ text

unfoldable pub integer_base : List ℕ → ℕ
integer_base [] = 0
integer_base (c ∷ text) =
    if is_space c then 0 else if has_hex_prefix (behind_sign (c ∷ text)) then 16 else 10

-- The value of a digit, or one that no base has.
unfoldable pub digit_of : ℕ → ℕ
digit_of c =
    if leb b'0' c && leb c b'9'
    then c - b'0'
    else if leb b'a' c && leb c b'z'
    then c - b'a' + 10
    else if leb b'A' c && leb c b'Z'
    then c - b'A' + 10
    else 36

-- The digits of `std::strtoimax` and `std::strtoumax`: their value, and what stands behind them.
unfoldable pub scan_digits : ℕ → ℕ → List ℕ → ℕ × List ℕ
unfolding digit_of
scan_digits base value [] = (value, [])
scan_digits base value (c ∷ text) =
    let rest = scan_digits base (value * base + digit_of c) text in
    if ltb (digit_of c) base then rest else (value, c ∷ text)

abbrev pub starts_with_digit : ℕ → List ℕ → Bool
starts_with_digit base [] = false
starts_with_digit base (c ∷ text) = ltb (digit_of c) base

abbrev pub tail_of : List ℕ → List ℕ
tail_of [] = []
tail_of (c ∷ text) = text

-- With base 16 a prefix is passed over if a digit follows it.
abbrev pub behind_prefix : ℕ → List ℕ → List ℕ
behind_prefix base text =
    let digits = tail_of (tail_of text) in
    if base == 16 && has_hex_prefix text && starts_with_digit base digits then digits else text

-- The magnitude and what stands behind it, if there are digits.
unfoldable pub scan_integer : ℕ → List ℕ → Option (ℕ × List ℕ)
unfolding scan_digits
scan_integer base text =
    let digits = behind_prefix base text in
    if starts_with_digit base digits then some (scan_digits base 0 digits) else none

abbrev pub starts_with : ℕ → List ℕ → Bool
starts_with c [] = false
starts_with c (d ∷ text) = d == c

abbrev pub no_rest : List ℕ → Bool
no_rest [] = true
no_rest (c ∷ text) = false

-- `errno` is set for a magnitude past `std::intmax_t`, which is past `std::int32_t` too.
abbrev pub signed_of : Bool → Option (ℕ × List ℕ) → Option ℤ
signed_of negative none = none
signed_of false (some (magnitude, rest)) =
    if no_rest rest && ltb magnitude (2 ^ 31) then some (pos magnitude) else none
signed_of true (some (magnitude, rest)) =
    if no_rest rest && leb magnitude (2 ^ 31)
    then some (if magnitude == 0 then pos 0 else negsuc (magnitude - 1))
    else none

unfoldable pub parse_signed : List ℕ → Option ℤ
unfolding integer_base scan_integer
parse_signed value =
    let base = integer_base value in
    if base == 0
    then none
    else signed_of (starts_with b'-' value) (scan_integer base (behind_sign value))

abbrev pub unsigned_of : Option (ℕ × List ℕ) → Option ℕ
unsigned_of none = none
unsigned_of (some (magnitude, rest)) =
    if no_rest rest && ltb magnitude (2 ^ 32) then some magnitude else none

unfoldable pub parse_unsigned : List ℕ → Option ℕ
unfolding integer_base scan_integer
parse_unsigned value =
    let base = integer_base value in
    if base == 0 || starts_with b'-' value
    then none
    else unsigned_of (scan_integer base (behind_sign value))

-- `std::to_string`, for numbers of at most 32 bits
unfoldable pub to_decimal : ℕ → List ℕ
unfolding uint64_digits
to_decimal n = uint64_digits 32 n 10 []

unfoldable pub signed_to_string : ℤ → List ℕ
unfolding to_decimal
signed_to_string (pos n) = to_decimal n
signed_to_string (negsuc n) = b'-' ∷ to_decimal (n + 1)

abbrev pub maximum_file_mode : ℕ
maximum_file_mode = 4095

-- The loop over the digits of a mode; `none` is an invalid one.
unfoldable pub mode_digits : ℕ → List ℕ → Option ℕ
mode_digits mode [] = some mode
mode_digits mode (digit ∷ value) =
    let next = mode * 8 + (digit - b'0') in
    let rest = mode_digits next value in
    if ltb digit b'0' || ltb b'7' digit
    then none
    else if ltb maximum_file_mode next
    then none
    else rest

unfoldable pub parse_file_mode : List ℕ → Option ℕ
unfolding mode_digits
parse_file_mode [] = none
parse_file_mode (digit ∷ value) = mode_digits 0 (digit ∷ value)

-- Zeroes in front of a text up to a width
abbrev pub zero_fill : ℕ → List ℕ → List ℕ
zero_fill zero text = text
zero_fill (suc n) text = b'0' ∷ zero_fill n text

unfoldable pub file_mode_to_string : ℕ → List ℕ
unfolding uint64_digits
file_mode_to_string mode =
    let digits = uint64_digits 12 mode 8 [] in b'0' ∷ zero_fill (3 - length digits) digits
