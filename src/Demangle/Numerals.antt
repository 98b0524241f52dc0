-- ===== src/Demangle/Numerals.antt =====
-- demangle.cc: numbers, sequence ids and identifiers.
use ng_log.Prelude.{
  ℕ, zero, suc, ◌+◌, ◌-◌, ◌*◌, ◌/◌, ◌%◌, Bool, true, false, not, ◌&&◌, ◌||◌, List, [], ◌∷◌, Option,
  none, some, codes, leb, ltb, ◌==◌, if◌then◌else◌, length, drop,
}
use ng_log.Demangle.Machine.{
  ℤ, pos, negsuc, State, Machine, first, second, is_digit, at_least_num_chars_remaining, with_state,
  at_text,
}
use ng_log.Demangle.Output.{
  text, maybe_append, maybe_append_with_length, identifier_is_anonymous_namespace,
}
use ng_log.Demangle.Parser.{Parser, ◌&◌, ◌or◌, retry, fail, succeed}
use ng_log.Demangle.Tokens.{strip, parse_one_char_token, parse_two_char_token, skip_while, moved}

-- `ParseNumber(state, nullptr)` behind the sign; `copy` is the state before the sign.
unfoldable pub parse_digits : State → Parser
unfolding skip_while is_digit
parse_digits copy m =
    let p = skip_while is_digit m.mangled_cur in
    if first m.mangled_cur == b'0' && is_digit (second m.mangled_cur)
    then some (false, with_state m copy)
    else if moved p m.mangled_cur
    then some (true, at_text m p)
    else some (false, with_state m copy)

-- `const bool negative = ParseOneCharToken(state, 'n')`, the sign, and the machine behind it
abbrev pub behind_sign : Machine → Option (List ℕ) → Bool × Machine
behind_sign m none = (false, m)
behind_sign m (some rest) = (true, at_text m rest)

unfoldable pub parse_sign : Machine → Bool × Machine
parse_sign m = behind_sign m (strip (λ c. c == b'n') m.mangled_cur)

-- `ParseNumber(state, nullptr)`
unfoldable pub parse_number : Parser
unfolding parse_sign parse_digits
parse_number m = parse_digits m.state (parse_sign m).1

-- The digits' value and the text behind them, or `none` past `limit`.
unfoldable pub scan_number : ℕ → ℕ → List ℕ → Option (ℕ × List ℕ)
unfolding is_digit
scan_number limit number [] = some (number, [])
scan_number limit number (c ∷ cs) =
    let digit = c - b'0' in
    let rest = scan_number limit (number * 10 + digit) cs in
    if not (is_digit c)
    then some (number, c ∷ cs)
    else if ltb (limit / 10) number || (number == limit / 10 && ltb (limit % 10) digit)
    then none
    else rest

abbrev pub max_positive : ℕ
max_positive = 9223372036854775807

-- `-static_cast<std::int64_t>(number)`, and the least value at 2^63
unfoldable pub negate : ℕ → ℤ
negate zero = pos 0
negate (suc n) = negsuc n

-- What `ParseNumber` returns, the machine, and `*number_out`.
pub record Parsed : Type 0 where
  pub success : Bool
  pub machine : Machine
  pub number : ℤ

unfoldable pub finish_number : Bool → State → Machine → Option (ℕ × List ℕ) → ℤ → Parsed
unfolding negate
finish_number negative copy m none number_out = record {
  success = false;
  machine = with_state m copy;
  number = number_out;
}
finish_number negative copy m (some (number, p)) number_out =
    if moved p m.mangled_cur
    then record {
      success = true;
      machine = at_text m p;
      number = if negative then negate number else pos number;
    }
    else record { success = false; machine = m; number = number_out }

-- `ParseNumber(state, &number)`
unfoldable pub parse_number_value : ℤ → Machine → Parsed
unfolding parse_sign scan_number finish_number is_digit
parse_number_value number_out m =
    let (negative, signed) = parse_sign m in
    let limit = if negative then max_positive + 1 else max_positive in
    if first signed.mangled_cur == b'0' && is_digit (second signed.mangled_cur)
    then record { success = false; machine = with_state signed m.state; number = number_out }
    else finish_number negative m.state signed (scan_number limit 0 signed.mangled_cur) number_out

unfoldable pub parse_non_negative_number : Parser
parse_non_negative_number m =
    if first m.mangled_cur == b'n' then some (false, m) else parse_number m

abbrev pub non_negative : ℤ → Bool
non_negative (pos n) = true
non_negative (negsuc n) = false

abbrev pub positive : ℤ → Bool
positive (pos n) = ltb 0 n
positive (negsuc n) = false

-- `ParseNonNegativeNumber(state, &number)`
unfoldable pub parse_non_negative_value : ℤ → Machine → Parsed
unfolding parse_number_value
parse_non_negative_value number_out m =
    let parsed = parse_number_value (pos 0) m in
    if parsed.success && non_negative parsed.number then parsed else record {
      success = false;
      machine = with_state parsed.machine m.state;
      number = number_out;
    }

unfoldable pub parse_positive_number : Parser
parse_positive_number m =
    if first m.mangled_cur == b'0' || first m.mangled_cur == b'n'
    then some (false, m)
    else parse_number m

-- `ParsePositiveNumber(state, &number)`
unfoldable pub parse_positive_value : ℤ → Machine → Parsed
unfolding parse_non_negative_value
parse_positive_value number_out m =
    let parsed = parse_non_negative_value (pos 0) m in
    if parsed.success && positive parsed.number then parsed else record {
      success = false;
      machine = with_state parsed.machine m.state;
      number = number_out;
    }

unfoldable pub is_float_digit : ℕ → Bool
unfolding is_digit
is_float_digit c = is_digit c || (leb b'a' c && leb c b'f')

unfoldable pub parse_float_number : Parser
unfolding skip_while is_float_digit
parse_float_number m =
    let p = skip_while is_float_digit m.mangled_cur in
    if moved p m.mangled_cur then some (true, at_text m p) else some (false, m)

unfoldable pub is_seq_digit : ℕ → Bool
unfolding is_digit
is_seq_digit c = is_digit c || (leb b'A' c && leb c b'Z')

unfoldable pub parse_seq_id : Parser
unfolding skip_while is_seq_digit
parse_seq_id m =
    let p = skip_while is_seq_digit m.mangled_cur in
    if moved p m.mangled_cur
      && not (ltb 1 (length m.mangled_cur - length p) && first m.mangled_cur == b'0')
    then some (true, at_text m p)
    else some (false, m)

-- `state->mangled_cur += length`
unfoldable pub skip_text : ℕ → Machine → Machine
skip_text size m = at_text m (drop size m.mangled_cur)

unfoldable pub append_identifier : ℕ → Machine → Machine
unfolding identifier_is_anonymous_namespace
append_identifier size m =
    if identifier_is_anonymous_namespace m.mangled_cur size
    then maybe_append (codes "(anonymous namespace)") m
    else maybe_append_with_length (text m.mangled_cur) size m

unfoldable pub identifier_of_size : ℕ → Parser
unfolding skip_text append_identifier at_least_num_chars_remaining
identifier_of_size size m =
    if not (at_least_num_chars_remaining m.mangled_cur size)
    then some (false, m)
    else some (true, skip_text size (append_identifier size m))

unfoldable pub parse_identifier : ℤ → Parser
unfolding identifier_of_size
parse_identifier (pos size) m = identifier_of_size size m
parse_identifier (negsuc n) m = some (false, m)

-- A call that stores its number, and what follows it under `&&`.
unfoldable pub number_then : (Machine → Parsed) → (ℤ → Parser) → Parser
number_then parse next m =
    let parsed = parse m in
    if parsed.success then next parsed.number parsed.machine else some (false, parsed.machine)

-- `ssize_t` holds every `int64_t`, so the test against its largest value always passes.
unfoldable pub parse_source_name : Parser
parse_source_name = retry (number_then (parse_positive_value (negsuc 0)) parse_identifier)

abbrev pub at_least_ten : ℤ → Bool
at_least_ten (pos n) = leb 10 n
at_least_ten (negsuc n) = false

unfoldable pub long_discriminator : ℤ → Parser
long_discriminator number = if at_least_ten number then parse_one_char_token b'_' else fail

unfoldable pub short_discriminator : ℤ → Parser
short_discriminator number = if at_least_ten number then fail else succeed

unfoldable pub parse_discriminator : Parser
parse_discriminator =
    retry (
      parse_two_char_token b'_' b'_'
      & number_then (parse_non_negative_value (pos 0)) long_discriminator)
    or retry (
        parse_one_char_token b'_'
        & number_then (parse_non_negative_value (pos 0)) short_discriminator)
