-- ===== src/Signal/Formatter.antt =====
-- signalhandler.cc: `MinimalFormatter`. Its end is the length of the buffer.
use ng_log.Prelude.{
  ℕ, zero, suc, ◌+◌, ◌-◌, ◌/◌, ◌%◌, ◌++◌, take, drop, splice, List, [], ◌∷◌, codes, ltb, ◌==◌,
  if◌then◌else◌, length, get_or, set,
}

pub record Formatter : Type 0 where
  pub buffer : List ℕ
  pub cursor : ℕ

abbrev pub reset : Formatter → Formatter
reset f = record f { cursor = 0 }

unfoldable pub append_string : List ℕ → Formatter → Formatter
append_string [] f = f
append_string (c ∷ str) f =
    let rest =
      append_string str (record { buffer = set f.buffer f.cursor c; cursor = f.cursor + 1 }) in
    if ltb f.cursor (length f.buffer) then rest else f

abbrev pub hex_digit : ℕ → ℕ
hex_digit n = get_or (codes "0123456789abcdef") n 0

-- The digits that are written in front of `digits` into a scratch buffer with so much room.
unfoldable pub uint64_digits : ℕ → ℕ → ℕ → List ℕ → List ℕ
uint64_digits zero number radix digits = digits
uint64_digits (suc room) number radix digits =
    let rest = uint64_digits room (number / radix) radix (hex_digit (number % radix) ∷ digits) in
    if number / radix == 0 then hex_digit (number % radix) ∷ digits else rest

unfoldable pub append_uint64 : ℕ → ℕ → Formatter → Formatter
append_uint64 number radix f = append_string (uint64_digits 64 number radix []) f

abbrev pub spaces : ℕ → List ℕ
spaces zero = []
spaces (suc n) = b' ' ∷ spaces n

abbrev pub least : ℕ → ℕ → ℕ
least a b = if ltb a b then a else b

-- What is between `start` and the cursor moves behind so many spaces, up to `target_len` bytes.
unfoldable pub pad_field : ℕ → ℕ → ℕ → Formatter → Formatter
pad_field start content_len target_len f = record {
  buffer =
      splice f.buffer start
        (spaces (target_len - content_len) ++ take content_len (drop start f.buffer));
  cursor = start + target_len;
}

-- The padding of what stands between `start` and the cursor, with so much room from `start` on.
unfoldable pub pad_to : ℕ → ℕ → ℕ → Formatter → Formatter
unfolding pad_field
pad_to start width room f =
    let content_len = f.cursor - start in
    let target_len = least width room in
    if ltb content_len width
    then (if ltb content_len target_len then pad_field start content_len target_len f else f)
    else f

unfoldable pub append_hex_with_padding : ℕ → ℕ → Formatter → Formatter
unfolding append_string append_uint64 pad_to
append_hex_with_padding number width f =
    pad_to f.cursor width (length f.buffer - f.cursor)
      (append_uint64 number 16 (append_string (codes "0x") f))
