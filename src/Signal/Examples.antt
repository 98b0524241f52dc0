-- ===== src/Signal/Examples.antt =====
-- signalhandler.cc: numbers of a failure message, and the witness.
use ng_log.Prelude.{◌≡◌, refl, codes}
use ng_log.Signal.Formatter.{
  Formatter, append_string, uint64_digits, append_uint64, pad_field, pad_to,
  append_hex_with_padding,
}

abbrev empty : Formatter
empty = record { buffer = codes "......"; cursor = 0 }

hexadecimal : append_uint64 48879 16 empty ≡ record { buffer = codes "beef.."; cursor = 4 }
unfolding append_uint64 append_string uint64_digits
hexadecimal = refl

no_room : append_uint64 12345678 10 empty ≡ record { buffer = codes "123456"; cursor = 6 }
unfolding append_uint64 append_string uint64_digits
no_room = refl

padded : append_hex_with_padding 171 6 empty ≡ record { buffer = codes "  0xab"; cursor = 6 }
unfolding append_hex_with_padding append_uint64 append_string uint64_digits pad_to pad_field
padded = refl

-- A width that the buffer has not
padded_full : append_hex_with_padding 171 20 empty ≡ record { buffer = codes "  0xab"; cursor = 6 }
unfolding append_hex_with_padding append_uint64 append_string uint64_digits pad_to pad_field
padded_full = refl
