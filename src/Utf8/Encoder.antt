-- ===== src/Utf8/Encoder.antt =====
-- ng-log/internal/utf8_encoder.h: `EncodeCodePoint` and `Utf8Encoder`. Bits are written as
-- arithmetic: `x >> k` is `x / 2 ^ k`, `x & 0x3f` is `x % 64`, and a marker is added, since its
-- bits and those of the value do not overlap.
use ng_log.Prelude.{
  ℕ, ◌+◌, ◌-◌, ◌*◌, ◌/◌, ◌%◌, Bool, ◌&&◌, ◌||◌, List, [], ◌∷◌, ◌++◌, leb, ltb, ◌==◌, if◌then◌else◌,
}

-- `kContinuationMarker | ((code_point >> shift) & kContinuationMask)`, with `2 ^ shift`
unfoldable pub continuation_byte : ℕ → ℕ → ℕ
continuation_byte code_point shift = 128 + code_point / shift % 64

unfoldable pub encode_code_point : ℕ → List ℕ
unfolding continuation_byte
encode_code_point code_point =
    if ltb code_point 128
    then code_point ∷ []
    else if ltb code_point 2048
    then (192 + code_point / 64) ∷ continuation_byte code_point 1 ∷ []
    else if ltb code_point 65536
    then (224 + code_point / 4096)
      ∷ continuation_byte code_point 64
      ∷ continuation_byte code_point 1
      ∷ []
    else (240 + code_point / 262144)
      ∷ continuation_byte code_point 4096
      ∷ continuation_byte code_point 64
      ∷ continuation_byte code_point 1
      ∷ []

abbrev pub replacement_character : ℕ
replacement_character = 65533

unfoldable pub is_high_surrogate : ℕ → Bool
is_high_surrogate value = leb 55296 value && leb value 56319

unfoldable pub is_low_surrogate : ℕ → Bool
is_low_surrogate value = leb 56320 value && leb value 57343

unfoldable pub is_scalar_value : ℕ → Bool
is_scalar_value value = (ltb value 55296 || ltb 57343 value) && leb value 1114111

-- `Put(unit, output)` with `high_surrogate_` first: the bytes written, and `high_surrogate_` then.
-- `utf16` is `kWideCharIsUtf16`.
unfoldable pub put_unit : Bool → ℕ → List ℕ × ℕ
unfolding encode_code_point is_high_surrogate is_scalar_value
put_unit utf16 value =
    if utf16 && is_high_surrogate value
    then ([], value)
    else (encode_code_point (if is_scalar_value value then value else replacement_character), 0)

unfoldable pub put : Bool → ℕ → ℕ → List ℕ × ℕ
unfolding put_unit is_low_surrogate encode_code_point
put utf16 high_surrogate value =
    let rest = put_unit utf16 value in
    if high_surrogate == 0
    then rest
    else if is_low_surrogate value
    then (encode_code_point (65536 + (high_surrogate - 55296) * 1024 + (value - 56320)), 0)
    else (encode_code_point replacement_character ++ rest.0, rest.1)

-- `Finish(output)`
unfoldable pub finish : ℕ → List ℕ × ℕ
unfolding encode_code_point
finish high_surrogate =
    if high_surrogate == 0 then ([], 0) else (encode_code_point replacement_character, 0)

-- `Put` for each code unit, and `Finish`.
unfoldable pub encode : Bool → ℕ → List ℕ → List ℕ
unfolding put finish
encode utf16 high_surrogate [] = (finish high_surrogate).0
encode utf16 high_surrogate (value ∷ units) =
    let step = put utf16 high_surrogate value in step.0 ++ encode utf16 step.1 units
