-- ===== src/Color/Format.antt =====
-- internal/color_format.cc: the escape sequence of a color and a style.
use ng_log.Prelude.{
  ℕ, zero, suc, ◌+◌, ◌-◌, ◌/◌, ◌%◌, Bool, true, false, List, [], ◌∷◌, ◌++◌, Option, none, some, ltb,
  ◌==◌, if◌then◌else◌, length, set,
}

pub data Color : Type 0 where
  default black gray red bright_red green bright_green yellow bright_yellow : Color
  blue bright_blue magenta bright_magenta cyan bright_cyan white bright_white : Color

-- `ColorValue`, by its kind; the components of a color are bytes.
pub data ColorValue : Type 0 where
  named : Color → ColorValue
  rgb : ℕ → ℕ → ℕ → ColorValue

-- The flags of `TextStyle` that `FormatAnsiSequence` tests.
pub record TextStyle : Type 0 where
  pub bold : Bool
  pub dim : Bool
  pub italic : Bool
  pub underline : Bool

pub record ColorSpec : Type 0 where
  pub foreground : ColorValue
  pub background : ColorValue
  pub style : TextStyle

-- `none` is -1.
unfoldable pub named_color_offset : Color → Option ℕ
named_color_offset default = none
named_color_offset black = some 0
named_color_offset gray = some 0
named_color_offset red = some 1
named_color_offset bright_red = some 1
named_color_offset green = some 2
named_color_offset bright_green = some 2
named_color_offset yellow = some 3
named_color_offset bright_yellow = some 3
named_color_offset blue = some 4
named_color_offset bright_blue = some 4
named_color_offset magenta = some 5
named_color_offset bright_magenta = some 5
named_color_offset cyan = some 6
named_color_offset bright_cyan = some 6
named_color_offset white = some 7
named_color_offset bright_white = some 7

unfoldable pub is_bright_color : Color → Bool
is_bright_color gray = true
is_bright_color bright_red = true
is_bright_color bright_green = true
is_bright_color bright_yellow = true
is_bright_color bright_blue = true
is_bright_color bright_magenta = true
is_bright_color bright_cyan = true
is_bright_color bright_white = true
is_bright_color _ = false

abbrev pub code_from : Option ℕ → Bool → Bool → ℕ
code_from none bright is_background = if is_background then 49 else 39
code_from (some offset) bright is_background =
    (if is_background then (if bright then 100 else 40) else (if bright then 90 else 30)) + offset

unfoldable pub named_color_sgr_code : Color → Bool → ℕ
unfolding named_color_offset is_bright_color
named_color_sgr_code color is_background =
    code_from (named_color_offset color) (is_bright_color color) is_background

-- `FormatSmallUint` with `room` digits, in front of `digits`.
unfoldable pub format_small_uint : ℕ → ℕ → List ℕ → List ℕ
format_small_uint zero value digits = digits
format_small_uint (suc room) value digits =
    let rest = format_small_uint room (value / 10) ((48 + value % 10) ∷ digits) in
    if value / 10 == 0 then (48 + value % 10) ∷ digits else rest

-- `cursor`, `out` and `fits`: the characters written are those of the buffer in front of the
-- cursor.
pub record Sequence : Type 0 where
  pub buffer : List ℕ
  pub cursor : ℕ
  pub fits : Bool

-- `end` is the last byte of the buffer.
unfoldable pub append_char : ℕ → Sequence → Sequence
append_char c s =
    if ltb s.cursor (length s.buffer - 1)
    then record { buffer = set s.buffer s.cursor c; cursor = s.cursor + 1; fits = s.fits }
    else record s { fits = false }

unfoldable pub append_chars : List ℕ → Sequence → Sequence
append_chars [] s = s
append_chars (c ∷ cs) s = append_chars cs (append_char c s)

-- `append_code`; `first` is false after it.
unfoldable pub append_code : Bool → ℕ → Sequence → Sequence
unfolding append_char append_chars format_small_uint
append_code first code s =
    append_chars (format_small_uint 3 code []) (if first then s else append_char b';' s)

unfoldable pub append_codes : Bool → List ℕ → Sequence → Sequence
unfolding append_code
append_codes first [] s = s
append_codes first (code ∷ codes) s = append_codes false codes (append_code first code s)

-- The codes of `append_color`
unfoldable pub color_codes : ColorValue → Bool → List ℕ
unfolding named_color_sgr_code
color_codes (named color) is_background = named_color_sgr_code color is_background ∷ []
color_codes (rgb r g b) is_background = (if is_background then 48 else 38) ∷ 2 ∷ r ∷ g ∷ b ∷ []

abbrev pub if_set : Bool → ℕ → List ℕ
if_set true code = code ∷ []
if_set false code = []

-- `background != ColorValue(Color::kDefault)`
unfoldable pub background_codes : ColorValue → List ℕ
unfolding color_codes
background_codes (named default) = []
background_codes value = color_codes value true

-- The codes of the calls of `append_code`, in order
unfoldable pub sgr_codes : ColorSpec → List ℕ
unfolding color_codes background_codes
sgr_codes spec =
    if_set spec.style.bold 1
    ++ (if_set spec.style.dim 2
        ++ (if_set spec.style.italic 3
            ++ (if_set spec.style.underline 4
                ++ (color_codes spec.foreground false ++ background_codes spec.background))))

-- `*(fits ? cursor : out) = '\0'`
unfoldable pub end_sequence : Sequence → List ℕ
end_sequence s = set s.buffer (if s.fits then s.cursor else 0) 0

-- `FormatAnsiSequence(out, out_size)` on the bytes of the buffer
unfoldable pub format_ansi_sequence : ColorSpec → List ℕ → List ℕ
unfolding append_char append_codes sgr_codes end_sequence
format_ansi_sequence spec out =
    if length out == 0
    then out
    else end_sequence (
        append_char b'm' (
          append_codes true (sgr_codes spec)
            (append_char b'[' (append_char 27 (record { buffer = out; cursor = 0; fits = true })))))
