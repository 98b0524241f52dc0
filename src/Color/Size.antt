-- ===== src/Color/Size.antt =====
-- internal/color_format.cc: the buffer that every sequence fits into.
use ng_log.Prelude.{
  ℕ, ◌+◌, ◌≡◌, ◌≤◌, ◌<◌, Bool, true, false, List, [], ◌∷◌, ◌++◌, arith, length, length-append,
}
use ng_log.Color.Format.{
  default, ColorValue, named, rgb, ColorSpec, named_color_sgr_code, format_small_uint, color_codes,
  if_set, background_codes, sgr_codes,
}
use ng_log.Color.Complete.{joined, ansi_sequence}

small-length : (n : ℕ) → length (format_small_uint 3 n []) ≤ 3
unfolding format_small_uint
small-length n = ground arith

small-short : (n : ℕ) → n < 10 → length (format_small_uint 3 n []) ≤ 1
unfolding format_small_uint
small-short n h = ground arith

small-two : (n : ℕ) → n < 100 → length (format_small_uint 3 n []) ≤ 2
unfolding format_small_uint
small-two n h = ground arith

-- A ';' and the digits for each code.
weight : List ℕ → ℕ
weight [] = 0
weight (code ∷ codes) = 1 + length (format_small_uint 3 code []) + weight codes

weight-append : (x y : List ℕ) → weight (x ++ y) ≡ weight x + weight y
unfolding weight
weight-append [] y = omega arith
weight-append (c ∷ x) y = omega (arith, weight-append x y)

joined-length : (first : Bool) (codes : List ℕ) → length (joined first codes) ≤ weight codes
unfolding weight
joined-length first [] = omega arith
joined-length true (code ∷ codes) = omega (
  arith,
  length-append (format_small_uint 3 code []) (joined false codes),
  joined-length false codes,
)
joined-length false (code ∷ codes) = omega (
  arith,
  length-append (format_small_uint 3 code []) (joined false codes),
  joined-length false codes,
)

if_set-weight : (b : Bool) (code : ℕ) → code < 10 → weight (if_set b code) ≤ 2
unfolding weight
if_set-weight true code h = omega (arith, small-short code h)
if_set-weight false code h = omega arith

color-weight :
    (value : ColorValue) (is_background : Bool) → weight (color_codes value is_background) ≤ 17
unfolding weight color_codes
color-weight (named color) is_background =
    omega (arith, small-length (named_color_sgr_code color is_background))
color-weight (rgb r g b) true = omega (
  arith,
  small-two 48 (omega arith),
  small-short 2 (omega arith),
  small-length r,
  small-length g,
  small-length b,
)
color-weight (rgb r g b) false = omega (
  arith,
  small-two 38 (omega arith),
  small-short 2 (omega arith),
  small-length r,
  small-length g,
  small-length b,
)

background-weight : (value : ColorValue) → weight (background_codes value) ≤ 17
unfolding background_codes
background-weight (named default) = unfold weight in omega arith
background-weight (named color) = color-weight (named color) true
background-weight (rgb r g b) = color-weight (rgb r g b) true

codes-weight : (spec : ColorSpec) → weight (sgr_codes spec) ≤ 42
unfolding sgr_codes
codes-weight spec =
    let f = color_codes spec.foreground false in
    let g = background_codes spec.background in
    let u = if_set spec.style.underline 4 in
    let i = if_set spec.style.italic 3 in
    let d = if_set spec.style.dim 2 in
    omega (
      arith,
      weight-append (if_set spec.style.bold 1) (d ++ (i ++ (u ++ (f ++ g)))),
      weight-append d (i ++ (u ++ (f ++ g))),
      weight-append i (u ++ (f ++ g)),
      weight-append u (f ++ g),
      weight-append f g,
      if_set-weight spec.style.bold 1 (omega arith),
      if_set-weight spec.style.dim 2 (omega arith),
      if_set-weight spec.style.italic 3 (omega arith),
      if_set-weight spec.style.underline 4 (omega arith),
      color-weight spec.foreground false,
      background-weight spec.background,
    )

-- `kMaxAnsiSequenceSize`
abbrev pub max_ansi_sequence_size : ℕ
max_ansi_sequence_size = 48

-- A buffer of `kMaxAnsiSequenceSize` bytes has room for the sequence of every color and style, and
-- for the null character.
pub ansi_sequence-length : (spec : ColorSpec) → length (ansi_sequence spec) < max_ansi_sequence_size
ansi_sequence-length spec = omega (
  arith,
  length-append (joined true (sgr_codes spec)) (b'm' ∷ []),
  joined-length true (sgr_codes spec),
  codes-weight spec,
)
