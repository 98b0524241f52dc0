-- ===== src/Color/Examples.antt =====
-- internal/color_format.cc: the theorems at a concrete color.
use ng_log.Prelude.{◌≡◌, true, false, ◌∷◌, ◌++◌, arith, codes}
use ng_log.Color.Format.{
  red, default, named, ColorSpec, sgr_codes, color_codes, background_codes, named_color_sgr_code,
  named_color_offset, is_bright_color, format_small_uint, format_ansi_sequence,
}
use ng_log.Color.Complete.{format_ansi_sequence-fits}

-- Bold red.
abbrev bold_red : ColorSpec
bold_red = record {
  foreground = named red;
  background = named default;
  style = record { bold = true; dim = false; italic = false; underline = false };
}

format_ansi_sequence-fits_example :
    format_ansi_sequence bold_red (codes "..........") ≡ (27 ∷ codes "[1;31m") ++ (0 ∷ codes "..")
unfolding sgr_codes color_codes background_codes named_color_sgr_code named_color_offset
    is_bright_color format_small_uint
format_ansi_sequence-fits_example =
    format_ansi_sequence-fits bold_red (codes "..........") (omega arith)
