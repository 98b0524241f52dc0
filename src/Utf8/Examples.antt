-- ===== src/Utf8/Examples.antt =====
-- ng-log/internal/utf8_encoder.h: the theorems at concrete texts.
use ng_log.Prelude.{◌≡◌, ◌++◌, some, arith, codes}
use ng_log.Utf8.Encoder.{encode_code_point}
use ng_log.Utf8.RoundTrip.{decode, decode-encode_code_point}

decode-encode_code_point_example :
    decode (encode_code_point 8364 ++ codes " each") ≡ some (8364, codes " each")
decode-encode_code_point_example = decode-encode_code_point 8364 (codes " each") (omega arith)
