-- ===== src/Utf8/RoundTrip.antt =====
-- ng-log/internal/utf8_encoder.h: the encoding can be decoded, and is the shortest.
use ng_log.Prelude.{
  ℕ, ◌+◌, ◌-◌, ◌*◌, ◌/◌, ◌≡◌, ◌≤◌, ◌<◌, refl, true, false, List, [], ◌∷◌, ◌++◌, Option, none, some,
  arith, ltb, if◌then◌else◌, get_or, drop, ap, inl, inr, Bool-cases,
}
use ng_log.Utf8.Encoder.{encode_code_point, continuation_byte}

-- The payload of the continuation byte at the index `i`.
abbrev payload : List ℕ → ℕ → ℕ
payload rest i = get_or rest i 128 - 128

-- The code point at the front of a text in UTF-8, and the text behind it; the first byte says how
-- many bytes there are.
abbrev pub decode : List ℕ → Option (ℕ × List ℕ)
decode [] = none
decode (a ∷ rest) =
    if ltb a 128
    then some (a, rest)
    else if ltb a 224
    then some ((a - 192) * 64 + payload rest 0, drop 1 rest)
    else if ltb a 240
    then some ((a - 224) * 4096 + payload rest 0 * 64 + payload rest 1, drop 2 rest)
    else some (
      (a - 240) * 262144 + payload rest 0 * 4096 + payload rest 1 * 64 + payload rest 2,
      drop 3 rest,
    )

decoded :
    (a b : ℕ) (rest : List ℕ)
    → a ≡ b
    → ◌≡◌ {A = Option (ℕ × List ℕ)} (some (a, rest)) (some (b, rest))
decoded a b rest e = ap (λ n. some (n, rest)) e

below : (a b : ℕ) → a < b → ltb a b ≡ true
below a b h = ground arith

not_below : (a b : ℕ) → b ≤ a → ltb a b ≡ false
not_below a b h = ground arith

-- Every code point up to U+10FFFF can be read back from its encoding, whatever follows it.
pub decode-encode_code_point :
    (code_point : ℕ) (rest : List ℕ)
    → code_point ≤ 1114111
    → decode (encode_code_point code_point ++ rest) ≡ some (code_point, rest)
unfolding encode_code_point continuation_byte
decode-encode_code_point c rest h = elim (Bool-cases (ltb c 128)) [
  | inl one ↦ rw one (rw one refl)
  | inr more ↦ elim (Bool-cases (ltb c 2048)) [
    | inl two ↦ rw more (
        rw two (
          rw (not_below (192 + c / 64) 128 (omega arith))
            (rw (below (192 + c / 64) 224 (ground arith)) (decoded _ _ rest (ground arith)))))
    | inr more' ↦ elim (Bool-cases (ltb c 65536)) [
      | inl three ↦ rw more (
          rw more' (
            rw three (
              rw (not_below (224 + c / 4096) 128 (omega arith)) (
                rw (not_below (224 + c / 4096) 224 (omega arith)) (
                  rw (below (224 + c / 4096) 240 (ground arith))
                    (decoded _ _ rest (ground arith)))))))
      | inr four ↦ rw more (
          rw more' (
            rw four (
              rw (not_below (240 + c / 262144) 128 (omega arith)) (
                rw (not_below (240 + c / 262144) 224 (omega arith)) (
                  rw (not_below (240 + c / 262144) 240 (omega arith))
                    (decoded _ _ rest (ground arith)))))))
    ]
  ]
]
