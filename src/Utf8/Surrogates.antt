-- ===== src/Utf8/Surrogates.antt =====
-- ng-log/internal/utf8_encoder.h: code units, alone and in pairs.
use ng_log.Prelude.{
  ℕ, ◌+◌, ◌-◌, ◌*◌, ◌/◌, ◌%◌, ◌≡◌, ◌≤◌, ◌<◌, ◌⊎◌, refl, ◌∙◌, ap, Bool, true, false, ◌&&◌, List, [],
  ◌∷◌, ◌++◌, arith, ◌==◌, if◌then◌else◌, length, length-append, inl, inr, Bool-cases,
}
use ng_log.Utf8.Encoder.{
  encode_code_point, replacement_character, is_high_surrogate, is_low_surrogate, is_scalar_value,
  put_unit, put, finish, encode,
}

encode-length : (c : ℕ) → length (encode_code_point c) ≤ 4
unfolding encode_code_point
encode-length c = ground arith

encode-short : (c : ℕ) → c < 65536 → length (encode_code_point c) ≤ 3
unfolding encode_code_point
encode-short c h = ground arith

put_unit-short : (utf16 : Bool) (value : ℕ) → value < 65536 → length (put_unit utf16 value).0 ≤ 3
unfolding put_unit
put_unit-short utf16 value h = elim (Bool-cases (utf16 && is_high_surrogate value)) [
  | inl e ↦ rw e (omega arith)
  | inr e ↦ rw e (elim (Bool-cases (is_scalar_value value)) [
    | inl s ↦ rw s (encode-short value h)
    | inr s ↦ rw s (encode-short replacement_character (omega arith))
  ])
]

put_unit-length : (utf16 : Bool) (value : ℕ) → length (put_unit utf16 value).0 ≤ 4
unfolding put_unit
put_unit-length utf16 value = elim (Bool-cases (utf16 && is_high_surrogate value)) [
  | inl e ↦ rw e (omega arith)
  | inr e ↦ rw e (encode-length (if is_scalar_value value then value else replacement_character))
]

-- `Put` writes at most `kMaximumLength`, six, bytes, if no high surrogate is pending or the unit is
-- one of UTF-16.
pub put-length :
    (utf16 : Bool) (high_surrogate value : ℕ)
    → (high_surrogate ≡ 0) ⊎ (value < 65536)
    → length (put utf16 high_surrogate value).0 ≤ 6
unfolding put
put-length utf16 high_surrogate value h = elim (Bool-cases (high_surrogate == 0)) [
  | inl e ↦ rw e (omega (arith, put_unit-length utf16 value))
  | inr e ↦ rw e (elim (Bool-cases (is_low_surrogate value)) [
    | inl l ↦
        rw l
          (omega (arith, encode-length (65536 + (high_surrogate - 55296) * 1024 + (value - 56320))))
    | inr l ↦ rw l (
        omega (
          arith,
          length-append (encode_code_point replacement_character) (put_unit utf16 value).0,
          encode-short replacement_character (omega arith),
          put_unit-short utf16 value (small h e),
        ))
  ])
]
  where
    small : (high_surrogate ≡ 0) ⊎ (value < 65536) → high_surrogate == 0 ≡ false → value < 65536
    small (inl z) e = absurd (ground arith)
    small (inr l) e = l

-- The two UTF-16 units of a supplementary code point.
abbrev pub high_unit : ℕ → ℕ
high_unit code_point = 55296 + (code_point - 65536) / 1024

abbrev pub low_unit : ℕ → ℕ
low_unit code_point = 56320 + (code_point - 65536) % 1024

high_unit_lem : (c : ℕ) → 65536 ≤ c → c ≤ 1114111 → is_high_surrogate (high_unit c) ≡ true
unfolding is_high_surrogate
high_unit_lem c l h = ground arith

low_unit_lem : (c : ℕ) → is_low_surrogate (low_unit c) ≡ true
unfolding is_low_surrogate
low_unit_lem c = ground arith

first_unit : (c : ℕ) → 65536 ≤ c → c ≤ 1114111 → put true 0 (high_unit c) ≡ ([], high_unit c)
unfolding put put_unit
first_unit c l h = rw (high_unit_lem c l h) refl

second_unit :
    (c : ℕ)
    → 65536 ≤ c
    → c ≤ 1114111
    → put true (high_unit c) (low_unit c) ≡ (encode_code_point c, 0)
unfolding put
second_unit c l h =
    rw (not_zero (high_unit c) (omega arith))
      (rw (low_unit_lem c) (ap (λ x. (encode_code_point x, 0)) (paired c l)))
  where
    not_zero : (a : ℕ) → 0 < a → a == 0 ≡ false
    not_zero a h = ground arith

    paired : (c : ℕ) → 65536 ≤ c → 65536 + (high_unit c - 55296) * 1024 + (low_unit c - 56320) ≡ c
    paired c l = ground arith

-- A supplementary code point in UTF-16, a pair of surrogates, is encoded as this one code point,
-- and the units behind it as they are by themselves.
pub encode-pair :
    (code_point : ℕ) (units : List ℕ)
    → 65536 ≤ code_point
    → code_point ≤ 1114111
    → encode true 0 (high_unit code_point ∷ low_unit code_point ∷ units)
      ≡ encode_code_point code_point ++ encode true 0 units
unfolding encode
encode-pair c units l h =
    ap (λ s. s.0 ++ encode true s.1 (low_unit c ∷ units)) (first_unit c l h)
    ∙ ap (λ s. s.0 ++ encode true s.1 units) (second_unit c l h)

waiting : (high : ℕ) → is_high_surrogate high ≡ true → put_unit true high ≡ ([], high)
unfolding put_unit
waiting high h = rw h refl

not_zero : (high : ℕ) → is_high_surrogate high ≡ true → high == 0 ≡ false
unfolding is_high_surrogate
not_zero high h = ground arith

finish-high :
    (high : ℕ)
    → is_high_surrogate high ≡ true
    → (finish high).0 ≡ encode_code_point replacement_character
unfolding finish
finish-high high h = rw (not_zero high h) refl

replaced :
    (high unit : ℕ)
    → is_high_surrogate high ≡ true
    → is_low_surrogate unit ≡ false
    → put true high unit
      ≡ (encode_code_point replacement_character ++ (put_unit true unit).0, (put_unit true unit).1)
unfolding put
replaced high unit h l = rw (not_zero high h) (rw l refl)

-- A high surrogate with no low surrogate behind it, with which a text ends or which any other unit
-- of UTF-16 follows, is encoded as U+FFFD, and the text behind it as it is by itself.
pub encode-unpaired :
    (high unit : ℕ) (units : List ℕ)
    → is_high_surrogate high ≡ true
    → is_low_surrogate unit ≡ false
    → (encode true 0 (high ∷ []) ≡ encode_code_point replacement_character)
      × (encode true 0 (high ∷ unit ∷ units)
          ≡ encode_code_point replacement_character ++ encode true 0 (unit ∷ units))
unfolding encode
encode-unpaired high unit units h l = (
  ap (λ s. s.0 ++ (finish s.1).0) (waiting high h) ∙ finish-high high h,
  ap (λ s. s.0 ++ ((put true s.1 unit).0 ++ encode true (put true s.1 unit).1 units))
        (waiting high h)
      ∙ ap (λ s. s.0 ++ encode true s.1 units) (replaced high unit h l),
)
