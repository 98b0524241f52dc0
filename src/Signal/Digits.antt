-- ===== src/Signal/Digits.antt =====
-- signalhandler.cc: the digits that `AppendUint64` writes.
use ng_log.Prelude.{
  ℕ, zero, suc, ◌+◌, ◌*◌, ◌/◌, ◌%◌, ◌^◌, ◌≡◌, ◌≤◌, ◌<◌, refl, ap, ◌∙◌, List, [], ◌∷◌, map, arith,
  ◌==◌, inl, inr, Bool-cases,
}
use native.Mathlib.Nat.{div-add-mod', div-lt_iff_lt-mul, mod-lt, mul-le-mul_left}
use ng_log.Signal.Formatter.{Formatter, append_string, hex_digit, uint64_digits, append_uint64}

-- The number with these digits behind those of another.
abbrev pub digits_value : ℕ → ℕ → List ℕ → ℕ
digits_value radix number [] = number
digits_value radix number (d ∷ ds) = digits_value radix (number * radix + d) ds

abbrev pub AllBelow : ℕ → List ℕ → Type 0
AllBelow radix [] = Unit {0}
AllBelow radix (d ∷ ds) = (d < radix) × AllBelow radix ds

div-small : (k n r : ℕ) → 2 ≤ r → n < 2 ^ suc k → n / r < 2 ^ k
div-small k n r two h =
    let least = mul-le-mul_left (2 ^ k) two in
    (div-lt_iff_lt-mul {k = r} {x = n} {y = 2 ^ k} (omega arith)).1 (omega arith)

pub uint64_digits-value :
    (room number radix : ℕ) (digits : List ℕ)
    → 2 ≤ radix
    → number < 2 ^ room
    → AllBelow radix digits
    → (ds : List ℕ) × (uint64_digits room number radix (map hex_digit digits) ≡ map hex_digit ds)
      × AllBelow radix ds
      × (digits_value radix 0 ds ≡ digits_value radix number digits)
unfolding uint64_digits
uint64_digits-value zero number radix digits two small below =
    (digits, refl, below, ap (λ n. digits_value radix n digits) (omega arith))
uint64_digits-value (suc room) number radix digits two small below =
    let split = div-add-mod' number radix in
    let digit = mod-lt number {m = radix} (omega arith) in
    elim (Bool-cases (number / radix == 0)) [
      | inl e ↦ rw e (
        number % radix ∷ digits,
        refl,
        (digit, below),
        ap (λ n. digits_value radix (n * radix + number % radix) digits) {x = 0}
              {y = number / radix} (ground arith)
            ∙ ap (λ n. digits_value radix n digits) split,
      )
      | inr e ↦ rw e (
          let (ds, written, all, same) =
            uint64_digits-value room (number / radix) radix (number % radix ∷ digits) two
              (div-small room number radix two small) (digit, below) in
          (ds, written, all, same ∙ ap (λ n. digits_value radix n digits) split))
    ]

-- For a radix from 2 to 16 and a number of 64 bits AppendUint64 appends the characters of digits
-- below the radix, and their value in this radix is the number.
pub append_uint64-value :
    (number radix : ℕ) (f : Formatter)
    → 2 ≤ radix
    → radix ≤ 16
    → number < 2 ^ 64
    → (ds : List ℕ) × (append_uint64 number radix f ≡ append_string (map hex_digit ds) f)
      × AllBelow radix ds
      × (digits_value radix 0 ds ≡ number)
unfolding append_uint64
append_uint64-value number radix f two table small =
    let (ds, written, all, same) = uint64_digits-value 64 number radix [] two small tt in
    (ds, ap (λ s. append_string s f) written, all, same)
