-- ===== src/Demangle/Values.antt =====
-- demangle.cc: the values that `ParseNumber` reads.
use ng_log.Prelude.{
  ℕ, ◌+◌, ◌-◌, ◌*◌, ◌/◌, ◌%◌, ◌≤◌, ◌<◌, ◌≡◌, refl, Bool, true, false, ◌&&◌, ◌||◌, List, [], ◌∷◌,
  ◌++◌, none, some, arith, leb, ltb, ◌==◌, if◌then◌else◌, inl, inr, Bool-cases, leb→le,
}
use ng_log.Demangle.Machine.{first, is_digit}
use ng_log.Demangle.Numerals.{scan_number}

abbrev pub value : ℕ → List ℕ → ℕ
value number [] = number
value number (c ∷ cs) = value (number * 10 + (c - b'0')) cs

abbrev pub AllDigits : List ℕ → Type 0
AllDigits [] = Unit {0}
AllDigits (c ∷ cs) = (is_digit c ≡ true) × AllDigits cs

value-le : (number : ℕ) (ds : List ℕ) → number ≤ value number ds
value-le number [] = omega arith
value-le number (c ∷ cs) = omega (arith, value-le (number * 10 + (c - b'0')) cs)

pub digit-le : (c : ℕ) → is_digit c ≡ true → c - b'0' ≤ 9
unfolding is_digit
digit-le c h = ground arith

-- The test of the source says that the next digit takes the number past the limit.
abbrev past : ℕ → ℕ → ℕ → Bool
past limit number digit =
    ltb (limit / 10) number || (number == limit / 10 && ltb (limit % 10) digit)

past-false :
    (limit number digit : ℕ)
    → digit ≤ 9
    → number * 10 + digit ≤ limit
    → past limit number digit ≡ false
past-false limit number digit d h = ground arith

past-true :
    (limit number digit : ℕ)
    → digit ≤ 9
    → limit < number * 10 + digit
    → past limit number digit ≡ true
past-true limit number digit d h = ground arith

pub scan-end :
    (limit number : ℕ) (rest : List ℕ)
    → is_digit (first rest) ≡ false
    → scan_number limit number rest ≡ some (number, rest)
unfolding scan_number
scan-end limit number [] h = refl
scan-end limit number (c ∷ cs) h = rw h refl

scan_number-fits :
    (limit number : ℕ) (ds rest : List ℕ)
    → AllDigits ds
    → is_digit (first rest) ≡ false
    → value number ds ≤ limit
    → scan_number limit number (ds ++ rest) ≡ some (value number ds, rest)
unfolding scan_number
scan_number-fits limit number [] rest a h l = scan-end limit number rest h
scan_number-fits limit number (c ∷ ds) rest a h l = rw (a.0) (
    rw
      (past-false limit number (c - b'0') (digit-le c a.0)
        (omega (arith, value-le (number * 10 + (c - b'0')) ds)))
      (scan_number-fits limit (number * 10 + (c - b'0')) ds rest a.1 h l))

scan_number-past :
    (limit number : ℕ) (ds rest : List ℕ)
    → AllDigits ds
    → number ≤ limit
    → limit < value number ds
    → scan_number limit number (ds ++ rest) ≡ none
unfolding scan_number
scan_number-past limit number [] rest a w l = absurd (omega arith)
scan_number-past limit number (c ∷ ds) rest a w l =
    elim (Bool-cases (leb (number * 10 + (c - b'0')) limit)) [
      | inl below ↦ rw (a.0) (
          rw (past-false limit number (c - b'0') (digit-le c a.0) (leb→le _ _ below))
            (scan_number-past limit (number * 10 + (c - b'0')) ds rest a.1 (leb→le _ _ below) l))
      | inr above ↦
          rw (a.0) (rw (past-true limit number (c - b'0') (digit-le c a.0) (ground arith)) refl)
    ]

-- On decimal digits with no digit behind them, the number's scan returns their value and stands
-- behind them if the value is within the limit, and reports an overflow otherwise.
pub scan_number-value :
    (limit : ℕ) (ds rest : List ℕ)
    → AllDigits ds
    → is_digit (first rest) ≡ false
    → scan_number limit 0 (ds ++ rest)
      ≡ (if leb (value 0 ds) limit then some (value 0 ds, rest) else none)
scan_number-value limit ds rest a h = elim (Bool-cases (leb (value 0 ds) limit)) [
  | inl e ↦ rw e (scan_number-fits limit 0 ds rest a h (leb→le _ _ e))
  | inr e ↦ rw e (scan_number-past limit 0 ds rest a (omega arith) (ground arith))
]
