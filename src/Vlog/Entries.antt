-- ===== src/Vlog/Entries.antt =====
-- vlog_is_on.cc: how `VLOG2Initializer` reads --vmodule.
use ng_log.Prelude.{
  ℕ, zero, suc, ◌+◌, ◌-◌, ◌*◌, ◌%◌, ◌^◌, ◌<◌, ◌≡◌, refl, ◌∙◌, ap, true, false, ◌||◌, List, [], ◌∷◌,
  ◌++◌, Option, none, some, arith, length, ◌==◌, contains, inl, inr, Bool-cases, length-append, ltb,
  if-true,
}
use mathlib.Core.Option
use ng_log.Demangle.Machine.{ℤ, pos, is_digit}
use ng_log.Demangle.Values.{value, AllDigits}
use ng_log.Vlog.Modules.{
  entry_at, behind_comma, split_at, scan_digits, as_int, scan_level, scan_signed, skip_spaces,
  is_space, add_entry, entries_from, vmodule_entries, as_sign,
}

-- The text behind the character is shorter.
abbrev Shorter : Option (List ℕ × List ℕ) → List ℕ → Type 0
Shorter none text = Unit {0}
Shorter (some found) text = length found.1 < length text

split_at-Shorter : (c : ℕ) (text : List ℕ) → Shorter (split_at c text) text
unfolding split_at
split_at-Shorter c [] = tt
split_at-Shorter c (x ∷ xs) = elim (Bool-cases (x == c)) [
  | inl e ↦ rw e (omega arith)
  | inr e ↦ rw e (behind (split_at c xs) (split_at-Shorter c xs))
]
  where
    behind :
        (r : Option (List ℕ × List ℕ))
        → Shorter r xs
        → Shorter (elim r [ none ↦ none | some found ↦ some (x ∷ found.0, found.1) ]) (x ∷ xs)
    behind none h = tt
    behind (some found) h = omega arith

entry_at-cong :
    (r s : List ℕ → List (List ℕ × ℤ)) (text : List ℕ) (o : Option (List ℕ × List ℕ))
    → Shorter o text
    → ((t : List ℕ) → length t < length text → r t ≡ s t)
    → entry_at r o ≡ entry_at s o
unfolding entry_at
entry_at-cong r s text none l h = refl
entry_at-cong r s text (some found) l h =
    ap (add_entry found.0 (scan_level found.1))
      (commas (split_at b',' found.1) (split_at-Shorter b',' found.1))
  where
    commas :
        (o : Option (List ℕ × List ℕ)) → Shorter o found.1 → behind_comma r o ≡ behind_comma s o
    commas none k = refl
    commas (some next) k = h next.1 (omega (arith, l))

-- Any two amounts of fuel that exceed the text's length give the same entries.
entries_from-enough :
    (f g : ℕ) (text : List ℕ)
    → length text < f
    → length text < g
    → entries_from f text ≡ entries_from g text
unfolding entries_from
entries_from-enough zero g text h k = absurd (omega arith)
entries_from-enough (suc f) zero text h k = absurd (omega arith)
entries_from-enough (suc f) (suc g) text h k =
    entry_at-cong (λ t. entries_from f t) (λ t. entries_from g t) text (split_at b'=' text)
      (split_at-Shorter b'=' text) (λ t l. entries_from-enough f g t (omega arith) (omega arith))

split_at-append :
    (c : ℕ) (front behind : List ℕ)
    → contains front c ≡ false
    → split_at c (front ++ (c ∷ behind)) ≡ some (front, behind)
unfolding split_at contains
split_at-append c [] behind h = rw (same c) refl
  where
    same : (c : ℕ) → c == c ≡ true
    same c = ground arith
split_at-append c (x ∷ front) behind h =
    rw (neither h) (rw (split_at-append c front behind (others h)) refl)
  where
    neither : (x == c || contains front c) ≡ false → x == c ≡ false
    neither h = ground arith

    others : (x == c || contains front c) ≡ false → contains front c ≡ false
    others h = ground arith

scan_digits-value :
    (number : ℕ) (ds behind : List ℕ)
    → AllDigits ds
    → scan_digits (some number) (ds ++ (b',' ∷ behind)) ≡ some (value number ds)
unfolding scan_digits is_digit
scan_digits-value number [] behind a = refl
scan_digits-value number (d ∷ ds) behind a =
    rw (a.0) (scan_digits-value (number * 10 + (d - b'0')) ds behind a.1)

as_int-small : (n : ℕ) → n < 2 ^ 31 → as_int (pos n) ≡ pos n
unfolding as_int
as_int-small n small =
    let same : n % 2 ^ 32 ≡ n = omega arith in
    let fits : ltb (n % 2 ^ 32) (2 ^ 31) ≡ true = ground arith in if-true _ _ fits ∙ ap pos same

-- A level is a digit and digits behind it.
scan_level-digits :
    (d : ℕ) (ds behind : List ℕ)
    → AllDigits (d ∷ ds)
    → value 0 (d ∷ ds) < 2 ^ 31
    → scan_level ((d ∷ ds) ++ (b',' ∷ behind)) ≡ some (pos (value 0 (d ∷ ds)))
unfolding scan_level scan_signed skip_spaces
scan_level-digits d ds behind a small = rw (not_space d a.0) (
    rw (not_minus d a.0) (
      rw (not_plus d a.0) (
        ap (λ n. Option.map as_int (as_sign false n)) (digits d a.0)
        ∙ ap some (as_int-small (value 0 (d ∷ ds)) small))))
  where
    not_space : (d : ℕ) → is_digit d ≡ true → is_space d ≡ false
    not_space d e = unfold is_space is_digit in ground arith

    not_minus : (d : ℕ) → is_digit d ≡ true → d == b'-' ≡ false
    not_minus d e = unfold is_digit in ground arith

    not_plus : (d : ℕ) → is_digit d ≡ true → d == b'+' ≡ false
    not_plus d e = unfold is_digit in ground arith

    digits :
        (d : ℕ)
        → is_digit d ≡ true
        → scan_digits none (d ∷ (ds ++ (b',' ∷ behind))) ≡ some (value 0 (d ∷ ds))
    digits d e = unfold scan_digits in rw e (scan_digits-value (0 * 10 + (d - b'0')) ds behind a.1)

AllDigits-contains : (ds : List ℕ) → AllDigits ds → contains ds b',' ≡ false
unfolding contains
AllDigits-contains [] a = refl
AllDigits-contains (d ∷ ds) a = rw (not_comma d a.0) (AllDigits-contains ds a.1)
  where
    not_comma : (d : ℕ) → is_digit d ≡ true → d == b',' ≡ false
    not_comma d e = unfold is_digit in ground arith

-- An entry `pattern=digits,` at the front of --vmodule, with no '=' in the pattern and digits whose
-- value an `int` holds, is read as the pattern with the digits' value, and the rest of the text as
-- it is read by itself.
pub vmodule_entries-cons :
    (pattern : List ℕ) (d : ℕ) (ds rest : List ℕ)
    → contains pattern b'=' ≡ false
    → AllDigits (d ∷ ds)
    → value 0 (d ∷ ds) < 2 ^ 31
    → vmodule_entries (pattern ++ (b'=' ∷ ((d ∷ ds) ++ (b',' ∷ rest))))
      ≡ (pattern, pos (value 0 (d ∷ ds))) ∷ vmodule_entries rest
unfolding vmodule_entries entries_from
vmodule_entries-cons pattern d ds rest p a small =
    let text = pattern ++ (b'=' ∷ ((d ∷ ds) ++ (b',' ∷ rest))) in
    let more = entries_from (length text) in
    let behind = (d ∷ ds) ++ (b',' ∷ rest) in
    let entry : List ℕ × ℤ = (pattern, pos (value 0 (d ∷ ds))) in
    ap (entry_at (λ t. more t)) (split_at-append b'=' pattern behind p)
    ∙ ap (λ l. add_entry pattern l (behind_comma (λ t. more t) (split_at b',' behind)))
        (scan_level-digits d ds rest a small)
    ∙ ap (λ o. entry ∷ behind_comma (λ t. more t) o)
        (split_at-append b',' (d ∷ ds) rest (AllDigits-contains (d ∷ ds) a))
    ∙ ap (λ (l : List (List ℕ × ℤ)). entry ∷ l)
        (entries_from-enough (length text) (suc (length rest)) rest
          (omega
            (arith, length-append pattern (b'=' ∷ behind), length-append (d ∷ ds) (b',' ∷ rest)))
          (omega arith))
