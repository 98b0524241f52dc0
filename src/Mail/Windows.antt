-- ===== src/Mail/Windows.antt =====
-- logging.cc: the C runtime reads what `QuoteWindowsArgument` writes as the text that was quoted, if
-- no double quote in it stands behind a backslash.
use ng_log.Prelude.{
  ℕ, zero, suc, ◌+◌, ◌*◌, ◌/◌, ◌%◌, ◌≡◌, refl, sym, ap, ◌∙◌, inl, inr, Bool, true, false, not, ◌&&◌,
  ◌||◌, List, [], ◌∷◌, Option, none, some, arith, ◌==◌, if◌then◌else◌, if-true, if-false,
  Bool-cases, ==_iff,
}
use ng_log.Mail.Quoting.{backslashes, quoted_from, quote_windows_argument}

abbrev pub behind_backslashes : ℕ → Option (List ℕ) → Option (List ℕ)
behind_backslashes n none = none
behind_backslashes n (some text) = some (backslashes n text)

abbrev pub behind : ℕ → Option (List ℕ) → Option (List ℕ)
behind c none = none
behind c (some text) = some (c ∷ text)

-- One argument by the rules of the C runtime: an even number of backslashes in front of a double
-- quote stands for half of them, and the quote begins or ends the quoted text; one more backslash
-- makes the quote a character. Other backslashes stand for themselves. `quoted` is whether the reader
-- is between quotes, `n` how many backslashes it has passed.
unfoldable pub argument_text : Bool → ℕ → List ℕ → Option (List ℕ)
argument_text true n [] = none
argument_text false n [] = some (backslashes n [])
argument_text quoted n (c ∷ text) =
    let more = argument_text quoted (suc n) text in
    let turned = argument_text (not quoted) 0 text in
    let rest = behind c (argument_text quoted 0 text) in
    if c == b'\\'
    then more
    else if c == b'"'
    then behind_backslashes (n / 2) (if n % 2 == 0 then turned else rest)
    else if not quoted && (c == 32 || c == 9)
    then none
    else behind_backslashes n rest

argument_text-backslashes :
    (n k : ℕ) (text : List ℕ)
    → argument_text true k (backslashes n text) ≡ argument_text true (n + k) text
unfolding argument_text
argument_text-backslashes zero k text = ap (λ m. argument_text true m text) {x = k} (omega arith)
argument_text-backslashes (suc n) k text =
    argument_text-backslashes n (suc k) text
    ∙ ap (λ m. argument_text true m text) {x = n + suc k} (omega arith)

argument_text-pending :
    (n : ℕ) (text : List ℕ) → argument_text true 0 (backslashes n text) ≡ argument_text true n text
argument_text-pending n text =
    argument_text-backslashes n 0 text
    ∙ ap (λ m. argument_text true m text) {x = n + 0} (omega arith)

backslashes-more : (n : ℕ) (text : List ℕ) → backslashes (suc n) text ≡ backslashes n (b'\\' ∷ text)
backslashes-more zero text = refl
backslashes-more (suc n) text = ap (λ t. b'\\' ∷ t) (backslashes-more n text)

behind_backslashes-none : (o : Option (List ℕ)) → behind_backslashes 0 o ≡ o
behind_backslashes-none none = refl
behind_backslashes-none (some text) = refl

abbrev pub starts_with_quote : List ℕ → Bool
starts_with_quote [] = false
starts_with_quote (c ∷ text) = c == b'"'

-- No double quote stands behind a backslash.
unfoldable pub is_unambiguous : List ℕ → Bool
is_unambiguous [] = true
is_unambiguous (c ∷ text) = not (c == b'\\' && starts_with_quote text) && is_unambiguous text

argument_text-quoted_from :
    (n : ℕ) (src : List ℕ)
    → is_unambiguous src ≡ true
    → ((n == 0) || not (starts_with_quote src)) ≡ true
    → argument_text true 0 (quoted_from n src) ≡ some (backslashes n src)
unfolding argument_text quoted_from is_unambiguous
argument_text-quoted_from n [] clear start =
    let even : n * 2 % 2 == 0 ≡ true = ground arith in
    let half : n * 2 / 2 ≡ n = omega arith in
    argument_text-pending (n * 2) (b'"' ∷ [])
    ∙ ap (behind_backslashes (n * 2 / 2)) (if-true _ _ even)
    ∙ ap (λ k. some (backslashes k [])) half
argument_text-quoted_from n (c ∷ src) clear start = elim (Bool-cases (c == b'\\')) [
  | inl e ↦
      let same = (==_iff c b'\\').0 e in
      ap (argument_text true 0) (if-true _ _ e)
      ∙ argument_text-quoted_from (suc n) src (ground arith) (ground arith)
      ∙ ap some (backslashes-more n src)
      ∙ ap (λ k. some (backslashes n (k ∷ src))) (sym same)
  | inr e ↦ elim (Bool-cases (c == b'"')) [
    | inl q ↦
        let none_pending : n ≡ 0 = ground arith in
        ap (argument_text true 0) (if-false _ _ e ∙ ap (backslashes n) (if-true _ _ q))
        ∙ argument_text-pending n (b'\\' ∷ c ∷ quoted_from 0 src)
        ∙ ap (λ m. argument_text true (suc m) (c ∷ quoted_from 0 src)) none_pending
        ∙ if-false _ _ e
        ∙ if-true _ _ q
        ∙ behind_backslashes-none (behind c (argument_text true 0 (quoted_from 0 src)))
        ∙ ap (behind c) (argument_text-quoted_from 0 src (ground arith) refl)
        ∙ ap (λ m. some (backslashes m (c ∷ src))) (sym none_pending)
    | inr q ↦
        ap (argument_text true 0) (if-false _ _ e ∙ ap (backslashes n) (if-false _ _ q))
        ∙ argument_text-pending n (c ∷ quoted_from 0 src)
        ∙ if-false _ _ e
        ∙ if-false _ _ q
        ∙ ap (λ o. behind_backslashes n (behind c o))
            (argument_text-quoted_from 0 src (ground arith) refl)
  ]
]

-- The C runtime reads what QuoteWindowsArgument writes as the text, if no double quote in it stands
-- behind a backslash.
pub argument_text-quote_windows_argument :
    (src : List ℕ)
    → is_unambiguous src ≡ true
    → argument_text false 0 (quote_windows_argument src) ≡ some src
unfolding argument_text quote_windows_argument
argument_text-quote_windows_argument src clear =
    behind_backslashes-none (argument_text true 0 (quoted_from 0 src))
    ∙ argument_text-quoted_from 0 src clear refl
