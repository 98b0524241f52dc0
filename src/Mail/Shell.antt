-- ===== src/Mail/Shell.antt =====
-- logging.cc: a POSIX shell reads what `ShellEscape` writes as the text that was escaped.
use ng_log.Prelude.{
  ℕ, ◌≡◌, refl, sym, ap, ◌∙◌, inl, inr, Bool, true, false, not, ◌&&◌, ◌||◌, List, [], ◌∷◌, ◌++◌,
  Option, none, some, arith, ◌==◌, if◌then◌else◌, if-true, if-false, Bool-cases, and-first,
  and-second, ==_iff, codes, contains,
}
use ng_log.Mail.Quoting.{
  dont_need_shell_escape_chars, all_of, needs_backslash, double_quoted, shell_escape,
}

-- Where the reader is: outside of quotes, between single or double quotes, behind a backslash
-- between double quotes.
pub data Quotes : Type 0 where
  bare single double escaped : Quotes

-- The characters that must be quoted to stand for themselves, and those that may have to be.
abbrev pub special_chars : List ℕ
special_chars = codes "|&;<>()$`\\\"' \t\n*?[#~"

abbrev pub before : ℕ → Option (List ℕ) → Option (List ℕ)
before c none = none
before c (some text) = some (c ∷ text)

-- The text of one word by the quoting rules of the POSIX shell, if what is read is one word without
-- expansions.
unfoldable pub shell_text : Quotes → List ℕ → Option (List ℕ)
unfolding contains
shell_text bare [] = some []
shell_text single [] = none
shell_text double [] = none
shell_text escaped [] = none
shell_text bare (c ∷ text) =
    let in_single = shell_text single text in
    let in_double = shell_text double text in
    let rest = shell_text bare text in
    if c == b'\''
    then in_single
    else if c == b'"'
    then in_double
    else if contains special_chars c
    then none
    else before c rest
shell_text single (c ∷ text) =
    let outside = shell_text bare text in
    let rest = shell_text single text in if c == b'\'' then outside else before c rest
shell_text double (c ∷ text) =
    let outside = shell_text bare text in
    let behind_backslash = shell_text escaped text in
    let rest = shell_text double text in
    if c == b'"'
    then outside
    else if c == b'\\'
    then behind_backslash
    else if c == b'$' || c == b'`'
    then none
    else before c rest
shell_text escaped (c ∷ text) =
    let rest = shell_text double text in
    if needs_backslash c
    then before c rest
    else if c == 10
    then rest
    else before b'\\' (before c rest)

-- A word has characters or quotes.
unfoldable pub shell_word : List ℕ → Option (List ℕ)
unfolding shell_text
shell_word [] = none
shell_word (c ∷ text) = shell_text bare (c ∷ text)

shell_text-double_quoted : (src : List ℕ) → shell_text double (double_quoted src) ≡ some src
unfolding shell_text double_quoted
shell_text-double_quoted [] = refl
shell_text-double_quoted (c ∷ src) = elim (Bool-cases (needs_backslash c)) [
  | inl e ↦
      ap (shell_text double) (if-true _ _ e)
      ∙ if-true _ _ e
      ∙ ap (before c) (shell_text-double_quoted src)
  | inr e ↦
      let quote : c == b'"' ≡ false = ground arith in
      let backslash : c == b'\\' ≡ false = ground arith in
      let expansion : (c == b'$' || c == b'`') ≡ false = ground arith in
      ap (shell_text double) (if-false _ _ e)
      ∙ if-false _ _ quote
      ∙ if-false _ _ backslash
      ∙ if-false _ _ expansion
      ∙ ap (before c) (shell_text-double_quoted src)
]

-- A text without a character, from its first character on.
contains-absent :
    (c a : ℕ) (src : List ℕ)
    → contains (c ∷ src) a ≡ false
    → (c == a ≡ false) × (contains src a ≡ false)
unfolding contains
contains-absent c a src h = (ground arith, ground arith)

shell_text-single :
    (src : List ℕ) → contains src b'\'' ≡ false → shell_text single (src ++ (b'\'' ∷ [])) ≡ some src
unfolding shell_text
shell_text-single [] h = refl
shell_text-single (c ∷ src) h =
    let (first, later) = contains-absent c b'\'' src h in
    if-false _ _ first ∙ ap (before c) (shell_text-single src later)

abbrev pub all_chars : (ℕ → Bool) → List ℕ → Bool
all_chars test [] = true
all_chars test (c ∷ chars) = test c && all_chars test chars

not-true : (b : Bool) → not b ≡ true → b ≡ false
not-true false h = refl
not-true true h = sym h

all_chars-contains :
    (test : ℕ → Bool) (c : ℕ) (chars : List ℕ)
    → all_chars test chars ≡ true
    → contains chars c ≡ true
    → test c ≡ true
unfolding contains
all_chars-contains test c [] h q = cc
all_chars-contains test c (x ∷ chars) h q = elim (Bool-cases (x == c)) [
  | inl e ↦ ap test (sym ((==_iff x c).0 e)) ∙ and-first (test x) _ h
  | inr e ↦ all_chars-contains test c chars (ground arith) (ground arith)
]

safe_chars-unspecial :
    all_chars (λ c. not (contains special_chars c)) dont_need_shell_escape_chars ≡ true
unfolding contains
safe_chars-unspecial = refl

unspecial :
    (c : ℕ) → contains dont_need_shell_escape_chars c ≡ true → contains special_chars c ≡ false
unspecial c h = not-true (contains special_chars c) (
    all_chars-contains (λ c. not (contains special_chars c)) c dont_need_shell_escape_chars
      safe_chars-unspecial h)

absent :
    (chars : List ℕ) (c a : ℕ) → contains chars c ≡ false → contains chars a ≡ true → c == a ≡ false
absent chars c a h q = elim (Bool-cases (c == a)) [
  | inr e ↦ e
  | inl e ↦ let same = (==_iff c a).0 e in cc
]

shell_text-bare :
    (src : List ℕ) → all_of dont_need_shell_escape_chars src ≡ true → shell_text bare src ≡ some src
unfolding shell_text all_of
shell_text-bare [] h = refl
shell_text-bare (c ∷ src) h =
    let plain = unspecial c (and-first (contains dont_need_shell_escape_chars c) _ h) in
    if-false _ _ (absent special_chars c b'\'' plain refl)
    ∙ if-false _ _ (absent special_chars c b'"' plain refl)
    ∙ if-false _ _ plain
    ∙ ap (before c) (shell_text-bare src (and-second (contains dont_need_shell_escape_chars c) _ h))

-- The shell reads what ShellEscape writes as one word, which is the text.
pub shell_word-shell_escape : (src : List ℕ) → shell_word (shell_escape src) ≡ some src
unfolding shell_word shell_text shell_escape
shell_word-shell_escape [] = refl
shell_word-shell_escape (c ∷ src) =
    elim (Bool-cases (all_of dont_need_shell_escape_chars (c ∷ src))) [
      | inl e ↦ ap shell_word (if-true _ _ e) ∙ shell_text-bare (c ∷ src) e
      | inr e ↦ elim (Bool-cases (not (contains (c ∷ src) b'\''))) [
        | inl q ↦
            ap shell_word (if-false _ _ e ∙ if-true _ _ q)
            ∙ shell_text-single (c ∷ src) (not-true (contains (c ∷ src) b'\'') q)
        | inr q ↦
            ap shell_word (if-false _ _ e ∙ if-false _ _ q) ∙ shell_text-double_quoted (c ∷ src)
      ]
    ]
