-- ===== src/Mail/Quoting.antt =====
-- logging.cc: `ShellEscape` and `QuoteWindowsArgument`. A text is the list of its characters, with no
-- null character.
use ng_log.Prelude.{
  ℕ, zero, suc, ◌*◌, Bool, true, false, not, ◌&&◌, ◌||◌, List, [], ◌∷◌, ◌++◌, ◌==◌, if◌then◌else◌,
  codes, contains,
}

abbrev pub dont_need_shell_escape_chars : List ℕ
dont_need_shell_escape_chars =
    codes "ABCDEFGHIJKLMNOPQRSTUVWXYZabcdefghijklmnopqrstuvwxyz0123456789+-_.=/:,@"

-- `find_first_not_of` finds nothing
unfoldable pub all_of : List ℕ → List ℕ → Bool
unfolding contains
all_of chars [] = true
all_of chars (c ∷ src) = contains chars c && all_of chars src

abbrev pub is_empty : List ℕ → Bool
is_empty [] = true
is_empty (c ∷ src) = false

abbrev pub needs_backslash : ℕ → Bool
needs_backslash c = c == b'\\' || c == b'$' || c == b'"' || c == b'`'

-- The loop between the double quotes
unfoldable pub double_quoted : List ℕ → List ℕ
double_quoted [] = b'"' ∷ []
double_quoted (c ∷ src) =
    let rest = c ∷ double_quoted src in if needs_backslash c then b'\\' ∷ rest else rest

unfoldable pub shell_escape : List ℕ → List ℕ
unfolding all_of contains double_quoted
shell_escape src =
    if not (is_empty src) && all_of dont_need_shell_escape_chars src
    then src
    else if not (contains src b'\'')
    then b'\'' ∷ (src ++ (b'\'' ∷ []))
    else b'"' ∷ double_quoted src

abbrev pub backslashes : ℕ → List ℕ → List ℕ
backslashes zero text = text
backslashes (suc n) text = b'\\' ∷ backslashes n text

-- The loop, with the number of backslashes that are not written yet.
unfoldable pub quoted_from : ℕ → List ℕ → List ℕ
quoted_from n [] = backslashes (n * 2) (b'"' ∷ [])
quoted_from n (c ∷ src) =
    let more = quoted_from (suc n) src in
    let rest = c ∷ quoted_from 0 src in
    if c == b'\\' then more else backslashes n (if c == b'"' then b'\\' ∷ rest else rest)

unfoldable pub quote_windows_argument : List ℕ → List ℕ
unfolding quoted_from
quote_windows_argument src = b'"' ∷ quoted_from 0 src
