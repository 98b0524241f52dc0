-- ===== src/Vlog/Modules.antt =====
-- vlog_is_on.cc: the list of module patterns, and its flag's text.
use ng_log.Prelude.{
  same_text, ℕ, zero, suc, ◌+◌, ◌-◌, ◌*◌, ◌%◌, ◌^◌, Bool, true, false, ◌&&◌, ◌||◌, List, [], ◌∷◌,
  Option, none, some, ltb, leb, ◌==◌, if◌then◌else◌, length, take, drop, codes,
}
use mathlib.Core.Option
use ng_log.Demangle.Machine.{ℤ, pos, negsuc, is_digit}
use ng_log.Demangle.Numerals.{negate}

-- `VModuleInfo`. Other code keeps the address of its `vlog_level`, which is `address`.
pub record Info : Type 0 where
  pub module_pattern : List ℕ
  pub vlog_level : ℤ
  pub address : ℕ

-- The text in front of the first `c`, and the text behind it.
unfoldable pub split_at : ℕ → List ℕ → Option (List ℕ × List ℕ)
split_at c [] = none
split_at c (x ∷ xs) =
    if x == c
    then some ([], xs)
    else elim (split_at c xs) [ none ↦ none | some found ↦ some (x ∷ found.0, found.1) ]

-- `isspace`
unfoldable pub is_space : ℕ → Bool
is_space c = c == 32 || (leb 9 c && leb c 13)

abbrev pub read_so_far : Option ℕ → ℕ
read_so_far none = 0
read_so_far (some n) = n

-- The value of the digits in front, behind a `number` that was read, if there is one.
unfoldable pub scan_digits : Option ℕ → List ℕ → Option ℕ
unfolding is_digit
scan_digits number [] = number
scan_digits number (c ∷ cs) =
    let rest = scan_digits (some (read_so_far number * 10 + (c - b'0'))) cs in
    if is_digit c then rest else number

abbrev pub as_sign : Bool → Option ℕ → Option ℤ
as_sign negative none = none
as_sign true (some n) = some (negate n)
as_sign false (some n) = some (pos n)

unfoldable pub skip_spaces : List ℕ → List ℕ
unfolding is_space
skip_spaces [] = []
skip_spaces (c ∷ cs) = let rest = skip_spaces cs in if is_space c then rest else c ∷ cs

unfoldable pub scan_signed : List ℕ → Option ℤ
unfolding scan_digits negate
scan_signed [] = none
scan_signed (c ∷ cs) =
    if c == b'-'
    then as_sign true (scan_digits none cs)
    else if c == b'+'
    then as_sign false (scan_digits none cs)
    else as_sign false (scan_digits none (c ∷ cs))

-- An `int`, in two's complement
unfoldable pub as_int : ℤ → ℤ
unfolding negate
as_int (pos n) = let r = n % 2 ^ 32 in if ltb r (2 ^ 31) then pos r else negate (2 ^ 32 - r)
as_int (negsuc n) = let r = n % 2 ^ 32 in if ltb r (2 ^ 31) then negsuc r else pos (2 ^ 32 - 1 - r)

-- `sscanf(sep, "=%d", &module_level)`, behind the '='. A value that an `int` does not hold is
-- undefined in C; here it wraps.
unfoldable pub scan_level : List ℕ → Option ℤ
unfolding skip_spaces scan_signed as_int
scan_level text = Option.map as_int (scan_signed (skip_spaces text))

abbrev pub add_entry : List ℕ → Option ℤ → List (List ℕ × ℤ) → List (List ℕ × ℤ)
add_entry pattern none rest = rest
add_entry pattern (some level) rest = (pattern, level) ∷ rest

-- The rounds behind this one, if a ',' leads to them.
abbrev pub behind_comma :
    (List ℕ → List (List ℕ × ℤ)) → Option (List ℕ × List ℕ) → List (List ℕ × ℤ)
behind_comma rest none = []
behind_comma rest (some found) = rest found.1

-- A round, with the pattern and the text behind the '=', and `rest` for the ones that follow.
unfoldable pub entry_at :
    (List ℕ → List (List ℕ × ℤ)) → Option (List ℕ × List ℕ) → List (List ℕ × ℤ)
unfolding split_at scan_level
entry_at rest none = []
entry_at rest (some found) =
    add_entry found.0 (scan_level found.1) (behind_comma rest (split_at b',' found.1))

-- The loop of `VLOG2Initializer` on the flag's text: the entries, in order.
unfoldable pub entries_from : ℕ → List ℕ → List (List ℕ × ℤ)
unfolding split_at entry_at
entries_from zero vmodule = []
entries_from (suc fuel) vmodule = entry_at (λ t. entries_from fuel t) (split_at b'=' vmodule)

-- Each round shortens the text.
unfoldable pub vmodule_entries : List ℕ → List (List ℕ × ℤ)
vmodule_entries vmodule = entries_from (suc (length vmodule)) vmodule

-- `new VModuleInfo` for each entry, in front of `list`; the addresses count up from `next`.
unfoldable pub new_infos : ℕ → List (List ℕ × ℤ) → List Info → List Info
new_infos next [] list = list
new_infos next ((pattern, level) ∷ entries) list =
    record { module_pattern = pattern; vlog_level = level; address = next }
    ∷ new_infos (suc next) entries list

-- `level->load()`, through an address.
unfoldable pub level_at : ℕ → List Info → ℤ
level_at address [] = pos 0
level_at address (info ∷ list) =
    let rest = level_at address list in if info.address == address then info.vlog_level else rest

-- `base`: the file's name up to the first '.', less a trailing "-inl".
unfoldable pub behind_slash : List ℕ → Option (List ℕ)
behind_slash [] = none
behind_slash (c ∷ cs) = elim (behind_slash cs) [
  | none ↦ (if c == b'/' then some cs else none)
  | some base ↦ some base
]

unfoldable pub before_dot : List ℕ → List ℕ
before_dot [] = []
before_dot (c ∷ cs) = let rest = before_dot cs in if c == b'.' then [] else c ∷ rest

unfoldable pub without_inl : List ℕ → List ℕ
unfolding same_text
without_inl base =
    if leb 4 (length base) && same_text (drop (length base - 4) base) (codes "-inl")
    then take (length base - 4) base
    else base

unfoldable pub module_name : List ℕ → List ℕ
unfolding behind_slash before_dot without_inl
module_name fname =
    without_inl (before_dot (elim (behind_slash fname) [ none ↦ fname | some base ↦ base ]))
