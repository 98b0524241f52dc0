-- ===== src/Demangle/Output.antt =====
-- demangle.cc: the functions that write the output and keep its bookkeeping.
use ng_log.Prelude.{
  ℕ, zero, suc, ◌+◌, ◌-◌, Bool, true, false, not, ◌&&◌, ◌||◌, List, some, codes, leb, ltb, ◌==◌,
  if◌then◌else◌, length, get_or, set,
}
use ng_log.Demangle.Machine.{ℤ, pos, negsuc, Machine, is_alpha, str_prefix, with_state}

-- The characters that `Append` copies: of a text, or of the output buffer as it stands when the
-- character is read.
pub data Source : Type 0 where
  text : List ℕ → Source
  output : ℕ → Source

unfoldable pub read : Source → List ℕ → ℕ → ℕ
read (text str) buffer i = get_or str i 0
read (output start) buffer i = get_or buffer (start + i) 0

unfoldable pub overflow : Machine → Machine
overflow m = with_state m (record m.state { overflowed = true })

-- `*state->out_cur = c; ++state->out_cur;`
unfoldable pub put : Machine → ℕ → Machine
put m c = record {
  state = record m.state { out_cur = m.out_cur + 1 };
  buffer = set m.buffer m.out_cur c;
  steps_remaining = m.steps_remaining;
}

-- `*state->out_cur = '\0'`
unfoldable pub terminate : Machine → Machine
terminate m = record m { buffer = set m.buffer m.out_cur 0 }

-- The loop of `Append`, with `count` characters left from the `i`th on.
unfoldable pub append_from : Source → ℕ → ℕ → Machine → Machine
unfolding overflow put read
append_from str i zero m = m
append_from str i (suc count) m =
    let rest = append_from str (i + 1) count (put m (read str m.buffer i)) in
    if ltb 1 (length m.buffer - m.out_cur) then rest else overflow m

unfoldable pub append_text : Source → ℕ → Machine → Machine
unfolding terminate
append_text str size m =
    let written = append_from str 0 size m in
    if written.overflowed then written else terminate written

-- `Append(state, " ", 1)` before a second '<'
unfoldable pub separate_angles : Source → Machine → Machine
unfolding read
separate_angles str m =
    if read str m.buffer 0 == b'<' && (ltb 0 m.out_cur && get_or m.buffer (m.out_cur - 1) 0 == b'<')
    then append_text (text (codes " ")) 1 m
    else m

unfoldable pub remember_name : ℕ → ℕ → Machine → Machine
remember_name start size m =
    with_state m (record m.state { prev_name = some (record { start = start; size = size }) })

-- What follows the separation in `MaybeAppendWithLength`.
unfoldable pub append_name : Source → ℕ → Machine → Machine
unfolding remember_name read
append_name str size m =
    let written = append_text str size m in
    if not written.overflowed
      && (is_alpha (read str written.buffer 0) || read str written.buffer 0 == b'_')
    then remember_name m.out_cur size written
    else written

unfoldable pub maybe_append_with_length : Source → ℕ → Machine → Machine
maybe_append_with_length str size m =
    if m.append && ltb 0 size then append_name str size (separate_angles str m) else m

unfoldable pub maybe_append : List ℕ → Machine → Machine
maybe_append str m = if m.append then maybe_append_with_length (text str) (length str) m else m

unfoldable pub enter_nested_name : Machine → Machine
enter_nested_name m = with_state m (record m.state { nest_level = pos 0 })

unfoldable pub leave_nested_name : ℤ → Machine → Machine
leave_nested_name prev_value m = with_state m (record m.state { nest_level = prev_value })

unfoldable pub disable_append : Machine → Machine
disable_append m = with_state m (record m.state { append = false })

unfoldable pub restore_append : Bool → Machine → Machine
restore_append prev_value m = with_state m (record m.state { append = prev_value })

-- `++` on a `short`, which wraps at its largest value.
unfoldable pub increase : ℤ → ℤ
increase (pos n) = if n == 32767 then negsuc 32767 else pos (n + 1)
increase (negsuc n) = negsuc n

unfoldable pub maybe_increase_nest_level : Machine → Machine
unfolding increase
maybe_increase_nest_level m = with_state m (record m.state { nest_level = increase m.nest_level })

-- `nest_level >= 1`
unfoldable pub is_nested : ℤ → Bool
is_nested (pos n) = leb 1 n
is_nested (negsuc n) = false

unfoldable pub maybe_append_separator : Machine → Machine
unfolding is_nested
maybe_append_separator m =
    if m.skip_separator
    then with_state m (record m.state { skip_separator = false })
    else if is_nested m.nest_level
    then maybe_append (codes "::") m
    else m

unfoldable pub maybe_cancel_last_separator : Machine → Machine
unfolding is_nested terminate
maybe_cancel_last_separator m =
    if is_nested m.nest_level && (m.append && leb 2 m.out_cur)
    then terminate (with_state m (record m.state { out_cur = m.out_cur - 2 }))
    else m

unfoldable pub identifier_is_anonymous_namespace : List ℕ → ℕ → Bool
unfolding str_prefix
identifier_is_anonymous_namespace mangled_cur size =
    ltb (length (codes "_GLOBAL__N_")) size && str_prefix mangled_cur (codes "_GLOBAL__N_")
