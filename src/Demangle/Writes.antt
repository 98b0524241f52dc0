-- ===== src/Demangle/Writes.antt =====
-- The functions that write the output stay inside the buffer, and leave the rest of the state.
use mathlib.Core.Option.{Option, none, some}
use ng_log.Prelude.{
  ℕ, zero, suc, ◌+◌, ◌-◌, ◌≤◌, ◌<◌, ◌≡◌, refl, inl, inr, Bool, true, false, not, ◌&&◌, List, arith,
  codes, ltb, if◌then◌else◌, length, set, length-set, Bool-cases,
}
use ng_log.Demangle.Machine.{ℤ, Name, Machine, with_state}
use ng_log.Demangle.Output.{
  Source, text, read, overflow, put, terminate, append_from, append_text, separate_angles,
  remember_name, append_name, maybe_append_with_length, maybe_append, enter_nested_name,
  leave_nested_name, disable_append, restore_append, maybe_increase_nest_level,
  maybe_append_separator, maybe_cancel_last_separator,
}
use ng_log.Demangle.Moves.{Fits, Sound, Moved, Moved-refl, Moved-trans, Moves}

overflow-Moved : (m : Machine) → Sound m → Moved m (overflow m)
unfolding overflow
overflow-Moved m s = ground arith

-- A name that lies in a buffer lies in one of the same size.
Fits-size : (o : Option Name) (a b : ℕ) → a ≡ b → Fits o a → Fits o b
Fits-size none a b e f = f
Fits-size (some n) a b e f = omega arith

put-Moved : (m : Machine) (c : ℕ) → Sound m → m.out_cur + 1 < length m.buffer → Moved m (put m c)
unfolding put
put-Moved m c s h = ground (
  arith,
  length-set m.buffer m.out_cur c,
  Fits-size m.prev_name (length m.buffer) (length (set m.buffer m.out_cur c)),
)

terminate-Moved : (m : Machine) → Sound m → Moved m (terminate m)
unfolding terminate
terminate-Moved m s = ground (
  arith,
  length-set m.buffer m.out_cur 0,
  Fits-size m.prev_name (length m.buffer) (length (set m.buffer m.out_cur 0)),
)

room : (a b : ℕ) → ltb 1 (a - b) ≡ true → b + 1 < a
room a b h = ground arith

append_from-Moved :
    (str : Source) (i count : ℕ) (m : Machine) → Sound m → Moved m (append_from str i count m)
unfolding append_from
append_from-Moved str i zero m s = Moved-refl m s
append_from-Moved str i (suc count) m s = elim (Bool-cases (ltb 1 (length m.buffer - m.out_cur))) [
  | inl free ↦
      let written = put-Moved m (read str m.buffer i) s (room _ _ free) in
      rw free (
        Moved-trans _ _ _ written
          (append_from-Moved str (i + 1) count (put m (read str m.buffer i)) written.sound))
  | inr full ↦ rw full (overflow-Moved m s)
]

pub if-Moved : (b : Bool) (m x y : Machine) → Moved m x → Moved m y → Moved m (if b then x else y)
if-Moved true m x y h k = h
if-Moved false m x y h k = k

append_text-Moved :
    (str : Source) (size : ℕ) (m : Machine) → Sound m → Moved m (append_text str size m)
unfolding append_text
append_text-Moved str size m s =
    let h = append_from-Moved str 0 size m s in
    if-Moved _ m _ _ h (Moved-trans _ _ _ h (terminate-Moved _ h.sound))

separate_angles-Moved : (str : Source) (m : Machine) → Sound m → Moved m (separate_angles str m)
unfolding separate_angles
separate_angles-Moved str m s =
    if-Moved _ m _ _ (append_text-Moved (text (codes " ")) 1 m s) (Moved-refl m s)

-- Without an overflow every character was written.
append_from-out_cur :
    (str : Source) (i count : ℕ) (m : Machine)
    → (append_from str i count m).overflowed ≡ false
    → (append_from str i count m).out_cur ≡ m.out_cur + count
unfolding append_from
append_from-out_cur str i zero m = λ h. omega arith
append_from-out_cur str i (suc count) m = elim (Bool-cases (ltb 1 (length m.buffer - m.out_cur))) [
  | inl free ↦ rw free (λ h. omega (
    arith,
    append_from-out_cur str (i + 1) count (put m (read str m.buffer i)) h,
    put-out_cur m (read str m.buffer i),
  ))
  | inr full ↦ rw full (λ h. absurd (overflow-fails m h))
]
  where
    put-out_cur : (m : Machine) (c : ℕ) → (put m c).out_cur ≡ m.out_cur + 1
    put-out_cur m c = unfold put in refl

    overflow-fails : (m : Machine) → (overflow m).overflowed ≡ false → ⊥
    overflow-fails m h = unfold overflow in cc

append_text-out_cur :
    (str : Source) (size : ℕ) (m : Machine)
    → (append_text str size m).overflowed ≡ false
    → (append_text str size m).out_cur ≡ m.out_cur + size
unfolding append_text terminate
append_text-out_cur str size m h = ground (arith, append_from-out_cur str 0 size m)

remember_name-Moved :
    (start size : ℕ) (m m' : Machine)
    → start + size ≤ length m'.buffer
    → Moved m m'
    → Moved m (remember_name start size m')
unfolding remember_name
remember_name-Moved start size m m' f h = ground arith

-- As `if-Moved`, where the first branch may use its test.
when-Moved :
    (b : Bool) (m x y : Machine) → (b ≡ true → Moved m x) → Moved m y → Moved m (if b then x else y)
when-Moved true m x y h k = h refl
when-Moved false m x y h k = k

of_not_and : (a b : Bool) → (not a && b) ≡ true → a ≡ false
of_not_and a b h = ground arith

append_name-Moved :
    (str : Source) (size : ℕ) (m : Machine) → Sound m → Moved m (append_name str size m)
unfolding append_name
append_name-Moved str size m s =
    let h = append_text-Moved str size m s in
    when-Moved _ m _ _
      (λ test.
        remember_name-Moved m.out_cur size m _
          (fits h (append_text-out_cur str size m (of_not_and _ _ test))) h)
      h
  where
    fits :
        {m' : Machine}
        → Moved m m'
        → m'.out_cur ≡ m.out_cur + size
        → m.out_cur + size ≤ length m'.buffer
    fits h e = omega (arith, h.sound.within)

pub maybe_append_with_length-Moves :
    (str : Source) (size : ℕ) → Moves (maybe_append_with_length str size)
unfolding maybe_append_with_length
maybe_append_with_length-Moves str size = record {
  at = λ m s.
      let h = separate_angles-Moved str m s in
      if-Moved _ m _ _ (Moved-trans _ _ _ h (append_name-Moved str size _ h.sound))
        (Moved-refl m s);
}

pub maybe_append-Moves : (str : List ℕ) → Moves (maybe_append str)
unfolding maybe_append
maybe_append-Moves str = record {
  at = λ m s.
      if-Moved _ m _ _ ((maybe_append_with_length-Moves (text str) (length str)).at m s)
        (Moved-refl m s);
}

pub enter_nested_name-Moves : Moves enter_nested_name
unfolding enter_nested_name
enter_nested_name-Moves = record { at = λ m s. ground arith }

pub leave_nested_name-Moves : (prev_value : ℤ) → Moves (leave_nested_name prev_value)
unfolding leave_nested_name
leave_nested_name-Moves prev_value = record { at = λ m s. ground arith }

pub disable_append-Moves : Moves disable_append
unfolding disable_append
disable_append-Moves = record { at = λ m s. ground arith }

pub restore_append-Moves : (prev_value : Bool) → Moves (restore_append prev_value)
unfolding restore_append
restore_append-Moves prev_value = record { at = λ m s. ground arith }

pub maybe_increase_nest_level-Moves : Moves maybe_increase_nest_level
unfolding maybe_increase_nest_level
maybe_increase_nest_level-Moves = record { at = λ m s. ground arith }

set_skip-Moved :
    (m : Machine) → Sound m → Moved m (with_state m (record m.state { skip_separator = false }))
set_skip-Moved m s = ground arith

pub maybe_append_separator-Moves : Moves maybe_append_separator
unfolding maybe_append_separator
maybe_append_separator-Moves = record {
  at = λ m s.
      if-Moved _ m _ _ (set_skip-Moved m s)
        (if-Moved _ m _ _ ((maybe_append-Moves (codes "::")).at m s) (Moved-refl m s));
}

back_two-Moved :
    (m : Machine) → Sound m → Moved m (with_state m (record m.state { out_cur = m.out_cur - 2 }))
back_two-Moved m s = ground arith

pub maybe_cancel_last_separator-Moves : Moves maybe_cancel_last_separator
unfolding maybe_cancel_last_separator
maybe_cancel_last_separator-Moves = record {
  at = λ m s.
      let h = back_two-Moved m s in
      if-Moved _ m _ _ (Moved-trans _ _ _ h (terminate-Moved _ h.sound)) (Moved-refl m s);
}
