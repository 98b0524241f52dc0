-- ===== src/Demangle/Guards.antt =====
-- The guards restore what they count, and the depth's guard is what the fuel rests on.
use mathlib.Core.Option.{Option, none, some}
use ng_log.Prelude.{
  ℕ, suc, ◌+◌, ◌<◌, ◌≡◌, refl, inl, inr, Bool, true, false, arith, ltb, length, Bool-cases, ltb→lt,
  ap,
}
use ng_log.Demangle.Machine.{Machine, max_parse_depth, max_level}
use ng_log.Demangle.Parser.{
  Parser, after, Level, encodings, types, arguments, expressions, locals, level, with_level,
  enter_level, leave_level, with_depth, enter_depth, leave_depth, use_step, decrement,
}
use ng_log.Demangle.Moves.{Sound, Moved, Moved-refl, Ends, Good}

decrement_lem : (k n : ℕ) → n ≡ k + 1 → decrement n ≡ k
unfolding decrement
decrement_lem k n h = ground arith

-- What holds from inside the level's guard holds from outside it, behind the guard's destructor.
leave_level-Moved :
    (l : Level) (m m' : Machine) → Sound m → Moved (enter_level l m) m' → Moved m (leave_level l m')
unfolding leave_level enter_level
leave_level-Moved encodings m m' s h =
    ground (arith, decrement_lem m.encoding_level m'.encoding_level)
leave_level-Moved types m m' s h = ground (arith, decrement_lem m.type_level m'.type_level)
leave_level-Moved arguments m m' s h = ground (arith, decrement_lem m.arg_level m'.arg_level)
leave_level-Moved expressions m m' s h = ground (arith, decrement_lem m.expr_level m'.expr_level)
leave_level-Moved locals m m' s h = ground (arith, decrement_lem m.local_level m'.local_level)

enter_level-Sound : (l : Level) (m : Machine) → Sound m → Sound (enter_level l m)
unfolding enter_level
enter_level-Sound encodings m s = ground arith
enter_level-Sound _ m s = ground arith

enter_level-depth : (l : Level) (m : Machine) → (enter_level l m).parse_depth ≡ m.parse_depth
unfolding enter_level
enter_level-depth encodings m = refl
enter_level-depth _ m = refl

enter_level-text : (l : Level) (m : Machine) → (enter_level l m).mangled_cur ≡ m.mangled_cur
unfolding enter_level
enter_level-text encodings m = refl
enter_level-text _ m = refl

leave_level-text : (l : Level) (m : Machine) → (leave_level l m).mangled_cur ≡ m.mangled_cur
unfolding leave_level
leave_level-text encodings m = refl
leave_level-text _ m = refl

-- At the limit the guarded function fails; below it the level is counted up and down again.
pub with_level-Good :
    {n : ℕ} {c : Bool} (l : Level) {p : Parser} → Good n c p → Good n c (with_level l p)
unfolding with_level
with_level-Good {n} {c} l {p} hp = record {
  at = λ m s r. elim (Bool-cases (ltb (level l m.state) max_level)) [
    | inr full ↦ rw full (Moved-refl m s, omega arith)
    | inl free ↦
        let text = enter_level-text l m in
        let inside = enter_level-Sound l m s in
        let deep = enter_level-depth l m in
        rw free (
          around l m s (p (enter_level l m)) (hp.at (enter_level l m) inside (omega (arith, deep))))
  ];
}
  where
    around :
        (l : Level) (m : Machine)
        → Sound m
        → (r : Option (Bool × Machine)) → Ends c (enter_level l m) r
        → Ends c m
            (after r (λ m'. some (true, leave_level l m')) (λ m'. some (false, leave_level l m')))
    around l m s none x = x
    around l m s (some (true, m')) x = (
      leave_level-Moved l m m' s x.0,
      omega (arith, ap length (leave_level-text l m'), ap length (enter_level-text l m), x.1),
    )
    around l m s (some (false, m')) x = (
      leave_level-Moved l m m' s x.0,
      omega (arith, ap length (leave_level-text l m'), ap length (enter_level-text l m), x.1),
    )

leave_depth-Moved :
    (m m' : Machine) → Sound m → Moved (use_step (enter_depth m)) m' → Moved m (leave_depth m')
unfolding use_step enter_depth leave_depth
leave_depth-Moved m m' s h = ground (arith, decrement_lem m.parse_depth m'.parse_depth)

-- The function runs one level deeper on one unit of fuel less. At the limit of the depth, or with
-- no step left, it fails.
pub with_depth-Good : {n : ℕ} {c : Bool} {p : Parser} → Good n c p → Good (suc n) c (with_depth p)
unfolding with_depth
with_depth-Good {n} {c} {p} hp = record {
  at = λ m s r. elim (Bool-cases (ltb m.parse_depth max_parse_depth)) [
    | inr full ↦ rw full (Moved-refl m s, omega arith)
    | inl free ↦ elim (Bool-cases (ltb 0 m.steps_remaining)) [
      | inr spent ↦ rw free (rw spent (unspent m s (ltb→lt _ _ free), omega arith))
      | inl left ↦ rw free (
          rw left (
            around m s (p (use_step (enter_depth m))) (
              hp.at (use_step (enter_depth m)) (inside m s (ltb→lt _ _ free))
                (deeper m (omega arith)))))
    ]
  ];
}
  where
    unspent :
        (m : Machine)
        → Sound m
        → m.parse_depth < max_parse_depth
        → Moved m (leave_depth (enter_depth m))
    unspent m s h = unfold enter_depth leave_depth decrement in ground arith

    inside :
        (m : Machine) → Sound m → m.parse_depth < max_parse_depth → Sound (use_step (enter_depth m))
    inside m s h = unfold enter_depth use_step in ground arith

    deeper :
        (m : Machine)
        → max_parse_depth < m.parse_depth + suc n
        → max_parse_depth < (use_step (enter_depth m)).parse_depth + n
    deeper m h = unfold enter_depth use_step in omega arith

    around :
        (m : Machine)
        → Sound m
        → (r : Option (Bool × Machine)) → Ends c (use_step (enter_depth m)) r
        → Ends c m
            (after r (λ m'. some (true, leave_depth m')) (λ m'. some (false, leave_depth m')))
    around m s none x = x
    around m s (some (true, m')) x =
        (leave_depth-Moved m m' s x.0, unfold enter_depth leave_depth use_step in x.1)
    around m s (some (false, m')) x =
        (leave_depth-Moved m m' s x.0, unfold enter_depth leave_depth use_step in x.1)
