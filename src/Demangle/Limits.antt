-- ===== src/Demangle/Limits.antt =====
-- demangle.cc: the limits on the depth and on the number of steps.
use ng_log.Prelude.{ℕ, suc, ◌≤◌, ◌≡◌, refl, ◌⊎◌, false, some, arith, ltb, ap, inl, inr, Bool-cases}
use ng_log.Demangle.Machine.{Machine, max_parse_depth, with_state}
use ng_log.Demangle.Parser.{with_depth, enter_depth, leave_depth, decrement}
use ng_log.Demangle.Names.{NonTerminal}
use ng_log.Demangle.Grammar.{parse}

left-entered : (m : Machine) → leave_depth (enter_depth m) ≡ m
unfolding leave_depth enter_depth decrement
left-entered m =
    ap {A = ℕ} {B = Machine} (λ n. with_state m (record m.state { parse_depth = n })) (ground arith)

-- At a depth of 64, and with no step left, every non-terminal fails at once and changes nothing,
-- neither the state nor the output nor the step budget.
pub parse-limits :
    (n : ℕ) (non_terminal : NonTerminal) (m : Machine)
    → (max_parse_depth ≤ m.parse_depth) ⊎ (m.steps_remaining ≡ 0)
    → parse (suc n) non_terminal m ≡ some (false, m)
unfolding parse with_depth
parse-limits n non_terminal m h = elim (Bool-cases (ltb m.parse_depth max_parse_depth)) [
  | inr full ↦ rw full refl
  | inl free ↦ elim (Bool-cases (ltb 0 m.steps_remaining)) [
    | inr spent ↦ rw free (rw spent (ap (λ (x : Machine). some (false, x)) (left-entered m)))
    | inl left ↦ absurd (ground arith)
  ]
]
