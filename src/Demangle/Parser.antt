-- ===== src/Demangle/Parser.antt =====
-- demangle.cc: the forms in which the parsing functions are composed.
-- A parser returns what the C++ function returns, and the machine that it leaves. `none` means that
-- the model's fuel ran out; the theorems show that it never does.
use ng_log.Prelude.{
  ℕ, zero, suc, ◌+◌, ◌-◌, Bool, true, false, Option, none, some, ltb, ◌==◌, if◌then◌else◌, length,
}
use ng_log.Demangle.Machine.{State, Machine, max_parse_depth, max_level, with_state}

abbrev pub Outcome : Type 0
Outcome = Option (Bool × Machine)

abbrev pub Parser : Type 0
Parser = Machine → Outcome

-- `if (p) { hit } else { miss }`, on the machine that `p` leaves
abbrev pub after : Outcome → Parser → Parser → Outcome
after none hit miss = none
after (some (true, m)) hit miss = hit m
after (some (false, m)) hit miss = miss m

unfoldable pub succeed : Parser
succeed m = some (true, m)

unfoldable pub fail : Parser
fail m = some (false, m)

-- A function on the state that cannot fail.
unfoldable pub act : (Machine → Machine) → Parser
act f m = some (true, f m)

infixr 35 ◌&◌
infixr 30 ◌or◌
-- `p && q` and `p || q`
unfoldable pub ◌&◌ : Parser → Parser → Parser
unfolding fail
◌&◌ p q m = after (p m) q fail

unfoldable pub ◌or◌ : Parser → Parser → Parser
unfolding succeed
◌or◌ p q m = after (p m) succeed q

-- `Optional(p)`
unfoldable pub optional : Parser → Parser
unfolding succeed
optional p m = after (p m) succeed succeed

-- `State copy = *state; … *state = copy;`: what `p` did to the state is undone if it fails.
unfoldable pub retry : Parser → Parser
unfolding succeed
retry p m = after (p m) succeed (λ m'. some (false, with_state m' m.state))

-- A parser that uses values of the state at which it begins.
unfoldable pub reading : (Machine → Parser) → Parser
reading f m = f m m

-- `if (test) p else q`, on the state
unfoldable pub branch : (Machine → Bool) → Parser → Parser → Parser
branch test p q m = if test m then p m else q m

-- `if (p(state)) { hit } else { miss }`
unfoldable pub if_parsed : Parser → Parser → Parser → Parser
if_parsed p hit miss m = after (p m) hit miss

-- `p && (q || (*state = copy, r))`, with `copy` the state in front of `p`
unfoldable pub again : Parser → Parser → Parser → Parser
unfolding succeed fail
again p q r m = after (p m) (λ m'. after (q m') succeed (λ m''. r (with_state m'' m.state))) fail

-- `while (p(state)) {}`, and true
unfoldable pub repeat : ℕ → Parser → Parser
unfolding succeed
repeat zero p m = none
repeat (suc fuel) p m = after (p m) (repeat fuel p) succeed

-- Each round shortens the text, so its length bounds the rounds.
unfoldable pub zero_or_more : Parser → Parser
unfolding repeat
zero_or_more p m = repeat (suc (length m.mangled_cur)) p m

unfoldable pub one_or_more : Parser → Parser
unfolding zero_or_more ◌&◌
one_or_more p = p & zero_or_more p

-- `while (!stop(state)) { if (!p(state)) return false; }`, and true
unfoldable pub until : ℕ → (Machine → Bool) → Parser → Parser
unfolding succeed fail
until zero stop p m = none
until (suc fuel) stop p m = if stop m then some (true, m) else after (p m) (until fuel stop p) fail

unfoldable pub parse_until : (Machine → Bool) → Parser → Parser
unfolding until
parse_until stop p m = until (suc (length m.mangled_cur)) stop p m

-- The five levels that `ParseLevelGuard` counts beside the depth.
pub data Level : Type 0 where
  encodings types arguments expressions locals : Level

unfoldable pub level : Level → State → ℕ
level encodings s = s.encoding_level
level types s = s.type_level
level arguments s = s.arg_level
level expressions s = s.expr_level
level locals s = s.local_level

unfoldable pub set_level : Level → ℕ → State → State
set_level encodings n s = record s { encoding_level = n }
set_level types n s = record s { type_level = n }
set_level arguments n s = record s { arg_level = n }
set_level expressions n s = record s { expr_level = n }
set_level locals n s = record s { local_level = n }

-- `uint32_t` decrement
unfoldable pub decrement : ℕ → ℕ
decrement n = if n == 0 then 4294967295 else n - 1

unfoldable pub leave_level : Level → Machine → Machine
unfolding decrement level set_level
leave_level l m = with_state m (set_level l (decrement (level l m.state)) m.state)

unfoldable pub enter_level : Level → Machine → Machine
unfolding level set_level
enter_level l m = with_state m (set_level l (level l m.state + 1) m.state)

-- `ParseLevelGuard level(state); if (!level) return false;` and the function's body, after which
-- the guard's destructor runs.
unfoldable pub with_level : Level → Parser → Parser
unfolding leave_level enter_level level
with_level l p m =
    if ltb (level l m.state) max_level
    then after (p (enter_level l m)) (λ m'. some (true, leave_level l m'))
        (λ m'. some (false, leave_level l m'))
    else some (false, m)

unfoldable pub enter_depth : Machine → Machine
enter_depth m = with_state m (record m.state { parse_depth = m.parse_depth + 1 })

unfoldable pub leave_depth : Machine → Machine
unfolding decrement
leave_depth m = with_state m (record m.state { parse_depth = decrement m.parse_depth })

unfoldable pub use_step : Machine → Machine
use_step m = record m { steps_remaining = m.steps_remaining - 1 }

-- `ParseDepthGuard`: the depth's guard, and a step of the budget.
unfoldable pub with_depth : Parser → Parser
unfolding enter_depth leave_depth use_step
with_depth p m =
    if ltb m.parse_depth max_parse_depth
    then if ltb 0 m.steps_remaining
      then after (p (use_step (enter_depth m))) (λ m'. some (true, leave_depth m'))
          (λ m'. some (false, leave_depth m'))
      else some (false, leave_depth (enter_depth m))
    else some (false, m)
