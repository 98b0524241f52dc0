-- ===== src/Demangle/Moves.antt =====
-- What every parsing function keeps.
use mathlib.Core.Option.{Option, none, some}
use ng_log.Prelude.{ℕ, ◌+◌, ◌≤◌, ◌<◌, ◌≡◌, refl, Bool, true, false, arith, length}
use ng_log.Demangle.Machine.{Name, Machine, max_parse_depth, with_state}
use ng_log.Demangle.Parser.{Outcome, Parser, after}

-- The bytes that `prev_name` points at lie in the output buffer.
abbrev pub Fits : Option Name → ℕ → Type 0
Fits none size = Unit {0}
Fits (some n) size = n.start + n.size ≤ size

-- Output is written inside the buffer, with room for a null character, and names are read from it.
pub record Sound (m : Machine) : Type 0 where
  pub within : m.out_cur < length m.buffer
  pub named : Fits m.prev_name (length m.buffer)
  pub depth_bound : m.parse_depth ≤ max_parse_depth

-- From `m` to `m'` the cursor went on, the budget was at most used up, the buffer is the same
-- memory, and every level is as it was.
pub record Moved (m m' : Machine) : Type 0 where
  pub sound : Sound m'
  pub shorter : length m'.mangled_cur ≤ length m.mangled_cur
  pub size : length m'.buffer ≡ length m.buffer
  pub budget : m'.steps_remaining ≤ m.steps_remaining
  pub depth : m'.parse_depth ≡ m.parse_depth
  pub encodings : m'.encoding_level ≡ m.encoding_level
  pub types : m'.type_level ≡ m.type_level
  pub arguments : m'.arg_level ≡ m.arg_level
  pub expressions : m'.expr_level ≡ m.expr_level
  pub locals : m'.local_level ≡ m.local_level

pub Moved-refl : (m : Machine) → Sound m → Moved m m
Moved-refl m s = ground arith

pub Moved-trans : (a b c : Machine) → Moved a b → Moved b c → Moved a c
Moved-trans a b c h k = record {
  sound = k.sound;
  shorter = omega arith;
  size = omega arith;
  budget = omega arith;
  depth = omega arith;
  encodings = omega arith;
  types = omega arith;
  arguments = omega arith;
  expressions = omega arith;
  locals = omega arith;
}

-- Backtracking from `m'` to the state of `m`.
pub Moved-back : (m m' : Machine) → Sound m → Moved m m' → Moved m (with_state m' m.state)
Moved-back m m' s h = record {
  sound = record {
    within = omega (arith, h.size, s.within);
    named = back_named m.prev_name s.named;
    depth_bound = s.depth_bound;
  };
  shorter = omega arith;
  size = h.size;
  budget = h.budget;
  depth = refl;
  encodings = refl;
  types = refl;
  arguments = refl;
  expressions = refl;
  locals = refl;
}
  where
    back_named : (o : Option Name) → Fits o (length m.buffer) → Fits o (length m'.buffer)
    back_named none f = tt
    back_named (some n) f = omega (arith, h.size)

-- What an outcome must have used up of the text: a success of a parser that eats, one character.
abbrev pub cost : Bool → Bool → ℕ
cost false eats = 0
cost true true = 1
cost true false = 0

abbrev pub Ends : Bool → Machine → Outcome → Type 0
Ends eats m none = ⊥
Ends eats m (some (b, m')) =
    Moved m m' × (length m'.mangled_cur + cost b eats ≤ length m.mangled_cur)

-- From every sound machine whose depth the fuel `n` covers, `p` returns, and keeps what `Moved`
-- says; if `eats`, its success shortens the text.
pub record Good (n : ℕ) (eats : Bool) (p : Parser) : Type 0 where
  pub at : (m : Machine) → Sound m → max_parse_depth < m.parse_depth + n → Ends eats m (p m)

pub record Moves (f : Machine → Machine) : Type 0 where
  pub at : (m : Machine) → Sound m → Moved m (f m)

-- The fuel still covers the depth after a move.
pub covers :
    (n : ℕ) (m m' : Machine)
    → Moved m m'
    → max_parse_depth < m.parse_depth + n
    → max_parse_depth < m'.parse_depth + n
covers n m m' h r = omega (arith, h.depth)

-- What holds of an outcome seen from `m'` holds of it seen from `m`, from where `m'` was reached
-- with `k` characters used up.
pub Ends-trans :
    (e c : Bool) (k : ℕ) (m m' : Machine) (r : Outcome)
    → Moved m m'
    → length m'.mangled_cur + k ≤ length m.mangled_cur
    → cost true c ≤ k + cost true e
    → Ends e m' r
    → Ends c m r
Ends-trans e c k m m' none h l w x = x
Ends-trans e c k m m' (some (true, m'')) h l w x = (Moved-trans m m' m'' h x.0, omega arith)
Ends-trans e c k m m' (some (false, m'')) h l w x = (Moved-trans m m' m'' h x.0, omega arith)

-- The two ways on after a parser's outcome.
pub Ends-after :
    (a c : Bool) (m : Machine) (r : Outcome) (hit miss : Parser)
    → Ends a m r
    → ((m' : Machine)
        → Moved m m'
        → length m'.mangled_cur + cost true a ≤ length m.mangled_cur
        → Ends c m (hit m'))
    → ((m' : Machine) → Moved m m' → Ends c m (miss m'))
    → Ends c m (after r hit miss)
Ends-after a c m none hit miss x on_hit on_miss = x
Ends-after a c m (some (true, m')) hit miss x on_hit on_miss = on_hit m' x.0 x.1
Ends-after a c m (some (false, m')) hit miss x on_hit on_miss = on_miss m' x.0
