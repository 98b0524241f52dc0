-- ===== src/Demangle/Backtracking.antt =====
-- A parsing function that fails leaves the parsing state as it found it.
use ng_log.Prelude.{
  ℕ, ◌+◌, ◌≡◌, refl, ◌∙◌, ap, inl, inr, Bool, true, false, List, String, Option, none, some, arith,
  ltb, Bool-cases,
}
use ng_log.Demangle.Machine.{State, Machine, max_parse_depth, max_level, with_state}
use ng_log.Demangle.Parser.{
  Outcome, Parser, after, succeed, fail, act, ◌&◌, ◌or◌, optional, retry, branch, Level, encodings,
  types, arguments, expressions, locals, level, set_level, with_level, enter_level, leave_level,
  with_depth, enter_depth, leave_depth, use_step, decrement,
}
use ng_log.Demangle.Tokens.{advance, parse_one_char_token, parse_two_char_token}
use ng_log.Demangle.Names.{print}

-- A failure with the state of `m`.
abbrev pub Kept : Machine → Outcome → Type 0
Kept m none = Unit {0}
Kept m (some (true, m')) = Unit {0}
Kept m (some (false, m')) = m'.state ≡ m.state

pub record Backtracks (p : Parser) : Type 0 where
  pub at : (m : Machine) → Kept m (p m)

-- It cannot fail.
abbrev pub Success : Outcome → Type 0
Success none = Unit {0}
Success (some (true, m)) = Unit {0}
Success (some (false, m)) = ⊥

pub record Total (p : Parser) : Type 0 where
  pub at : (m : Machine) → Success (p m)

pub Kept-state :
    (m m' : Machine) (r : Outcome) → Kept m r → r ≡ some (false, m') → m'.state ≡ m.state
Kept-state m m' none k e = cc
Kept-state m m' (some (true, m'')) k e = cc
Kept-state m m' (some (false, m'')) k e = cc

pub retry-Backtracks : (p : Parser) → Backtracks (retry p)
unfolding retry succeed
retry-Backtracks p = record { at = λ m. restored m (p m) }
  where
    restored :
        (m : Machine) (r : Outcome)
        → Kept m (after r (λ m'. some (true, m')) (λ m'. some (false, with_state m' m.state)))
    restored m none = tt
    restored m (some (true, m')) = tt
    restored m (some (false, m')) = refl

pub or-Backtracks : {p q : Parser} → Backtracks p → Backtracks q → Backtracks (p or q)
unfolding ◌or◌ succeed
or-Backtracks {p} {q} hp hq = record { at = λ m. either m (p m) (hp.at m) }
  where
    moved_on : (m m' : Machine) (r : Outcome) → m'.state ≡ m.state → Kept m' r → Kept m r
    moved_on m m' none e k = tt
    moved_on m m' (some (true, m'')) e k = tt
    moved_on m m' (some (false, m'')) e k = k ∙ e

    either : (m : Machine) (r : Outcome) → Kept m r → Kept m (after r (λ m'. some (true, m')) q)
    either m none k = tt
    either m (some (true, m')) k = tt
    either m (some (false, m')) k = moved_on m m' (q m') k (hq.at m')

-- Nothing is to be undone in front of a part that cannot fail.
pub &-Backtracks : {p q : Parser} → Backtracks p → Total q → Backtracks (p & q)
unfolding ◌&◌ fail
&-Backtracks {p} {q} hp hq = record { at = λ m. both m (p m) (hp.at m) }
  where
    none_fails : (m : Machine) (r : Outcome) → Success r → Kept m r
    none_fails m none s = tt
    none_fails m (some (true, m')) s = tt
    none_fails m (some (false, m')) s = absurd s

    both : (m : Machine) (r : Outcome) → Kept m r → Kept m (after r q (λ m'. some (false, m')))
    both m none k = tt
    both m (some (true, m')) k = none_fails m (q m') (hq.at m')
    both m (some (false, m')) k = k

pub fail-Backtracks : Backtracks fail
unfolding fail
fail-Backtracks = record { at = λ m. refl }

pub branch-Backtracks :
    (test : Machine → Bool) {p q : Parser}
    → Backtracks p
    → Backtracks q
    → Backtracks (branch test p q)
unfolding branch
branch-Backtracks test {p} {q} hp hq = record {
  at = λ m. elim (Bool-cases (test m)) [ inl e ↦ rw e (hp.at m) | inr e ↦ rw e (hq.at m) ];
}

advance-Kept : (m : Machine) (rest : Option (List ℕ)) → Kept m (advance rest m)
advance-Kept m none = refl
advance-Kept m (some rest) = tt

pub one_char-Backtracks : (token : ℕ) → Backtracks (parse_one_char_token token)
unfolding parse_one_char_token
one_char-Backtracks token = record { at = λ m. advance-Kept m _ }

pub two_char-Backtracks : (a b : ℕ) → Backtracks (parse_two_char_token a b)
unfolding parse_two_char_token
two_char-Backtracks a b = record { at = λ m. advance-Kept m _ }

pub act-Total : (f : Machine → Machine) → Total (act f)
unfolding act
act-Total f = record { at = λ m. tt }

pub print-Total : (str : String) → Total (print str)
unfolding print
print-Total str = act-Total _

pub optional-Total : (p : Parser) → Total (optional p)
unfolding optional succeed
optional-Total p = record { at = λ m. always (p m) }
  where
    always : (r : Outcome) → Success (after r (λ m'. some (true, m')) (λ m'. some (true, m')))
    always none = tt
    always (some (true, m)) = tt
    always (some (false, m)) = tt

pub &-Total : {p q : Parser} → Total p → Total q → Total (p & q)
unfolding ◌&◌ fail
&-Total {p} {q} hp hq = record { at = λ m. both (p m) (hp.at m) }
  where
    both : (r : Outcome) → Success r → Success (after r q (λ m'. some (false, m')))
    both none s = tt
    both (some (true, m)) s = hq.at m
    both (some (false, m)) s = absurd s

pub Total-Backtracks : {p : Parser} → Total p → Backtracks p
Total-Backtracks {p} h = record { at = λ m. cannot m (p m) (h.at m) }
  where
    cannot : (m : Machine) (r : Outcome) → Success r → Kept m r
    cannot m none s = tt
    cannot m (some (true, m')) s = tt
    cannot m (some (false, m')) s = absurd s

decrement_suc : (n : ℕ) → decrement (n + 1) ≡ n
unfolding decrement
decrement_suc n = ground arith

left_as_entered :
    (l : Level) (m m' : Machine)
    → m'.state ≡ (enter_level l m).state
    → (leave_level l m').state ≡ m.state
unfolding leave_level enter_level level set_level
left_as_entered encodings m m' e =
    ap (λ s. set_level encodings (decrement s.encoding_level) s) e
    ∙ ap {A = ℕ} {B = State} (λ n. record m.state { encoding_level = n })
        (decrement_suc m.encoding_level)
left_as_entered types m m' e =
    ap (λ s. set_level types (decrement s.type_level) s) e
    ∙ ap {A = ℕ} {B = State} (λ n. record m.state { type_level = n }) (decrement_suc m.type_level)
left_as_entered arguments m m' e =
    ap (λ s. set_level arguments (decrement s.arg_level) s) e
    ∙ ap {A = ℕ} {B = State} (λ n. record m.state { arg_level = n }) (decrement_suc m.arg_level)
left_as_entered expressions m m' e =
    ap (λ s. set_level expressions (decrement s.expr_level) s) e
    ∙ ap {A = ℕ} {B = State} (λ n. record m.state { expr_level = n }) (decrement_suc m.expr_level)
left_as_entered locals m m' e =
    ap (λ s. set_level locals (decrement s.local_level) s) e
    ∙ ap {A = ℕ} {B = State} (λ n. record m.state { local_level = n }) (decrement_suc m.local_level)

pub with_level-Backtracks : (l : Level) {p : Parser} → Backtracks p → Backtracks (with_level l p)
unfolding with_level
with_level-Backtracks l {p} hp = record {
  at = λ m. elim (Bool-cases (ltb (level l m.state) max_level)) [
    | inr full ↦ rw full refl
    | inl free ↦ rw free (around m (p (enter_level l m)) (hp.at (enter_level l m)))
  ];
}
  where
    around :
        (m : Machine) (r : Outcome)
        → Kept (enter_level l m) r
        → Kept m
            (after r (λ m'. some (true, leave_level l m')) (λ m'. some (false, leave_level l m')))
    around m none k = tt
    around m (some (true, m')) k = tt
    around m (some (false, m')) k = left_as_entered l m m' k

-- The depth's counter of a failure inside the guard, behind its destructor.
left_depth : (m m' : Machine) → m'.state ≡ (enter_depth m).state → (leave_depth m').state ≡ m.state
unfolding leave_depth enter_depth
left_depth m m' e =
    ap {A = State} {B = State} (λ s. record s { parse_depth = decrement s.parse_depth }) e
    ∙ ap {A = ℕ} {B = State} (λ n. record m.state { parse_depth = n }) (decrement_suc m.parse_depth)

pub with_depth-Backtracks : {p : Parser} → Backtracks p → Backtracks (with_depth p)
unfolding with_depth
with_depth-Backtracks {p} hp = record {
  at = λ m. elim (Bool-cases (ltb m.parse_depth max_parse_depth)) [
    | inr full ↦ rw full refl
    | inl free ↦ elim (Bool-cases (ltb 0 m.steps_remaining)) [
      | inr spent ↦ rw free (rw spent (left_depth m (enter_depth m) refl))
      | inl left ↦
          rw free
            (rw left (around m (p (use_step (enter_depth m))) (hp.at (use_step (enter_depth m)))))
    ]
  ];
}
  where
    around :
        (m : Machine) (r : Outcome)
        → Kept (use_step (enter_depth m)) r
        → Kept m (after r (λ m'. some (true, leave_depth m')) (λ m'. some (false, leave_depth m')))
    around m none k = tt
    around m (some (true, m')) k = tt
    around m (some (false, m')) k = unfold use_step in left_depth m m' k
