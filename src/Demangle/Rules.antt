-- ===== src/Demangle/Rules.antt =====
-- One rule for each form in which parsing functions are composed.
use mathlib.Core.Option.{some}
use ng_log.Prelude.{
  ℕ, zero, suc, ◌+◌, ◌≤◌, ◌<◌, ◌≡◌, refl, inl, inr, Bool, true, false, arith, if◌then◌else◌, length,
  Bool-cases,
}
use ng_log.Demangle.Machine.{Machine, max_parse_depth, with_state}
use ng_log.Demangle.Parser.{
  Parser, succeed, fail, act, ◌&◌, ◌or◌, optional, retry, reading, branch, if_parsed, again, repeat,
  zero_or_more, one_or_more, until, parse_until,
}
use ng_log.Demangle.Moves.{
  Sound, Moved-refl, Moved-back, cost, Ends, Good, Moves, covers, Ends-trans, Ends-after,
}

-- Both outcomes end where the machine stands.
stays : (c b : Bool) (m : Machine) → Sound m → cost b c ≡ 0 → Ends c m (some (b, m))
stays c b m s h = (Moved-refl m s, omega arith)

pub succeed-Good : {n : ℕ} → Good n false succeed
unfolding succeed
succeed-Good = record { at = λ m s r. stays false true m s refl }

pub fail-Good : {n : ℕ} {c : Bool} → Good n c fail
unfolding fail
fail-Good {n} {c} = record { at = λ m s r. stays c false m s refl }

pub act-Good : {n : ℕ} {f : Machine → Machine} → Moves f → Good n false (act f)
unfolding act
act-Good h = record { at = λ m s r. let moved = h.at m s in (moved, omega (arith, moved.shorter)) }

-- A conjunction uses up what its first part uses up and what its second does.
&-Good :
    {n : ℕ} {p q : Parser} (a b c : Bool)
    → cost true c ≤ cost true a + cost true b
    → Good n a p
    → Good n b q
    → Good n c (p & q)
unfolding ◌&◌
&-Good {n} {p} {q} a b c w hp hq = record {
  at = λ m s r.
      Ends-after a c m (p m) q fail (hp.at m s r)
        (λ m' moved l.
          Ends-trans b c (cost true a) m m' (q m') moved l w
            (hq.at m' moved.sound (covers n m m' moved r)))
        (λ m' moved. (moved, omega (arith, moved.shorter)));
}

pub &-left : {n : ℕ} {c : Bool} {p q : Parser} → Good n true p → Good n false q → Good n c (p & q)
&-left {n} {c = true} hp hq = &-Good true false true (omega arith) hp hq
&-left {n} {c = false} hp hq = &-Good true false false (omega arith) hp hq

pub &-right : {n : ℕ} {c : Bool} {p q : Parser} → Good n false p → Good n true q → Good n c (p & q)
&-right {n} {c = true} hp hq = &-Good false true true (omega arith) hp hq
&-right {n} {c = false} hp hq = &-Good false true false (omega arith) hp hq

pub &-both : {n : ℕ} {p q : Parser} → Good n false p → Good n false q → Good n false (p & q)
&-both hp hq = &-Good false false false (omega arith) hp hq

pub or-Good : {n : ℕ} {c : Bool} {p q : Parser} → Good n c p → Good n c q → Good n c (p or q)
unfolding ◌or◌ succeed
or-Good {n} {c} {p} {q} hp hq = record {
  at = λ m s r.
      Ends-after c c m (p m) succeed q (hp.at m s r) (λ m' moved l. (moved, l))
        (λ m' moved.
          Ends-trans c c 0 m m' (q m') moved (omega (arith, moved.shorter)) (omega arith)
            (hq.at m' moved.sound (covers n m m' moved r)));
}

pub optional-Good : {n : ℕ} {p : Parser} → Good n false p → Good n false (optional p)
unfolding optional succeed
optional-Good {n} {p} hp = record {
  at = λ m s r.
      Ends-after false false m (p m) succeed succeed (hp.at m s r) (λ m' moved l. (moved, l))
        (λ m' moved. (moved, omega (arith, moved.shorter)));
}

pub retry-Good : {n : ℕ} {c : Bool} {p : Parser} → Good n c p → Good n c (retry p)
unfolding retry succeed
retry-Good {n} {c} {p} hp = record {
  at = λ m s r.
      Ends-after c c m (p m) succeed (λ m'. some (false, with_state m' m.state)) (hp.at m s r)
        (λ m' moved l. (moved, l)) (λ m' moved. (Moved-back m m' s moved, omega arith));
}

pub reading-Good :
    {n : ℕ} {c : Bool} {f : Machine → Parser}
    → ((m : Machine) → Good n c (f m))
    → Good n c (reading f)
unfolding reading
reading-Good h = record { at = λ m s r. (h m).at m s r }

pub branch-Good :
    {n : ℕ} {c : Bool} (test : Machine → Bool) {p q : Parser}
    → Good n c p
    → Good n c q
    → Good n c (branch test p q)
unfolding branch
branch-Good {n} {c} test {p} {q} hp hq = record {
  at = λ m s r. elim (Bool-cases (test m)) [
    | inl e ↦ rw e (hp.at m s r)
    | inr e ↦ rw e (hq.at m s r)
  ];
}

pub if-Good :
    {n : ℕ} {c : Bool} (test : Bool) {p q : Parser}
    → Good n c p
    → Good n c q
    → Good n c (if test then p else q)
if-Good true hp hq = hp
if-Good false hp hq = hq

pub if_parsed-Good :
    {n : ℕ} {c : Bool} {p hit miss : Parser}
    → Good n true p
    → Good n false hit
    → Good n c miss
    → Good n c (if_parsed p hit miss)
unfolding if_parsed
if_parsed-Good {n} {c} {p} {hit} {miss} hp hh hm = record {
  at = λ m s r.
      Ends-after true c m (p m) hit miss (hp.at m s r)
        (λ m' moved l.
          Ends-trans false c 1 m m' (hit m') moved l (cost_le c)
            (hh.at m' moved.sound (covers n m m' moved r)))
        (λ m' moved.
          Ends-trans c c 0 m m' (miss m') moved (omega (arith, moved.shorter)) (omega arith)
            (hm.at m' moved.sound (covers n m m' moved r)));
}
  where
    cost_le : (c : Bool) → cost true c ≤ 1 + 0
    cost_le true = omega arith
    cost_le false = omega arith

pub again-Good :
    {n : ℕ} {c : Bool} {p q r : Parser}
    → Good n true p
    → Good n false q
    → Good n true r
    → Good n c (again p q r)
unfolding again succeed fail
again-Good {n} {c} {p} {q} {r} hp hq hr = record {
  at = λ m s d.
      Ends-after true c m (p m) _ fail (hp.at m s d)
        (λ m' moved l.
          Ends-after true c m (q m') succeed (λ m''. r (with_state m'' m.state))
            (Ends-trans false true 1 m m' (q m') moved l (omega arith)
              (hq.at m' moved.sound (covers n m m' moved d)))
            (λ m'' moved'' l''. (moved'', le_cost c _ _ l''))
            (λ m'' moved''.
              let back = Moved-back m m'' s moved'' in
              Ends-trans true c 0 m _ _ back (omega arith) (cost_le c) (hr.at _ back.sound d)))
        (λ m' moved. (moved, omega (arith, moved.shorter)));
}
  where
    cost_le : (c : Bool) → cost true c ≤ 0 + cost true true
    cost_le true = omega arith
    cost_le false = omega arith

    le_cost : (c : Bool) (a b : ℕ) → a + 1 ≤ b → a + cost true c ≤ b
    le_cost true a b h = h
    le_cost false a b h = omega arith

-- With a text shorter than the fuel, `repeat` stops by a failure of its parser.
repeat-Ends :
    (n : ℕ) (p : Parser)
    → Good n true p
    → (fuel : ℕ) (m : Machine) → Sound m
    → max_parse_depth < m.parse_depth + n
    → length m.mangled_cur < fuel
    → Ends false m (repeat fuel p m)
unfolding repeat succeed
repeat-Ends n p hp zero m s r h = absurd (omega arith)
repeat-Ends n p hp (suc fuel) m s r h =
    Ends-after true false m (p m) (repeat fuel p) succeed (hp.at m s r)
      (λ m' moved l.
        Ends-trans false false 0 m m' (repeat fuel p m') moved (omega arith) (omega arith)
          (repeat-Ends n p hp fuel m' moved.sound (covers n m m' moved r) (omega arith)))
      (λ m' moved. (moved, omega (arith, moved.shorter)))

pub zero_or_more-Good : {n : ℕ} {p : Parser} → Good n true p → Good n false (zero_or_more p)
unfolding zero_or_more
zero_or_more-Good {n} {p} hp = record {
  at = λ m s r. repeat-Ends n p hp (suc (length m.mangled_cur)) m s r (omega arith);
}

pub one_or_more-Good : {n : ℕ} {c : Bool} {p : Parser} → Good n true p → Good n c (one_or_more p)
unfolding one_or_more
one_or_more-Good hp = &-left hp (zero_or_more-Good hp)

until-Ends :
    (n : ℕ) (stop : Machine → Bool) (p : Parser)
    → Good n true p
    → (fuel : ℕ) (m : Machine) → Sound m
    → max_parse_depth < m.parse_depth + n
    → length m.mangled_cur < fuel
    → Ends false m (until fuel stop p m)
unfolding until succeed fail
until-Ends n stop p hp zero m s r h = absurd (omega arith)
until-Ends n stop p hp (suc fuel) m s r h = elim (Bool-cases (stop m)) [
  | inl e ↦ rw e (stays false true m s refl)
  | inr e ↦ rw e (
      Ends-after true false m (p m) (until fuel stop p) fail (hp.at m s r)
        (λ m' moved l.
          Ends-trans false false 0 m m' (until fuel stop p m') moved (omega arith) (omega arith)
            (until-Ends n stop p hp fuel m' moved.sound (covers n m m' moved r) (omega arith)))
        (λ m' moved. (moved, omega (arith, moved.shorter))))
]

pub parse_until-Good :
    {n : ℕ} (stop : Machine → Bool) {p : Parser} → Good n true p → Good n false (parse_until stop p)
unfolding parse_until
parse_until-Good {n} stop {p} hp = record {
  at = λ m s r. until-Ends n stop p hp (suc (length m.mangled_cur)) m s r (omega arith);
}

pub ruleset parser_rules = (
  retry-Good, or-Good, &-left, &-right, &-both, optional-Good, reading-Good, branch-Good, if-Good,
  if_parsed-Good, again-Good, zero_or_more-Good, one_or_more-Good, parse_until-Good, succeed-Good,
  fail-Good,
)
