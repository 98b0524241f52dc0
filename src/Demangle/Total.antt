-- ===== src/Demangle/Total.antt =====
-- The demangler returns on every input, and writes inside the buffer only.
use mathlib.Core.Option.{none, some}
use ng_log.Prelude.{
  ℕ, zero, suc, ◌+◌, ◌<◌, ◌≡◌, refl, ◌∙◌, Bool, true, false, List, [], ◌∷◌, arith, length, set,
  length-set, ◌==◌, not, ◌&&◌, Bool-cases, inl, inr,
}
use ng_log.Demangle.Machine.{Machine, max_parse_depth, init_state, first, second}
use ng_log.Demangle.Parser.{Parser, Outcome}
use ng_log.Demangle.Names.{
  NonTerminal, encoding, name, nested_name, prefix, type, template_arg, braced_expression,
  expression, local_name,
}
use ng_log.Demangle.Grammar.{
  body, parse, parse_fuel, parse_suffix, parse_top_level_mangled_name, initial, finish, demangle,
}
use ng_log.Demangle.Moves.{Sound, Moved, Ends, Good}
use ng_log.Demangle.Rules.{or-Good, reading-Good, &-left, succeed-Good, fail-Good, if-Good}
use ng_log.Demangle.Guards.{with_level-Good, with_depth-Good}
use ng_log.Demangle.Acts.{append-Good}
use ng_log.Demangle.NamesGood.{AllGood}
use ng_log.Demangle.TypesGood.{type_body-Good}
use ng_log.Demangle.QualifiedGood.{
  mangled_name-Good, name_body-Good, nested_name_body-Good, prefix_body-Good, encoding_body-Good,
  local_name_body-Good,
}
use ng_log.Demangle.ExpressionsGood.{
  braced_expression_body-Good, template_arg_body-Good, atoms-Good, forms-Good,
}

no_fuel : (c : Bool) (non_terminal : NonTerminal) → Good 0 c (parse 0 non_terminal)
no_fuel c non_terminal = record { at = λ m s r. absurd (omega (arith, s.depth_bound)) }

deeper :
    {n : ℕ} {c : Bool} (non_terminal : NonTerminal)
    → Good n c (body (parse n) non_terminal)
    → Good (suc n) c (parse (suc n) non_terminal)
unfolding parse
deeper non_terminal h = record { at = λ m s r. (with_depth-Good h).at m s r }

-- Each non-terminal returns, keeps the machine sound, and uses up text if it succeeds, a prefix
-- excepted.
parse-AllGood : (n : ℕ) → AllGood n (parse n)
parse-AllGood zero = record {
  encodings = λ c. no_fuel c encoding;
  names = λ c. no_fuel c name;
  nested_names = λ c. no_fuel c nested_name;
  prefixes = no_fuel false prefix;
  types = λ c. no_fuel c type;
  template_args = λ c. no_fuel c template_arg;
  braced_expressions = λ c. no_fuel c braced_expression;
  expressions = λ c. no_fuel c expression;
  local_names = λ c. no_fuel c local_name;
}
parse-AllGood (suc n) = bodies (parse-AllGood n)
  where
    bodies : AllGood n (parse n) → AllGood (suc n) (parse (suc n))
    bodies h = record {
      encodings = λ c. deeper encoding (unfold body in with_level-Good _ (encoding_body-Good h));
      names = λ c. deeper name (unfold body in name_body-Good h);
      nested_names = λ c. deeper nested_name (unfold body in nested_name_body-Good h);
      prefixes = deeper prefix (unfold body in prefix_body-Good h);
      types = λ c. deeper type (unfold body in with_level-Good _ (type_body-Good h));
      template_args =
          λ c. deeper template_arg (unfold body in with_level-Good _ (template_arg_body-Good h));
      braced_expressions =
          λ c. deeper braced_expression (unfold body in braced_expression_body-Good h);
      expressions = λ c.
          deeper expression
            (unfold body in or-Good (atoms-Good h) (with_level-Good _ (forms-Good h)));
      local_names =
          λ c. deeper local_name (unfold body in with_level-Good _ (local_name_body-Good h));
    }

suffix-Good : {n : ℕ} → Good n false parse_suffix
unfolding parse_suffix
suffix-Good = reading-Good λ m. if-Good (first m.mangled_cur == 0) succeed-Good (
    if-Good (first m.mangled_cur == b'@') (append-Good m.mangled_cur) (
      if-Good (first m.mangled_cur == b'.' && not (second m.mangled_cur == 0)) succeed-Good
        fail-Good))

top_level-Good : Good parse_fuel true parse_top_level_mangled_name
unfolding parse_top_level_mangled_name
top_level-Good = &-left (mangled_name-Good (parse-AllGood parse_fuel)) suffix-Good

initial-Sound : (mangled out : List ℕ) → 0 < length out → Sound (initial mangled out)
unfolding initial init_state
initial-Sound mangled out h = record {
  within = omega (arith, length-set out 0 0);
  named = tt;
  depth_bound = omega arith;
}

-- Every parser of a non-terminal by the record's field.
AllGood-at :
    {n : ℕ} {rec : NonTerminal → Parser}
    → AllGood n rec
    → (non_terminal : NonTerminal) → Good n false (rec non_terminal)
AllGood-at h encoding = h.encodings false
AllGood-at h name = h.names false
AllGood-at h nested_name = h.nested_names false
AllGood-at h prefix = h.prefixes
AllGood-at h type = h.types false
AllGood-at h template_arg = h.template_args false
AllGood-at h braced_expression = h.braced_expressions false
AllGood-at h expression = h.expressions false
AllGood-at h local_name = h.local_names false

returned :
    (m : Machine) (r : Outcome)
    → Ends false m r
    → (b : Bool) × (m' : Machine) × (r ≡ some (b, m')) × Moved m m'
returned m none x = absurd x
returned m (some (b, m')) x = (b, m', refl, x.0)

-- On 65 units of fuel, from every machine that writes inside its buffer, has its depth at 64 at
-- most and has its remembered name in the buffer, every non-terminal returns, and the machine it
-- leaves is such a machine again: its cursor did not go back, its buffer is of the same size, its
-- step budget did not grow, and each of the six nesting levels is as it was.
pub parse-keeps :
    (non_terminal : NonTerminal) (m : Machine)
    → Sound m
    → (b : Bool) × (m' : Machine) × (parse parse_fuel non_terminal m ≡ some (b, m')) × Moved m m'
parse-keeps non_terminal m s =
    returned m (parse parse_fuel non_terminal m)
      ((AllGood-at (parse-AllGood parse_fuel) non_terminal).at m s (omega arith))

-- What the caller sees of a finished parse.
finish-some :
    (ok : Bool) (m : Machine)
    → (b : Bool) × (buffer : List ℕ) × (finish (some (ok, m)) ≡ some (b, buffer))
      × (length buffer ≡ length m.buffer)
      × (b ≡ false → first buffer ≡ 0)
unfolding finish
finish-some ok m = elim (Bool-cases (ok && not m.overflowed)) [
  | inl e ↦ rw e (true, m.buffer, refl, refl, λ h. absurd (differ h))
  | inr e ↦ rw e (false, set m.buffer 0 0, refl, length-set m.buffer 0 0, λ h. zeroed m.buffer)
]
  where
    differ : true ≡ false → ⊥
    differ h = cc

    zeroed : (buffer : List ℕ) → first (set buffer 0 0) ≡ 0
    zeroed [] = refl
    zeroed (c ∷ cs) = refl

finish-length :
    (m : Machine) (r : Outcome)
    → Ends true m r
    → (b : Bool) × (buffer : List ℕ) × (finish r ≡ some (b, buffer))
      × (length buffer ≡ length m.buffer)
      × (b ≡ false → first buffer ≡ 0)
finish-length m none x = absurd x
finish-length m (some (ok, m')) x =
    let (b, buffer, returns, size, cleared) = finish-some ok m' in
    (b, buffer, returns, size ∙ x.0.size, cleared)

-- `Demangle` returns on every text and every output buffer of one byte or more: the model's fuel
-- never runs out, whatever the nesting, the buffer is of the size it was, and a result of false
-- leaves an empty string in it.
pub demangle-returns :
    (mangled out : List ℕ)
    → 0 < length out
    → (b : Bool) × (buffer : List ℕ) × (demangle mangled out ≡ some (b, buffer))
      × (length buffer ≡ length out)
      × (b ≡ false → first buffer ≡ 0)
unfolding demangle
demangle-returns mangled out h = elim (Bool-cases (length out == 0)) [
  | inl e ↦ absurd (ground arith)
  | inr e ↦
      let s = initial-Sound mangled out h in
      let m = initial mangled out in
      let (b, buffer, returns, size, cleared) =
        finish-length m (parse_top_level_mangled_name m)
          (top_level-Good.at m s (deep mangled out)) in
      rw e (b, buffer, returns, size ∙ initial-length mangled out, cleared)
]
  where
    deep : (mangled out : List ℕ) → max_parse_depth < (initial mangled out).parse_depth + parse_fuel
    deep mangled out = unfold initial init_state in omega arith

    initial-length : (mangled out : List ℕ) → length (initial mangled out).buffer ≡ length out
    initial-length mangled out = unfold initial in length-set out 0 0
