-- ===== src/Flags/Negations.antt =====
-- internal/flag_registry.cc: an option means one flag or the negation of one, never both.
use ng_log.Prelude.{
  ℕ, ◌≡◌, refl, sym, ap, ◌∙◌, Bool, true, false, not, ◌&&◌, ◌||◌, List, ◌∷◌, Option, none, some,
  arith, length, codes, contains, inl, inr, Bool-cases, if-true, if-false, same_text, same_text-eq,
}
use ng_log.Flags.Registry.{
  Flag, Registry, is_bool, lookup, emplace, erase_name, behind_no, is_bool_flag, is_there, negates,
  has_negation_conflict, is_valid_flag_name, is_mismatched, insert_flag, register_flag, registered,
  duplicate, unavailable, ProcessAnswer, added, aborts, is_at, unregister_flag, Reachable, start,
  declares, registers, unregisters, Failure, repeated, invalid_name, reserved, negation_conflict,
  duplicate_flag, mismatched_declaration,
}
use ng_log.Flags.Lookups.{true-false, lookup-emplace, lookup-erase_name}

-- No flag is named like the negation of a Boolean one.
abbrev pub Unambiguous : Registry → Type 0
Unambiguous r =
    (name : List ℕ) (flag : Flag)
    → lookup name r.flags ≡ some flag
    → is_bool flag ≡ true
    → lookup (b'n' ∷ b'o' ∷ name) r.flags ≡ none

no_conflict :
    (flag : Flag) (r : Registry)
    → has_negation_conflict flag r ≡ false
    → (is_bool flag ≡ true → lookup (b'n' ∷ b'o' ∷ flag.name) r.flags ≡ none)
      × (negates (behind_no flag.name) r ≡ false)
unfolding has_negation_conflict
no_conflict flag r h =
    let first = is_bool flag && is_there (lookup (b'n' ∷ b'o' ∷ flag.name) r.flags) in
    let second = negates (behind_no flag.name) r in
    let (a, b) = or_false first second h in
    (
      λ e.
          not_there (lookup (b'n' ∷ b'o' ∷ flag.name) r.flags)
            (sym (ap (λ x. x && is_there (lookup (b'n' ∷ b'o' ∷ flag.name) r.flags)) e) ∙ a),
      b,
    )
  where
    or_false : (a b : Bool) → (a || b) ≡ false → (a ≡ false) × (b ≡ false)
    or_false false b h = (refl, h)
    or_false true b h = cc

    not_there : (o : Option Flag) → (true && is_there o) ≡ false → o ≡ none
    not_there none h = refl
    not_there (some flag) h = cc

longer : (name : List ℕ) → same_text name (b'n' ∷ b'o' ∷ name) ≡ false
longer name = elim (Bool-cases (same_text name (b'n' ∷ b'o' ∷ name))) [
  | inr e ↦ e
  | inl e ↦ absurd (omega (arith, ap length (same_text-eq name (b'n' ∷ b'o' ∷ name) e)))
]

emplace-Unambiguous :
    (flag : Flag) (r r' : Registry)
    → Unambiguous r
    → lookup flag.name r.flags ≡ none
    → has_negation_conflict flag r ≡ false
    → r'.flags ≡ emplace flag.name flag r.flags
    → Unambiguous r'
unfolding behind_no
emplace-Unambiguous flag r r' h absent conflict e name found here boolean =
    let (as_negated, as_negation) = no_conflict flag r conflict in
    let no_name = b'n' ∷ b'o' ∷ name in
    let before = ap (lookup name) (sym e) ∙ here in
    let after = ap (lookup no_name) e ∙ lookup-emplace no_name flag.name flag r.flags absent in
    elim (Bool-cases (same_text flag.name name)) [
      | inl same ↦
          let same_name = same_text-eq flag.name name same in
          let same_flag : some flag ≡ some found =
            sym (lookup-emplace name flag.name flag r.flags absent ∙ if-true _ _ same) ∙ before in
          let is_flag : flag ≡ found = cc same_flag in
          after
          ∙ if-false _ _
              (ap (λ t. same_text flag.name (b'n' ∷ b'o' ∷ t)) (sym same_name) ∙ longer flag.name)
          ∙ ap (λ t. lookup (b'n' ∷ b'o' ∷ t) r.flags) (sym same_name)
          ∙ as_negated (ap is_bool is_flag ∙ boolean)
      | inr other ↦
          let old =
            sym (lookup-emplace name flag.name flag r.flags absent ∙ if-false _ _ other) ∙ before in
          elim (Bool-cases (same_text flag.name no_name)) [
            | inr differs ↦ after ∙ if-false _ _ differs ∙ h name found old boolean
            | inl same ↦
                let same_name = same_text-eq flag.name no_name same in
                let negated : negates (behind_no flag.name) r ≡ true =
                  ap (λ t. negates (behind_no t) r) same_name ∙ ap is_bool_flag old ∙ boolean in
                absurd (true-false (sym negated ∙ as_negation))
          ]
    ]

erase_name-Unambiguous :
    (gone : List ℕ) (r r' : Registry)
    → Unambiguous r
    → r'.flags ≡ erase_name gone r.flags
    → Unambiguous r'
erase_name-Unambiguous gone r r' h e name found here boolean =
    let no_name = b'n' ∷ b'o' ∷ name in
    let before = sym (lookup-erase_name name gone r.flags) ∙ ap (lookup name) (sym e) ∙ here in
    let after = ap (lookup no_name) e ∙ lookup-erase_name no_name gone r.flags in
    elim (Bool-cases (same_text gone name)) [
      | inl same ↦ absurd (none_some (sym (if-true _ _ same) ∙ before))
      | inr other ↦
          let old = sym (if-false _ _ other) ∙ before in
          elim (Bool-cases (same_text gone no_name)) [
            | inl same ↦ after ∙ if-true _ _ same
            | inr differs ↦ after ∙ if-false _ _ differs ∙ h name found old boolean
          ]
    ]
  where
    none_some : none ≡ some found → ⊥
    none_some h = cc

register-Unambiguous :
    (answer : ProcessAnswer) (flag : Flag) (r r' : Registry)
    → Unambiguous r
    → register_flag answer flag r ≡ added r'
    → Unambiguous r'
unfolding register_flag
register-Unambiguous answer flag r r' h e = elim (Bool-cases (contains r.entries flag.address)) [
  | inl q ↦ fails repeated (sym (if-true _ _ q) ∙ e)
  | inr q ↦ elim (Bool-cases (not (is_valid_flag_name flag.name))) [
    | inl k ↦ fails invalid_name (sym (if-false _ _ q ∙ if-true _ _ k) ∙ e)
    | inr k ↦ elim (Bool-cases (same_text flag.name (codes "help"))) [
      | inl l ↦ fails reserved (sym (if-false _ _ q ∙ if-false _ _ k ∙ if-true _ _ l) ∙ e)
      | inr l ↦ elim (Bool-cases (has_negation_conflict flag r)) [
        | inl m ↦
            fails negation_conflict
              (sym (if-false _ _ q ∙ if-false _ _ k ∙ if-false _ _ l ∙ if-true _ _ m) ∙ e)
        | inr m ↦ elim (Bool-cases (is_there (lookup flag.name r.flags))) [
          | inl n ↦ fails duplicate_flag (
              sym
                (if-false _ _ q ∙ if-false _ _ k ∙ if-false _ _ l ∙ if-false _ _ m ∙ if-true _ _ n)
              ∙ e)
          | inr n ↦
              let inserted =
                sym (
                  if-false _ _ q
                  ∙ if-false _ _ k
                  ∙ if-false _ _ l
                  ∙ if-false _ _ m
                  ∙ if-false _ _ n)
                ∙ e in
              emplace-Unambiguous flag r r' h (absent (lookup flag.name r.flags) n) m
                (inserted_flags answer inserted)
        ]
      ]
    ]
  ]
]
  where
    fails : {A : Type 0} (why : Failure) → aborts why ≡ added r' → A
    fails why h = cc

    absent : (o : Option Flag) → is_there o ≡ false → o ≡ none
    absent none h = refl
    absent (some flag) h = cc

    inserted_flags :
        (answer : ProcessAnswer)
        → insert_flag answer flag r ≡ added r'
        → r'.flags ≡ emplace flag.name flag r.flags
    inserted_flags duplicate h = cc
    inserted_flags unavailable h = cc
    inserted_flags registered h =
        elim (Bool-cases (is_mismatched flag.name flag.type_name r.declarations)) [
          | inl q ↦ fails mismatched_declaration (sym (if-true _ _ q) ∙ h)
          | inr q ↦ flags_of (sym (if-false _ _ q) ∙ h)
        ]
      where
        flags_of : {a b : Registry} → added a ≡ added b → b.flags ≡ a.flags
        flags_of h = cc

unregister-Unambiguous :
    (flag : Flag) (r : Registry) → Unambiguous r → Unambiguous (unregister_flag flag r)
unfolding unregister_flag
unregister-Unambiguous flag r h = elim (Bool-cases (contains r.entries flag.address)) [
  | inr e ↦ rw e h
  | inl e ↦ rw e (elim (Bool-cases (is_at flag.address (lookup flag.name r.flags))) [
    | inl q ↦ rw q (
        erase_name-Unambiguous flag.name r (record r { flags = erase_name flag.name r.flags }) h
          refl)
    | inr q ↦ rw q h
  ])
]

-- In every registry no flag is named "no" and the name of a Boolean flag.
pub Reachable-Unambiguous : {r : Registry} → Reachable r → Unambiguous r
unfolding lookup
Reachable-Unambiguous start = λ name flag h boolean. refl
Reachable-Unambiguous (declares name type_name run) = Reachable-Unambiguous run
Reachable-Unambiguous (registers answer flag {r} {r'} run e) =
    register-Unambiguous answer flag r r' (Reachable-Unambiguous run) e
Reachable-Unambiguous (unregisters flag {r} run) =
    unregister-Unambiguous flag r (Reachable-Unambiguous run)
