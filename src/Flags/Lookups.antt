-- ===== src/Flags/Lookups.antt =====
-- internal/flag_registry.cc: what a name finds behind a change of the flags.
use ng_log.Prelude.{
  ℕ, ◌≡◌, refl, sym, ap, ◌∙◌, true, false, List, [], ◌∷◌, none, some, if◌then◌else◌, inl, inr,
  Bool-cases, if-true, if-false, same_text, same_text-eq, same_text_self,
}
use ng_log.Flags.Registry.{Flag, lookup, text_before, emplace, erase_name}

pub true-false : true ≡ false → ⊥
true-false h = cc

-- The flag of a name that is not there is found afterwards, and the others as before.
pub lookup-emplace :
    (k name : List ℕ) (flag : Flag) (flags : List (List ℕ × Flag))
    → lookup name flags ≡ none
    → lookup k (emplace name flag flags) ≡ (if same_text name k then some flag else lookup k flags)
unfolding lookup emplace
lookup-emplace k name flag [] h = refl
lookup-emplace k name flag ((key, other) ∷ flags) h = elim (Bool-cases (text_before name key)) [
  | inl e ↦ rw e refl
  | inr e ↦ rw e (elim (Bool-cases (same_text key name)) [
    | inl q ↦ absurd (some_none (sym (if-true _ _ q) ∙ h))
    | inr q ↦
        let ih = lookup-emplace k name flag flags (sym (if-false _ _ q) ∙ h) in
        elim (Bool-cases (same_text key k)) [
          | inr n ↦ rw n ih
          | inl n ↦
              let other_name : same_text name k ≡ false = elim (Bool-cases (same_text name k)) [
                | inr m ↦ m
                | inl m ↦ absurd (
                    true-false (
                      sym (same_text_self name)
                      ∙ ap (λ t. same_text t name)
                          (same_text-eq name k m ∙ sym (same_text-eq key k n))
                      ∙ q))
              ] in
              rw (n, other_name) refl
        ]
  ])
]
  where
    some_none : some other ≡ none → ⊥
    some_none h = cc

pub lookup-erase_name :
    (k name : List ℕ) (flags : List (List ℕ × Flag))
    → lookup k (erase_name name flags) ≡ (if same_text name k then none else lookup k flags)
unfolding lookup erase_name
lookup-erase_name k name [] = elim (Bool-cases (same_text name k)) [
  | inl e ↦ rw e refl
  | inr e ↦ rw e refl
]
lookup-erase_name k name ((key, flag) ∷ flags) =
    let ih = lookup-erase_name k name flags in
    elim (Bool-cases (same_text key name)) [
      | inl q ↦
          let same : same_text key k ≡ same_text name k =
            ap (λ t. same_text t k) (same_text-eq key name q) in
          rw (q, same)
            (elim (Bool-cases (same_text name k)) [
              | inl e ↦ rw e (ih ∙ if-true _ _ e)
              | inr e ↦ rw e (ih ∙ if-false _ _ e)
            ])
      | inr q ↦ rw q (elim (Bool-cases (same_text key k)) [
        | inr n ↦ rw n ih
        | inl n ↦
            let other_name : same_text name k ≡ false = elim (Bool-cases (same_text name k)) [
              | inr m ↦ m
              | inl m ↦ absurd (
                  true-false (
                    sym (same_text_self name)
                    ∙ ap (λ t. same_text t name)
                        (same_text-eq name k m ∙ sym (same_text-eq key k n))
                    ∙ q))
            ] in
            rw (n, other_name) refl
      ])
    ]
