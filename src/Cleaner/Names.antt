-- ===== src/Cleaner/Names.antt =====
-- internal/log_cleaner.cc: sets of names, and paths that are split and joined.
use ng_log.Prelude.{
  ℕ, ◌≡◌, refl, sym, ap, ◌∙◌, ◌⊎◌, inl, inr, true, false, ◌||◌, List, [], ◌∷◌, ◌++◌, Option, none,
  some, arith, ◌==◌, if-true, if-false, Bool-cases, Option-cases, codes, same_text, same_text-eq,
  same_text_self,
}
use ng_log.Cleaner.Logs.{
  member, insert, ends_with_slash, join_path, prepend_to, at_last_slash, directory_of, name_of,
}

pub member-first : (text : List ℕ) (texts : List (List ℕ)) → member text (text ∷ texts) ≡ true
unfolding member
member-first text texts = ap (λ b. b || member text texts) (same_text_self text)

pub member-append :
    (text : List ℕ) (x y : List (List ℕ)) → member text (x ++ y) ≡ (member text x || member text y)
unfolding member
member-append text [] y = refl
member-append text (t ∷ x) y = ground (arith, member-append text x y)

pub insert_self : (text : List ℕ) (texts : List (List ℕ)) → member text (insert text texts) ≡ true
unfolding insert
insert_self text texts = elim (Bool-cases (member text texts)) [
  | inl e ↦ ap (member text) (if-true _ _ e) ∙ e
  | inr e ↦
      ap (member text) (if-false _ _ e)
      ∙ member-append text texts (text ∷ [])
      ∙ ground (arith, member-first text [])
]

pub insert-keeps :
    (text new : List ℕ) (texts : List (List ℕ))
    → member text texts ≡ true
    → member text (insert new texts) ≡ true
unfolding insert
insert-keeps text new texts h = elim (Bool-cases (member new texts)) [
  | inl e ↦ ap (member text) (if-true _ _ e) ∙ h
  | inr e ↦
      ap (member text) (if-false _ _ e)
      ∙ member-append text texts (new ∷ [])
      ∙ ap (λ b. b || member text (new ∷ [])) h
]

pub member-insert :
    (text new : List ℕ) (texts : List (List ℕ))
    → member text (insert new texts) ≡ true
    → (member text texts ≡ true) ⊎ (new ≡ text)
unfolding insert member
member-insert text new texts h = elim (Bool-cases (member text texts)) [
  | inl e ↦ inl e
  | inr e ↦ elim (Bool-cases (member new texts)) [
    | inl q ↦ inl (sym (ap (member text) (if-true _ _ q)) ∙ h)
    | inr q ↦ elim (Bool-cases (same_text new text)) [
      | inl s ↦ inr (same_text-eq new text s)
      | inr s ↦ inl (
          let both =
            sym (member-append text texts (new ∷ []))
            ∙ sym (ap (member text) (if-false _ _ q))
            ∙ h in
          ground arith)
    ]
  ]
]

-- A text is split at its first slash, if there is none behind it.
split_here :
    (c : ℕ) (text directory name : List ℕ)
    → prepend_to c text none ≡ some (directory, name)
    → (c == b'/' ≡ true) × (c ∷ [] ≡ directory) × (text ≡ name)
split_here c text directory name h = elim (Bool-cases (c == b'/')) [
  | inl q ↦
      let found : ◌≡◌ {A = Option (List ℕ × List ℕ)} (some (c ∷ [], text))
          (some (directory, name)) =
        sym (if-true _ _ q) ∙ h in
      (q, cc, cc)
  | inr q ↦
      let found : ◌≡◌ {A = Option (List ℕ × List ℕ)} none (some (directory, name)) =
        sym (if-false _ _ q) ∙ h in
      (cc, cc, cc)
]

-- What a text is split into is the text.
pub at_last_slash-append :
    (text directory name : List ℕ)
    → at_last_slash text ≡ some (directory, name)
    → directory ++ name ≡ text
unfolding at_last_slash
at_last_slash-append [] directory name h = cc
at_last_slash-append (c ∷ text) directory name h = elim (Option-cases (at_last_slash text)) [
  | inr ((d, n), e) ↦
      let split : some (c ∷ d, n) ≡ some (directory, name) = sym (ap (prepend_to c text) e) ∙ h in
      let rest = at_last_slash-append text d n e in cc
  | inl e ↦
      let (q, same, rest) = split_here c text directory name (sym (ap (prepend_to c text) e) ∙ h) in
      cc
]

ends_with_slash-cons :
    (c : ℕ) (text : List ℕ) → ends_with_slash text ≡ true → ends_with_slash (c ∷ text) ≡ true
unfolding ends_with_slash
ends_with_slash-cons c [] h = cc
ends_with_slash-cons c (d ∷ text) h = h

pub at_last_slash-slash :
    (text directory name : List ℕ)
    → at_last_slash text ≡ some (directory, name)
    → ends_with_slash directory ≡ true
unfolding at_last_slash ends_with_slash
at_last_slash-slash [] directory name h = cc
at_last_slash-slash (c ∷ text) directory name h = elim (Option-cases (at_last_slash text)) [
  | inr ((d, n), e) ↦
      let split : some (c ∷ d, n) ≡ some (directory, name) = sym (ap (prepend_to c text) e) ∙ h in
      let same : c ∷ d ≡ directory = cc in
      sym (ap ends_with_slash same) ∙ ends_with_slash-cons c d (at_last_slash-slash text d n e)
  | inl e ↦
      let (q, same, rest) = split_here c text directory name (sym (ap (prepend_to c text) e) ∙ h) in
      sym (ap ends_with_slash same) ∙ q
]

not_dot :
    (directory : List ℕ)
    → ends_with_slash directory ≡ true
    → same_text directory (codes ".") ≡ false
unfolding ends_with_slash
not_dot directory h = elim (Bool-cases (same_text directory (codes "."))) [
  | inr e ↦ e
  | inl e ↦
      let dot : false ≡ true =
        sym (ap ends_with_slash (same_text-eq directory (codes ".") e)) ∙ h in
      cc
]

-- The directory and the name of a path are joined to the path.
pub join_path-at_last_slash :
    (text : List ℕ)
    → join_path (directory_of (at_last_slash text)) (name_of text (at_last_slash text)) ≡ text
unfolding join_path
join_path-at_last_slash text = elim (Option-cases (at_last_slash text)) [
  | inl e ↦ rw e (if-true _ _ (same_text_self (codes ".")))
  | inr ((directory, name), e) ↦
      let slash = at_last_slash-slash text directory name e in
      rw e (
        if-false _ _ (not_dot directory slash)
        ∙ if-true _ _ slash
        ∙ at_last_slash-append text directory name e)
]
