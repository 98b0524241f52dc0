-- ===== src/Color/Complete.antt =====
-- internal/color_format.cc: the sequence is written completely or not at all.
use ng_log.Prelude.{
  ℕ, ◌+◌, ◌-◌, ◌≡◌, ◌≤◌, ◌<◌, refl, sym, ap, ◌∙◌, inl, inr, Bool, true, false, List, [], ◌∷◌, ◌++◌,
  arith, ltb, ◌==◌, if◌then◌else◌, length, set, length-set, Bool-cases, splice, splice-nil,
  splice-set, set-splice, ltb→lt, get_or,
}
use ng_log.Color.Format.{
  ColorSpec, format_small_uint, Sequence, append_char, append_chars, append_code, append_codes,
  sgr_codes, end_sequence, format_ansi_sequence,
}

-- The codes in decimal, with a ';' between them, or in front of each if one came before.
abbrev pub joined : Bool → List ℕ → List ℕ
joined first [] = []
joined first (code ∷ codes) =
    (if first then [] else b';' ∷ []) ++ (format_small_uint 3 code [] ++ joined false codes)

-- "\033[", the codes, and "m"
abbrev pub ansi_sequence : ColorSpec → List ℕ
ansi_sequence spec = 27 ∷ b'[' ∷ (joined true (sgr_codes spec) ++ (b'm' ∷ []))

append_chars-append :
    (x y : List ℕ) (s : Sequence) → append_chars (x ++ y) s ≡ append_chars y (append_chars x s)
unfolding append_chars
append_chars-append [] y s = refl
append_chars-append (c ∷ x) y s = append_chars-append x y (append_char c s)

append_codes-joined :
    (first : Bool) (codes : List ℕ) (s : Sequence)
    → append_codes first codes s ≡ append_chars (joined first codes) s
unfolding append_codes append_code append_chars
append_codes-joined first [] s = refl
append_codes-joined true (code ∷ codes) s =
    append_codes-joined false codes _
    ∙ sym (append_chars-append (format_small_uint 3 code []) (joined false codes) s)
append_codes-joined false (code ∷ codes) s =
    append_codes-joined false codes _
    ∙ sym (
        append_chars-append (format_small_uint 3 code []) (joined false codes) (append_char b';' s))

state-cong :
    (a b : List ℕ) (i j : ℕ)
    → a ≡ b
    → i ≡ j
    → ◌≡◌ {A = Sequence}
        (record { buffer = a; cursor = i; fits = true })
        (record { buffer = b; cursor = j; fits = true })
state-cong a b i j e f = cc

append_chars-fits :
    (cs buffer : List ℕ) (cursor : ℕ)
    → cursor + length cs < length buffer
    → append_chars cs (record { buffer = buffer; cursor = cursor; fits = true })
      ≡ record { buffer = splice buffer cursor cs; cursor = cursor + length cs; fits = true }
unfolding append_chars append_char
append_chars-fits [] buffer cursor h =
    state-cong _ _ _ _ (sym (splice-nil buffer cursor)) (omega arith)
append_chars-fits (c ∷ cs) buffer cursor h = elim (Bool-cases (ltb cursor (length buffer - 1))) [
  | inr full ↦ absurd (ground arith)
  | inl free ↦ rw free (
      append_chars-fits cs (set buffer cursor c) (cursor + 1)
        (omega (arith, length-set buffer cursor c))
      ∙ state-cong _ _ _ _
          (ap (λ i. splice (set buffer cursor c) i cs) (omega arith)
            ∙ splice-set buffer cursor c cs)
          (omega arith))
]

abbrev state : List ℕ → ℕ → Bool → Sequence
state buffer cursor fits = record { buffer = buffer; cursor = cursor; fits = fits }

append_char-free :
    (c cursor : ℕ) (buffer : List ℕ) (fits : Bool)
    → ltb cursor (length buffer - 1) ≡ true
    → append_char c (state buffer cursor fits) ≡ state (set buffer cursor c) (cursor + 1) fits
unfolding append_char
append_char-free c cursor buffer fits e = rw e refl

append_char-full :
    (c cursor : ℕ) (buffer : List ℕ) (fits : Bool)
    → ltb cursor (length buffer - 1) ≡ false
    → append_char c (state buffer cursor fits) ≡ state buffer cursor false
unfolding append_char
append_char-full c cursor buffer fits e = rw e refl

append_chars-stuck :
    (cs buffer : List ℕ) (cursor : ℕ) → (append_chars cs (state buffer cursor false)).fits ≡ false
unfolding append_chars
append_chars-stuck [] buffer cursor = refl
append_chars-stuck (c ∷ cs) buffer cursor = elim (Bool-cases (ltb cursor (length buffer - 1))) [
  | inr full ↦
      ap (λ s. (append_chars cs s).fits) (append_char-full c cursor buffer false full)
      ∙ append_chars-stuck cs buffer cursor
  | inl free ↦
      ap (λ s. (append_chars cs s).fits) (append_char-free c cursor buffer false free)
      ∙ append_chars-stuck cs (set buffer cursor c) (cursor + 1)
]

append_chars-full :
    (cs buffer : List ℕ) (cursor : ℕ)
    → cursor < length buffer
    → length buffer ≤ cursor + length cs
    → (append_chars cs (state buffer cursor true)).fits ≡ false
unfolding append_chars
append_chars-full [] buffer cursor w h = absurd (omega arith)
append_chars-full (c ∷ cs) buffer cursor w h = elim (Bool-cases (ltb cursor (length buffer - 1))) [
  | inr full ↦
      ap (λ s. (append_chars cs s).fits) (append_char-full c cursor buffer true full)
      ∙ append_chars-stuck cs buffer cursor
  | inl free ↦
      ap (λ s. (append_chars cs s).fits) (append_char-free c cursor buffer true free)
      ∙ append_chars-full cs (set buffer cursor c) (cursor + 1)
          (omega (arith, length-set buffer cursor c, ltb→lt _ _ free))
          (omega (arith, length-set buffer cursor c))
]

-- The calls of `FormatAnsiSequence` write the sequence.
format-chars :
    (spec : ColorSpec) (out : List ℕ)
    → 0 < length out
    → format_ansi_sequence spec out
      ≡ end_sequence
          (append_chars (ansi_sequence spec) (record { buffer = out; cursor = 0; fits = true }))
unfolding format_ansi_sequence append_chars
format-chars spec out h = elim (Bool-cases (length out == 0)) [
  | inl e ↦ absurd (ground arith)
  | inr e ↦ rw e (
      ap end_sequence (
        ap (append_char b'm') (append_codes-joined true (sgr_codes spec) _)
        ∙ sym (append_chars-append (joined true (sgr_codes spec)) (b'm' ∷ []) _)))
]

-- Where the sequence and a null character fit into the buffer, `FormatAnsiSequence` writes both at
-- its front and no other byte.
pub format_ansi_sequence-fits :
    (spec : ColorSpec) (out : List ℕ)
    → length (ansi_sequence spec) < length out
    → format_ansi_sequence spec out ≡ splice out 0 (ansi_sequence spec ++ (0 ∷ []))
format_ansi_sequence-fits spec out h =
    format-chars spec out (omega arith)
    ∙ ap end_sequence (append_chars-fits (ansi_sequence spec) out 0 (omega arith))
    ∙ ended
  where
    ended :
        end_sequence (record {
          buffer = splice out 0 (ansi_sequence spec);
          cursor = 0 + length (ansi_sequence spec);
          fits = true;
        })
        ≡ splice out 0 (ansi_sequence spec ++ (0 ∷ []))
    ended =
        unfold end_sequence in
        set-splice out 0 (0 + length (ansi_sequence spec)) 0 (ansi_sequence spec) refl

-- Where they do not fit into a buffer of at least one byte, it holds the empty string.
pub format_ansi_sequence-full :
    (spec : ColorSpec) (out : List ℕ)
    → 0 < length out
    → length out ≤ length (ansi_sequence spec)
    → get_or (format_ansi_sequence spec out) 0 0 ≡ 0
format_ansi_sequence-full spec out w h =
    ap (λ l. get_or l 0 0) (format-chars spec out w)
    ∙ ended (append_chars (ansi_sequence spec) (record { buffer = out; cursor = 0; fits = true }))
        (append_chars-full (ansi_sequence spec) out 0 w (omega arith))
  where
    zeroed : (l : List ℕ) → get_or (set l 0 0) 0 0 ≡ 0
    zeroed [] = refl
    zeroed (c ∷ l) = refl

    ended : (s : Sequence) → s.fits ≡ false → get_or (end_sequence s) 0 0 ≡ 0
    ended s e = unfold end_sequence in rw e (zeroed s.buffer)
