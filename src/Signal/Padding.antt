-- ===== src/Signal/Padding.antt =====
-- signalhandler.cc: how far the fields of `MinimalFormatter` reach.
use ng_log.Prelude.{
  ℕ, ◌+◌, ◌-◌, ◌≡◌, ◌≤◌, refl, ap, ◌∙◌, inl, inr, List, [], ◌∷◌, arith, ltb, if◌then◌else◌, if-true,
  if-false, Bool-cases, codes, length, length-set, set,
}
use ng_log.Signal.Formatter.{
  Formatter, append_string, uint64_digits, append_uint64, least, pad_field, pad_to,
  append_hex_with_padding,
}

append_string-cursor :
    (str : List ℕ) (f : Formatter)
    → f.cursor ≤ length f.buffer
    → ((append_string str f).cursor ≡ f.cursor + least (length str) (length f.buffer - f.cursor))
      × (length (append_string str f).buffer ≡ length f.buffer)
unfolding append_string
append_string-cursor [] f h = (ground arith, refl)
append_string-cursor (c ∷ str) f h = elim (Bool-cases (ltb f.cursor (length f.buffer))) [
  | inr e ↦ rw e (ground arith, refl)
  | inl e ↦
      let g : Formatter = record { buffer = set f.buffer f.cursor c; cursor = f.cursor + 1 } in
      let same = length-set f.buffer f.cursor c in
      let (moved, kept) = append_string-cursor str g (ground (arith, same)) in
      rw e (ground (arith, same, moved), kept ∙ same)
]

abbrev pub most : ℕ → ℕ → ℕ
most a b = if ltb a b then b else a

pad_to-cursor :
    (start width room content : ℕ) (f : Formatter)
    → f.cursor ≡ start + content
    → content ≤ room
    → (pad_to start width room f).cursor ≡ start + most content (least width room)
unfolding pad_to pad_field
pad_to-cursor start width room content f h fits = elim (Bool-cases (ltb (f.cursor - start) width)) [
  | inr e ↦ ap (λ (g : Formatter). g.cursor) (if-false _ f e) ∙ ground arith
  | inl e ↦
      ap (λ (g : Formatter). g.cursor) (if-true _ f e)
      ∙ elim (Bool-cases (ltb (f.cursor - start) (least width room))) [
        | inl q ↦ ap (λ (g : Formatter). g.cursor) (if-true _ f q) ∙ ground arith
        | inr q ↦ ap (λ (g : Formatter). g.cursor) (if-false _ f q) ∙ ground arith
      ]
]

-- A padded number takes its width, or its characters if they are more, as far as the buffer reaches.
pub append_hex_with_padding-cursor :
    (number width : ℕ) (f : Formatter)
    → f.cursor ≤ length f.buffer
    → (append_hex_with_padding number width f).cursor
      ≡ f.cursor
        + least
            (most width (2 + length (uint64_digits 64 number 16 [])))
            (length f.buffer - f.cursor)
unfolding append_hex_with_padding append_uint64
append_hex_with_padding-cursor number width f h =
    let digits = uint64_digits 64 number 16 [] in
    let g = append_string (codes "0x") f in
    let (prefix, same) = append_string-cursor (codes "0x") f h in
    let all = (append_string-cursor digits g (ground (arith, prefix, same))).0 in
    pad_to-cursor f.cursor width (length f.buffer - f.cursor)
      (least (2 + length digits) (length f.buffer - f.cursor)) (append_string digits g)
      (ground (arith, prefix, same, all)) (ground arith)
    ∙ ground arith
