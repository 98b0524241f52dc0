-- ===== src/Demangle/Appends.antt =====
-- demangle.cc: what `Append` leaves in the buffer.
use ng_log.Prelude.{
  splice, splice-nil, splice-set, set-splice, ℕ, suc, ◌+◌, ◌-◌, ◌≤◌, ◌<◌, ◌≡◌, refl, ◌∙◌, sym, ap,
  Bool, true, false, List, [], ◌∷◌, ◌++◌, arith, ltb, if◌then◌else◌, length, get_or, set, take, inl,
  inr, Bool-cases, ◌↔◌, length-set, ltb→lt,
}
use ng_log.Demangle.Machine.{Machine, with_state}
use ng_log.Demangle.Output.{text, read, overflow, put, terminate, append_from, append_text}

-- The machine with its output position and its buffer replaced.
abbrev pub with_output : Machine → ℕ → List ℕ → Machine
with_output m out_cur buffer = record {
  state = record m.state { out_cur = out_cur };
  buffer = buffer;
  steps_remaining = m.steps_remaining;
}

with_output-cong :
    (m : Machine) (i j : ℕ) (b c : List ℕ) → i ≡ j → b ≡ c → with_output m i b ≡ with_output m j c
with_output-cong m i j b c e f = cc

-- The machine behind a text that was written at the output position.
abbrev pub wrote : Machine → ℕ → List ℕ → Machine
wrote m size str = with_output m (m.out_cur + size) (splice m.buffer m.out_cur str)

wrote-nil : (m : Machine) → m ≡ wrote m 0 []
wrote-nil m = with_output-cong m _ _ _ _ (omega arith) (sym (splice-nil m.buffer m.out_cur))

wrote-cons :
    (m : Machine) (c size : ℕ) (cs : List ℕ) → wrote (put m c) size cs ≡ wrote m (suc size) (c ∷ cs)
unfolding put
wrote-cons m c size cs = with_output-cong m _ _ _ _ (omega arith) (
    ap (λ i. splice (set m.buffer m.out_cur c) i cs) (omega arith)
    ∙ splice-set m.buffer m.out_cur c cs)

-- `rest` is the text from the `i`th character on.
From : List ℕ → ℕ → List ℕ → Type 0
From str i rest = (j : ℕ) → get_or rest j 0 ≡ get_or str (i + j) 0

From-tail : (str : List ℕ) (i c : ℕ) (rest : List ℕ) → From str i (c ∷ rest) → From str (i + 1) rest
unfolding From
From-tail str i c rest h j = h (suc j) ∙ ap (λ k. get_or str k 0) (omega arith)

reads :
    (str : List ℕ) (i c : ℕ) (rest buffer : List ℕ)
    → From str i (c ∷ rest)
    → read (text str) buffer i ≡ c
unfolding From read
reads str i c rest buffer h = ap (λ k. get_or str k 0) (omega arith) ∙ sym (h 0)

put-room :
    (m : Machine) (c n : ℕ)
    → (m.out_cur + suc n < length m.buffer) ↔ ((put m c).out_cur + n < length (put m c).buffer)
unfolding put
put-room m c n = (
  λ h. omega (arith, length-set m.buffer m.out_cur c),
  λ h. omega (arith, length-set m.buffer m.out_cur c),
)

append_from-fits :
    (str : List ℕ) (i : ℕ) (rest : List ℕ) (m : Machine)
    → From str i rest
    → m.out_cur + length rest < length m.buffer
    → append_from (text str) i (length rest) m ≡ wrote m (length rest) rest
unfolding append_from
append_from-fits str i [] m f h = wrote-nil m
append_from-fits str i (c ∷ rest) m f h = elim (Bool-cases (ltb 1 (length m.buffer - m.out_cur))) [
  | inr full ↦ absurd (ground arith)
  | inl free ↦ rw free (
      ap (λ x. append_from (text str) (i + 1) (length rest) (put m x))
        (reads str i c rest m.buffer f)
      ∙ append_from-fits str (i + 1) rest (put m c) (From-tail str i c rest f)
          ((put-room m c (length rest)).0 h)
      ∙ wrote-cons m c (length rest) rest)
]

-- The room in front of the byte that is left for the null character.
abbrev pub room : Machine → ℕ
room m = length m.buffer - 1 - m.out_cur

as_overflowed : Machine → Machine
as_overflowed m = with_state m (record m.state { overflowed = true })

wrote_overflowed : Machine → List ℕ → Machine
wrote_overflowed m str = as_overflowed (wrote m (room m) (take (room m) str))

append_from-full :
    (str : List ℕ) (i : ℕ) (rest : List ℕ) (m : Machine)
    → From str i rest
    → m.out_cur < length m.buffer
    → length m.buffer ≤ m.out_cur + length rest
    → append_from (text str) i (length rest) m ≡ wrote_overflowed m rest
unfolding append_from
append_from-full str i [] m f w h = absurd (omega arith)
append_from-full str i (c ∷ rest) m f w h =
    elim (Bool-cases (ltb 1 (length m.buffer - m.out_cur))) [
      | inr full ↦ rw full (no_room (ground arith))
      | inl free ↦ rw free (
          ap (λ x. append_from (text str) (i + 1) (length rest) (put m x))
            (reads str i c rest m.buffer f)
          ∙ append_from-full str (i + 1) rest (put m c) (From-tail str i c rest f)
              (below (ltb→lt _ _ free)) (above h)
          ∙ one_more (ltb→lt _ _ free))
    ]
  where
    below : 1 < length m.buffer - m.out_cur → (put m c).out_cur < length (put m c).buffer
    below l = unfold put in omega (arith, length-set m.buffer m.out_cur c)

    above :
        length m.buffer ≤ m.out_cur + suc (length rest)
        → length (put m c).buffer ≤ (put m c).out_cur + length rest
    above l = unfold put in omega (arith, length-set m.buffer m.out_cur c)

    no_room : room m ≡ 0 → overflow m ≡ wrote_overflowed m (c ∷ rest)
    no_room e =
        unfold overflow wrote_overflowed as_overflowed in
        ap as_overflowed (wrote-nil m ∙ ap (λ k. wrote m k (take k (c ∷ rest))) (sym e))

    room-put : 1 < length m.buffer - m.out_cur → suc (room (put m c)) ≡ room m
    room-put l = unfold put in omega (arith, length-set m.buffer m.out_cur c)

    one_more :
        1 < length m.buffer - m.out_cur
        → wrote_overflowed (put m c) rest ≡ wrote_overflowed m (c ∷ rest)
    one_more l =
        unfold wrote_overflowed in
        ap as_overflowed (
          wrote-cons m c (room (put m c)) (take (room (put m c)) rest)
          ∙ ap (λ k. wrote m k (take k (c ∷ rest))) (room-put l))

From-start : (str : List ℕ) → From str 0 str
unfolding From
From-start str j = ap (λ k. get_or str k 0) (omega arith)

if_false : (b : Bool) (x y : Machine) → b ≡ false → (if b then x else y) ≡ y
if_false b x y h = rw h refl

terminated :
    (m : Machine) (written : Machine) (str : List ℕ)
    → written ≡ wrote m (length str) str
    → m.overflowed ≡ false
    → (if written.overflowed then written else terminate written)
      ≡ with_output m (m.out_cur + length str) (splice m.buffer m.out_cur (str ++ (0 ∷ [])))
unfolding terminate
terminated m written str e h =
    if_false written.overflowed written (terminate written)
      (ap (λ (x : Machine). x.overflowed) e ∙ h)
    ∙ ap terminate e
    ∙ with_output-cong m _ _ _ _ refl
        (set-splice m.buffer m.out_cur (m.out_cur + length str) 0 str refl)

-- Where the text and a null character fit behind the output position, and nothing overflowed
-- before, `Append` lays both over the buffer there, and moves the position past the text only; no
-- other byte and no other field of the state changes.
pub append_text-fits :
    (str : List ℕ) (m : Machine)
    → m.out_cur + length str < length m.buffer
    → m.overflowed ≡ false
    → append_text (text str) (length str) m
      ≡ with_output m (m.out_cur + length str) (splice m.buffer m.out_cur (str ++ (0 ∷ [])))
unfolding append_text
append_text-fits str m h o = terminated m _ str (append_from-fits str 0 str m (From-start str) h) o

kept_overflowed :
    (m written : Machine) (str : List ℕ)
    → written ≡ wrote_overflowed m str
    → (if written.overflowed then written else terminate written)
      ≡ with_state
          (wrote m (room m) (take (room m) str))
          (record m.state { out_cur = m.out_cur + room m; overflowed = true })
unfolding wrote_overflowed as_overflowed
kept_overflowed m written str e = rw e refl

-- Where the text does not fit, `Append` writes as much of it as leaves the buffer's last byte
-- alone, sets `overflowed`, and writes no null character.
pub append_text-full :
    (str : List ℕ) (m : Machine)
    → m.out_cur < length m.buffer
    → length m.buffer ≤ m.out_cur + length str
    → append_text (text str) (length str) m
      ≡ with_state
          (wrote m (room m) (take (room m) str))
          (record m.state { out_cur = m.out_cur + room m; overflowed = true })
unfolding append_text
append_text-full str m w h =
    kept_overflowed m _ str (append_from-full str 0 str m (From-start str) w h)
