-- ===== src/Prelude/Splice.antt =====
-- A text laid over a part of a buffer.
use Prim.Native.Nat.{ℕ, zero, suc, ◌+◌}
use mathlib.Core.Path.{◌≡◌, refl, sym, ap}
use mathlib.Core.List.{List, [], ◌∷◌, ◌++◌}
use native.Mathlib.Omega.{arith}
use ng_log.Prelude.Lists.{length, set}

-- `buffer` with `str` laid over it from the index `i` on, as far as it reaches
abbrev pub splice : List ℕ → ℕ → List ℕ → List ℕ
splice [] i str = []
splice (b ∷ bs) zero [] = b ∷ bs
splice (b ∷ bs) zero (c ∷ cs) = c ∷ splice bs zero cs
splice (b ∷ bs) (suc i) str = b ∷ splice bs i str

pub splice-nil : (buffer : List ℕ) (i : ℕ) → splice buffer i [] ≡ buffer
splice-nil [] i = refl
splice-nil (b ∷ bs) zero = refl
splice-nil (b ∷ bs) (suc i) = ap (λ (l : List ℕ). b ∷ l) (splice-nil bs i)

pub splice-set :
    (buffer : List ℕ) (i c : ℕ) (cs : List ℕ)
    → splice (set buffer i c) (suc i) cs ≡ splice buffer i (c ∷ cs)
splice-set [] i c cs = refl
splice-set (b ∷ bs) zero c cs = refl
splice-set (b ∷ bs) (suc i) c cs = ap (λ (l : List ℕ). b ∷ l) (splice-set bs i c cs)

pub set-splice :
    (buffer : List ℕ) (i k c : ℕ) (str : List ℕ)
    → k ≡ i + length str
    → set (splice buffer i str) k c ≡ splice buffer i (str ++ (c ∷ []))
set-splice [] i k c str e = refl
set-splice (b ∷ bs) zero zero c [] e = ap (λ (l : List ℕ). c ∷ l) (sym (splice-nil bs zero))
set-splice (b ∷ bs) zero (suc k) c [] e = absurd (omega arith)
set-splice (b ∷ bs) zero zero c (d ∷ str) e = absurd (omega arith)
set-splice (b ∷ bs) zero (suc k) c (d ∷ str) e =
    ap (λ (l : List ℕ). d ∷ l) (set-splice bs zero k c str (omega arith))
set-splice (b ∷ bs) (suc i) zero c str e = absurd (omega arith)
set-splice (b ∷ bs) (suc i) (suc k) c str e =
    ap (λ (l : List ℕ). b ∷ l) (set-splice bs i k c str (omega arith))
