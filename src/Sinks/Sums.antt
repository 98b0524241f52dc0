-- ===== src/Sinks/Sums.antt =====
-- logging.cc: sums over the threads, which the counts of the sinks are.
use ng_log.Prelude.{
  ℕ, zero, suc, ◌+◌, ◌≡◌, ◌≢◌, ◌≤◌, ◌<◌, refl, ◌⊎◌, inl, inr, arith, ◌==◌, Bool-cases, ==_iff,
}

unfoldable pub sum : ℕ → (ℕ → ℕ) → ℕ
sum zero f = 0
sum (suc n) f = sum n f + f n

pub sum-same : (n : ℕ) (f g : ℕ → ℕ) → ((i : ℕ) → i < n → g i ≡ f i) → sum n g ≡ sum n f
unfolding sum
sum-same zero f g h = refl
sum-same (suc n) f g h = omega (arith, sum-same n f g (λ i l. h i (omega arith)), h n (omega arith))

-- Two sums that differ at one place.
pub sum-one :
    (n k : ℕ) (f g : ℕ → ℕ) → k < n → ((i : ℕ) → i ≢ k → g i ≡ f i) → sum n g + f k ≡ sum n f + g k
unfolding sum
sum-one zero k f g l h = absurd (omega arith)
sum-one (suc n) k f g l h = elim (Bool-cases (k == n)) [
  | inl e ↦
      let e' = (==_iff k n).0 e in
      let same = sum-same n f g (λ i m. h i (λ q. omega arith)) in rw e' (omega arith)
  | inr e ↦ omega (arith, sum-one n k f g (ground arith) h, h n (λ q. ground arith))
]

pub term-le-sum : (n k : ℕ) (f : ℕ → ℕ) → k < n → f k ≤ sum n f
unfolding sum
term-le-sum zero k f l = absurd (omega arith)
term-le-sum (suc n) k f l = elim (Bool-cases (k == n)) [
  | inl e ↦ rw ((==_iff k n).0 e) (omega arith)
  | inr e ↦ omega (arith, term-le-sum n k f (ground arith))
]

pub sum-le : (n : ℕ) (f g : ℕ → ℕ) → ((i : ℕ) → i < n → g i ≤ f i) → sum n g ≤ sum n f
unfolding sum
sum-le zero f g h = omega arith
sum-le (suc n) f g h = omega (arith, sum-le n f g (λ i l. h i (omega arith)), h n (omega arith))

-- Equal sums of terms that are in order have equal terms.
pub sum-equal :
    (n : ℕ) (f g : ℕ → ℕ)
    → ((i : ℕ) → i < n → g i ≤ f i)
    → sum n f ≡ sum n g
    → (k : ℕ) → k < n
    → f k ≡ g k
unfolding sum
sum-equal zero f g h e k l = absurd (omega arith)
sum-equal (suc n) f g h e k l = elim (Bool-cases (k == n)) [
  | inl q ↦
      let rest = sum-le n f g (λ i m. h i (omega arith)) in
      let last = h n (omega arith) in rw ((==_iff k n).0 q) (omega arith)
  | inr q ↦
      let rest = sum-le n f g (λ i m. h i (omega arith)) in
      let last = h n (omega arith) in
      sum-equal n f g (λ i m. h i (omega arith)) (omega arith) k (ground arith)
]

-- Either a term of the one is larger, or all are equal.
pub larger-or-equal :
    (n : ℕ) (f g : ℕ → ℕ)
    → ((i : ℕ) → i < n → g i ≤ f i)
    → ((k : ℕ) × (k < n) × (g k < f k)) ⊎ ((k : ℕ) → k < n → f k ≡ g k)
larger-or-equal zero f g h = inr (λ k l. absurd (omega arith))
larger-or-equal (suc n) f g h = elim (Bool-cases (f n == g n)) [
  | inl e ↦ elim (larger-or-equal n f g (λ i l. h i (omega arith))) [
    | inl (k, l, m) ↦ inl (k, omega arith, m)
    | inr all ↦ inr (λ k l. elim (Bool-cases (k == n)) [
      | inl q ↦ rw ((==_iff k n).0 q) (ground arith)
      | inr q ↦ all k (ground arith)
    ])
  ]
  | inr e ↦ let last = h n (omega arith) in inl (n, omega arith, ground arith)
]

pub sum-zero : (n : ℕ) → sum n (λ i. 0) ≡ 0
unfolding sum
sum-zero zero = refl
sum-zero (suc n) = omega (arith, sum-zero n)
