-- ===== src/Throttle/FirstOnes.antt =====
-- experimental/attributes.cc: `FirstCount` logs the first n occurrences.
use ng_log.Prelude.{ℕ, ◌+◌, ◌≡◌, ◌≤◌, refl, inl, inr, Option, none, some, arith, ◌==◌, Bool-cases}
use ng_log.Throttle.Counts.{
  Counter, put_read, load, exchange, leave, First, start, loads, refuses, succeeds,
}

-- What was read is not past the counter.
abbrev Below : Option ℕ → ℕ → Type 0
Below none value = Unit {0}
Below (some r) value = r ≤ value

Below-mono : (r : Option ℕ) (a b : ℕ) → a ≤ b → Below r a → Below r b
Below-mono none a b l h = tt
Below-mono (some r) a b l h = omega arith

put_read-Below :
    (thread i value : ℕ) (r : Option ℕ) (reads : ℕ → Option ℕ)
    → Below r value
    → ((j : ℕ) → Below (reads j) value)
    → Below (put_read thread r reads i) value
unfolding put_read
put_read-Below thread i value r reads h k = elim (Bool-cases (i == thread)) [
  | inl e ↦ rw e h
  | inr e ↦ rw e (k i)
]

record Counted (n : ℕ) (c : Counter) (refused logged : ℕ) : Type 0 where
  counts : logged ≡ c.value
  bound : c.value ≤ n
  reads : (i : ℕ) → Below (c.read i) c.value
  full : 1 ≤ refused → n ≤ c.value

First-Counted :
    {n refused logged : ℕ} {c : Counter} → First n c refused logged → Counted n c refused logged
unfolding load exchange leave
First-Counted start = record {
  counts = refl;
  bound = omega arith;
  reads = λ i. tt;
  full = λ h. absurd (omega arith);
}
First-Counted (loads thread {c} r) =
    let h = First-Counted r in
    record {
      counts = h.counts;
      bound = h.bound;
      reads = λ i. put_read-Below thread i c.value (some c.value) c.read (omega arith) h.reads;
      full = h.full;
    }
First-Counted (refuses thread current {c} r e l) =
    let h = First-Counted r in
    record {
      counts = h.counts;
      bound = h.bound;
      reads = λ i. put_read-Below thread i c.value none c.read tt h.reads;
      full = λ k. omega (arith, l, was_read e (h.reads thread));
    }
  where
    was_read : c.read thread ≡ some current → Below (c.read thread) c.value → current ≤ c.value
    was_read e = rw e (λ b. b)
First-Counted (succeeds thread {c} r e l) =
    let h = First-Counted r in
    record {
      counts = omega (arith, h.counts);
      bound = omega arith;
      reads = λ i.
          put_read-Below thread i (c.value + 1) none c.read tt
            (λ j. Below-mono (c.read j) c.value (c.value + 1) (omega arith) (h.reads j));
      full = λ k. omega (arith, h.full k);
    }

-- However the threads' loads and exchanges interleave, at most n calls of `FirstCount` returned
-- true, and once one returned false, exactly n had.
pub first_count_logged :
    (n refused logged : ℕ) (c : Counter)
    → First n c refused logged
    → (logged ≤ n) × (1 ≤ refused → logged ≡ n)
first_count_logged n refused logged c r =
    let h = First-Counted r in
    (omega (arith, h.counts, h.bound), λ k. omega (arith, h.counts, h.bound, h.full k))
