-- ===== src/Sinks/Calls.antt =====
-- logging.cc: the counts of the calls of sinks, when a call begins or ends.
use ng_log.Prelude.{
  ℕ, ◌+◌, ◌-◌, ◌≡◌, ◌≢◌, ◌<◌, refl, sym, ap, ◌⊎◌, inl, inr, arith, ◌==◌, if◌then◌else◌, Bool-cases,
  ==_iff,
}
use ng_log.Sinks.Registry.{Phase, outside, erased, waits, waits_all, Registry, put, change}
use ng_log.Sinks.Sums.{sum, sum-one, term-le-sum}

-- The calls of a sink that a waiting thread made itself.
unfoldable pub wait_count : Phase → ℕ → ℕ
wait_count outside sink = 0
wait_count (erased s) sink = 0
wait_count (waits s n) sink = if s == sink then n else 0
wait_count waits_all sink = 0

-- Each count is the sum of what its threads have, and a waiting thread has what it found.
pub record Counted (threads : ℕ) (r : Registry) : Type 0 where
  pub counts : (sink : ℕ) → r.counts sink ≡ sum threads (λ t. r.thread_counts t sink)
  pub waiting : (sink : ℕ) → r.waiting sink ≡ sum threads (λ t. wait_count (r.phases t) sink)
  pub own : (thread sink n : ℕ) → r.phases thread ≡ waits sink n → n ≡ r.thread_counts thread sink

put_self {ℓ} : {A : Type ℓ} (k : ℕ) (v : A) (f : ℕ → A) → put k v f k ≡ v
put_self k v f = rw ((==_iff k k).1 refl) refl

put_other {ℓ} : {A : Type ℓ} (k i : ℕ) (v : A) (f : ℕ → A) → i ≢ k → put k v f i ≡ f i
put_other k i v f n = elim (Bool-cases (i == k)) [
  | inl e ↦ absurd (n ((==_iff i k).0 e))
  | inr e ↦ rw e refl
]

-- A change of one thread's counts moves the sum over the threads by as much.
sum-thread_counts :
    (threads thread sink : ℕ) (row : ℕ → ℕ) (counts : ℕ → ℕ → ℕ)
    → thread < threads
    → sum threads (λ t. put thread row counts t sink) + counts thread sink
      ≡ sum threads (λ t. counts t sink) + row sink
sum-thread_counts threads thread sink row counts l =
    let moved =
      sum-one threads thread (λ t. counts t sink) (λ t. put thread row counts t sink) l
        (λ i n. ap (λ (f : ℕ → ℕ). f sink) (put_other thread i row counts n)) in
    omega (arith, ap (λ (f : ℕ → ℕ). f sink) (put_self thread row counts))

pub sum-phases :
    (threads thread sink : ℕ) (p : Phase) (phases : ℕ → Phase)
    → thread < threads
    → sum threads (λ t. wait_count (put thread p phases t) sink) + wait_count (phases thread) sink
      ≡ sum threads (λ t. wait_count (phases t) sink) + wait_count p sink
sum-phases threads thread sink p phases l =
    let moved =
      sum-one threads thread (λ t. wait_count (phases t) sink)
        (λ t. wait_count (put thread p phases t) sink) l
        (λ i n. ap (λ q. wait_count q sink) (put_other thread i p phases n)) in
    omega (arith, ap (λ q. wait_count q sink) (put_self thread p phases))

-- A thread that leaves no wait and enters none.
unwaiting :
    (threads thread : ℕ) (p : Phase) (r : Registry)
    → thread < threads
    → ((sink : ℕ) → wait_count (r.phases thread) sink ≡ 0)
    → ((sink : ℕ) → wait_count p sink ≡ 0)
    → Counted threads r
    → (sink : ℕ) → r.waiting sink ≡ sum threads (λ t. wait_count (put thread p r.phases t) sink)
unwaiting threads thread p r l before after h sink =
    omega
      (arith, h.waiting sink, before sink, after sink, sum-phases threads thread sink p r.phases l)

pub phase_own :
    (thread i sink n : ℕ) (p : Phase) (phases : ℕ → Phase) (counts : ℕ → ℕ → ℕ)
    → ((s m : ℕ) → p ≡ waits s m → m ≡ counts thread s)
    → ((j s m : ℕ) → phases j ≡ waits s m → m ≡ counts j s)
    → put thread p phases i ≡ waits sink n
    → n ≡ counts i sink
phase_own thread i sink n p phases counts h k = elim (Bool-cases (i == thread)) [
  | inl e ↦ let e' = (==_iff i thread).0 e in rw (e, e') (h sink n)
  | inr e ↦ rw e (k i sink n)
]

pub outside-zero : (p : Phase) → p ≡ outside → (sink : ℕ) → wait_count p sink ≡ 0
unfolding wait_count
outside-zero p e sink = rw e refl

pub erased-zero : (p : Phase) (s : ℕ) → p ≡ erased s → (sink : ℕ) → wait_count p sink ≡ 0
unfolding wait_count
erased-zero p s e sink = rw e refl

pub waits_all-zero : (p : Phase) → p ≡ waits_all → (sink : ℕ) → wait_count p sink ≡ 0
unfolding wait_count
waits_all-zero p e sink = rw e refl

pub change-cases :
    (k i : ℕ) (op f : ℕ → ℕ)
    → ((i ≡ k) × (change k op f i ≡ op (f i))) ⊎ ((i ≢ k) × (change k op f i ≡ f i))
change-cases k i op f = elim (Bool-cases (i == k)) [
  | inl e ↦ rw e (inl ((==_iff i k).0 e, refl))
  | inr e ↦ rw e (inr ((λ q. cc ((==_iff i k).1 q)), refl))
]

-- A step that only moves a thread between phases without a wait for calls.
pub move-Counted :
    (threads thread : ℕ) (p : Phase) (r r' : Registry)
    → thread < threads
    → ((sink : ℕ) → wait_count (r.phases thread) sink ≡ 0)
    → ((sink : ℕ) → wait_count p sink ≡ 0)
    → ((s m : ℕ) → p ≡ waits s m → ⊥)
    → r'.counts ≡ r.counts
    → r'.thread_counts ≡ r.thread_counts
    → r'.waiting ≡ r.waiting
    → r'.phases ≡ put thread p r.phases
    → Counted threads r
    → Counted threads r'
move-Counted threads thread p r r' l before after never c t w ph h = record {
  counts = rw (c, t) h.counts;
  waiting = rw (w, ph) (unwaiting threads thread p r l before after h);
  own =
      rw (ph, t)
        (λ i sink n e.
          phase_own thread i sink n p r.phases r.thread_counts (λ s m q. absurd (never s m q)) h.own
            e);
}

-- A call that begins or ends: `op` on the count of the sink and on the thread's own.
pub call-Counted :
    (threads thread sink : ℕ) (op : ℕ → ℕ) (r r' : Registry)
    → thread < threads
    → r.phases thread ≡ outside
    → ((a b c : ℕ) → a ≡ b + c → r.thread_counts thread sink ≡ c → op a ≡ b + op c)
    → r'.counts ≡ change sink op r.counts
    → r'.thread_counts ≡ put thread (change sink op (r.thread_counts thread)) r.thread_counts
    → r'.waiting ≡ r.waiting
    → r'.phases ≡ r.phases
    → Counted threads r
    → Counted threads r'
call-Counted threads thread sink op r r' l out shift c t w ph h = record {
  counts = λ s. rw (c, t) (moved s);
  waiting = rw (w, ph) h.waiting;
  own =
      rw (ph, t)
        (λ i s n e. elim (Bool-cases (i == thread)) [
          | inl q ↦ let e' : r.phases thread ≡ waits s n = rw (sym ((==_iff i thread).0 q)) e in cc
          | inr q ↦ rw q (h.own i s n e)
        ]);
}
  where
    row : ℕ → ℕ
    row = change sink op (r.thread_counts thread)

    moved :
        (s : ℕ) → change sink op r.counts s ≡ sum threads (λ t. put thread row r.thread_counts t s)
    moved s =
        let total = sum-thread_counts threads thread s row r.thread_counts l in
        let own_term = term-le-sum threads thread (λ t. r.thread_counts t s) l in
        let count = h.counts s in
        elim (change-cases sink s op r.counts) [
          | inr (n, e) ↦ elim (change-cases sink s op (r.thread_counts thread)) [
            | inl (q, _) ↦ absurd (n q)
            | inr (_, e') ↦ omega arith
          ]
          | inl (q, e) ↦ elim (change-cases sink s op (r.thread_counts thread)) [
            | inr (n, _) ↦ absurd (n q)
            | inl (_, e') ↦
                let shifted =
                  shift (r.counts s) (r.counts s - r.thread_counts thread s)
                    (r.thread_counts thread s) (omega arith) (rw q refl) in
                omega arith
          ]
        ]
