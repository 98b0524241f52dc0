-- ===== src/Sinks/Deadlock.antt =====
-- logging.cc: threads that remove each other's sinks.
use ng_log.Prelude.{
  ℕ, zero, suc, ◌+◌, ◌-◌, ◌≡◌, ◌≢◌, ◌≤◌, ◌<◌, refl, sym, ap, ◌∙◌, inl, inr, arith, ◌==◌, Bool-cases,
  ==_iff,
}
use ng_log.Sinks.Registry.{
  Phase, outside, erased, waits, waits_all, Registry, put, change, add_log_sink, erase_log_sink,
  begin_sink_call, end_sink_call, start_wait, finish_wait, clear_sinks, finish_wait_all, Step, adds,
  erases, starts_wait, finishes_wait, begins, ends, clears, finishes_wait_all, Reachable,
  SinkCallsEnded,
}
use ng_log.Sinks.Sums.{term-le-sum}
use ng_log.Sinks.Calls.{Counted}
use ng_log.Sinks.Counts.{Reachable-Counted, Step-Counted}

-- A thread in a call of `held` waits for all calls of `wanted`.
pub record Blocked (r : Registry) (thread held wanted : ℕ) : Type 0 where
  pub calls : 1 ≤ r.thread_counts thread held
  pub phase : r.phases thread ≡ waits wanted 0

-- Each of two threads waits for the call of the other one.
pub record Crossed (r : Registry) (t u a b : ℕ) : Type 0 where
  pub first : Blocked r t a b
  pub second : Blocked r u b a

-- What a step of another thread leaves.
moved :
    (thread held wanted i : ℕ) (p : Phase) (r : Registry) (counts : ℕ → ℕ → ℕ)
    → Blocked r thread held wanted
    → i ≢ thread
    → counts thread ≡ r.thread_counts thread
    → (1 ≤ counts thread held) × (put i p r.phases thread ≡ waits wanted 0)
moved thread held wanted i p r counts b n e = elim (Bool-cases (thread == i)) [
  | inl q ↦ absurd (n (sym ((==_iff thread i).0 q)))
  | inr q ↦ rw q (omega (arith, b.calls, ap (λ (f : ℕ → ℕ). f held) e), b.phase)
]

put_row :
    (thread i : ℕ) (row : ℕ → ℕ) (counts : ℕ → ℕ → ℕ)
    → i ≢ thread
    → put i row counts thread ≡ counts thread
put_row thread i row counts n = elim (Bool-cases (thread == i)) [
  | inl q ↦ absurd (n (sym ((==_iff thread i).0 q)))
  | inr q ↦ rw q refl
]

same_phase :
    {thread i : ℕ} {p q : Phase} (r : Registry)
    → (p ≡ q → ⊥)
    → r.phases thread ≡ p
    → r.phases i ≡ q
    → i ≢ thread
same_phase r n e f same = n (sym e ∙ ap r.phases (sym same) ∙ f)

not_cleared : (p : Phase) (b s n : ℕ) → p ≡ waits b 0 → p ≡ waits s n → (s ≡ b) × (n ≡ 0)
not_cleared p b s n e f = (cc, cc)

-- The wait of a blocked thread does not end while the other one is in its call.
Step-Blocked :
    {threads : ℕ} {r r' : Registry} (t u a b : ℕ)
    → Counted threads r
    → u < threads
    → Blocked r t a b
    → Blocked r u b a
    → Step threads r r'
    → Blocked r' t a b
unfolding add_log_sink erase_log_sink begin_sink_call end_sink_call start_wait finish_wait
    clear_sinks finish_wait_all
Step-Blocked t u a b h l x y (adds thread s r e) = record { calls = x.calls; phase = x.phase }
Step-Blocked t u a b h l x y (erases thread s r _ e) =
    let n = same_phase {thread = t} {i = thread} r (λ q. cc) x.phase e in
    let (c, p) = moved t a b thread (erased s) r r.thread_counts x n refl in
    record { calls = c; phase = p }
Step-Blocked t u a b h l x y (starts_wait thread s r _ e) =
    let n = same_phase {thread = t} {i = thread} r (λ q. cc) x.phase e in
    let (c, p) =
      moved t a b thread (waits s (r.thread_counts thread s)) r r.thread_counts x n refl in
    record { calls = c; phase = p }
Step-Blocked t u a b h l x y (clears thread r _ e) =
    let n = same_phase {thread = t} {i = thread} r (λ q. cc) x.phase e in
    let (c, p) = moved t a b thread waits_all r r.thread_counts x n refl in
    record { calls = c; phase = p }
Step-Blocked t u a b h l x y (finishes_wait_all thread r _ e _) =
    let n = same_phase {thread = t} {i = thread} r (λ q. cc) x.phase e in
    let (c, p) = moved t a b thread outside r r.thread_counts x n refl in
    record { calls = c; phase = p }
Step-Blocked t u a b h l x y (begins thread s r _ e _) =
    let n = same_phase {thread = t} {i = thread} r (λ q. cc) x.phase e in
    let row = put_row t thread (change s (λ k. k + 1) (r.thread_counts thread)) r.thread_counts n in
    record { calls = omega (arith, x.calls, ap (λ (f : ℕ → ℕ). f a) row); phase = x.phase }
Step-Blocked t u a b h l x y (ends thread s r _ e _) =
    let n = same_phase {thread = t} {i = thread} r (λ q. cc) x.phase e in
    let row = put_row t thread (change s (λ k. k - 1) (r.thread_counts thread)) r.thread_counts n in
    record { calls = omega (arith, x.calls, ap (λ (f : ℕ → ℕ). f a) row); phase = x.phase }
Step-Blocked {threads} t u a b h l x y (finishes_wait thread s n r _ e c) =
    elim (Bool-cases (thread == t)) [
      | inr q ↦
          let (k, p) =
            moved t a b thread outside r r.thread_counts x (λ z. cc ((==_iff thread t).1 z)) refl in
          record { calls = k; phase = p }
      | inl q ↦
          let (same, zero_count) =
            not_cleared (r.phases t) b s n x.phase
              (ap r.phases (sym ((==_iff thread t).0 q)) ∙ e) in
          absurd (waited s n same zero_count c)
    ]
  where
    waited : (s n : ℕ) → s ≡ b → n ≡ 0 → SinkCallsEnded s n r → ⊥
    waited s zero same z c =
        let found : r.counts b ≡ 0 = rw (sym same) c in
        omega (arith, h.counts b, term-le-sum threads u (λ k. r.thread_counts k b) l, y.calls)
    waited s (suc n) same z c = omega arith

-- Runs from a state.
pub data Later (threads : ℕ) (r : Registry) : Registry → Type 0 where
  here : Later threads r r
  next : {q q' : Registry} → Later threads r q → Step threads q q' → Later threads r q'

-- When two threads, each in a call of a sink, wait in RemoveLogSink for the calls of the other
-- one's sink, both wait forever.
pub Crossed-Later :
    (threads t u a b : ℕ) (r q : Registry)
    → Reachable threads r
    → t < threads
    → u < threads
    → Crossed r t u a b
    → Later threads r q
    → Crossed q t u a b
Crossed-Later threads t u a b r q run k l x later = (go later).0
  where
    go : {q : Registry} → Later threads r q → Crossed q t u a b × Counted threads q
    go here = (x, Reachable-Counted run)
    go (next before s) =
        let (y, h) = go before in
        (
          record {
            first = Step-Blocked t u a b h l y.first y.second s;
            second = Step-Blocked u t b a h k y.second y.first s;
          },
          Step-Counted s h,
        )
