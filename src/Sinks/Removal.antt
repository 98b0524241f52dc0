-- ===== src/Sinks/Removal.antt =====
-- logging.cc: after `RemoveLogSink` no call of the sink is left.
use ng_log.Prelude.{
  ℕ, zero, suc, ◌+◌, ◌-◌, ◌≡◌, ◌≤◌, ◌<◌, refl, sym, ap, ◌∙◌, inl, inr, true, false, List, [], ◌∷◌,
  arith, ◌==◌, Bool-cases, ==_iff, contains,
}
use ng_log.Sinks.Registry.{
  Phase, outside, erased, waits, waits_all, Registry, put, change, erase, add_log_sink,
  erase_log_sink, begin_sink_call, end_sink_call, start_wait, finish_wait, clear_sinks,
  finish_wait_all, SinkCallsEnded, Step, adds, erases, starts_wait, finishes_wait, begins, ends,
  clears, finishes_wait_all, Reachable,
}
use ng_log.Sinks.Sums.{sum-equal, term-le-sum}
use ng_log.Sinks.Calls.{wait_count, Counted}
use ng_log.Sinks.Counts.{Reachable-Counted}

pub wait_count-le :
    {threads : ℕ} (r : Registry)
    → Counted threads r
    → (thread sink : ℕ) → wait_count (r.phases thread) sink ≤ r.thread_counts thread sink
unfolding wait_count
wait_count-le r h thread sink = phase_count (r.phases thread) (h.own thread)
  where
    phase_count :
        (p : Phase)
        → ((s n : ℕ) → p ≡ waits s n → n ≡ r.thread_counts thread s)
        → wait_count p sink ≤ r.thread_counts thread sink
    phase_count outside own = omega arith
    phase_count (erased s) own = omega arith
    phase_count waits_all own = omega arith
    phase_count (waits s n) own = elim (Bool-cases (s == sink)) [
      | inl e ↦ rw (e, sym ((==_iff s sink).0 e)) (omega (arith, own s n refl))
      | inr e ↦ rw e (omega arith)
    ]

-- When the wait for a sink ends, each of its calls is of a thread that waits for it as well.
pub ended-calls :
    {threads : ℕ} (r : Registry) (sink n : ℕ)
    → Counted threads r
    → SinkCallsEnded sink n r
    → (u : ℕ) → u < threads
    → r.thread_counts u sink ≡ wait_count (r.phases u) sink
ended-calls {threads} r sink zero h ended u l = omega (
  arith,
  h.counts sink,
  term-le-sum threads u (λ t. r.thread_counts t sink) l,
  wait_count-le r h u sink,
)
ended-calls {threads} r sink (suc n) h ended u l =
    sum-equal threads (λ t. r.thread_counts t sink) (λ t. wait_count (r.phases t) sink)
      (λ t k. wait_count-le r h t sink) (omega (arith, h.counts sink, h.waiting sink)) u l

-- A run in which a sink is not registered.
pub data Unregistered (threads sink : ℕ) (r : Registry) : Registry → Type 0 where
  here : contains r.sinks sink ≡ false → Unregistered threads sink r r
  next :
      {q q' : Registry}
      → Unregistered threads sink r q
      → Step threads q q'
      → contains q'.sinks sink ≡ false
      → Unregistered threads sink r q'

pub contains-erase : (sink : ℕ) (sinks : List ℕ) → contains (erase sink sinks) sink ≡ false
unfolding erase contains
contains-erase sink [] = refl
contains-erase sink (x ∷ sinks) = elim (Bool-cases (x == sink)) [
  | inl e ↦ rw e (contains-erase sink sinks)
  | inr e ↦ rw (e, e) (contains-erase sink sinks)
]

Unregistered-last :
    {threads sink : ℕ} {r q : Registry}
    → Unregistered threads sink r q
    → contains q.sinks sink ≡ false
Unregistered-last (here e) = e
Unregistered-last (next run s e) = e

true-false : true ≡ false → ⊥
true-false h = cc

-- The calls of a thread after a change of one of its counts.
changed_count :
    (u thread sink s : ℕ) (op : ℕ → ℕ) (counts : ℕ → ℕ → ℕ)
    → (sink ≡ s → op (counts thread s) ≤ counts thread s)
    → put thread (change s op (counts thread)) counts u sink ≤ counts u sink
changed_count u thread sink s op counts h = elim (Bool-cases (u == thread)) [
  | inr e ↦ rw e (omega arith)
  | inl e ↦
      rw (e, (==_iff u thread).0 e)
        (elim (Bool-cases (sink == s)) [
          | inr q ↦ rw q (omega arith)
          | inl q ↦ let q' = (==_iff sink s).0 q in rw (q, q') (h q')
        ])
]

-- No call of a sink that is not registered begins.
Step-calls :
    {threads : ℕ} {r r' : Registry} (sink u : ℕ)
    → contains r.sinks sink ≡ false
    → Step threads r r'
    → r'.thread_counts u sink ≤ r.thread_counts u sink
unfolding add_log_sink erase_log_sink begin_sink_call end_sink_call start_wait finish_wait
    clear_sinks finish_wait_all
Step-calls sink u e (adds thread s r _) = omega arith
Step-calls sink u e (erases thread s r _ _) = omega arith
Step-calls sink u e (starts_wait thread s r _ _) = omega arith
Step-calls sink u e (finishes_wait thread s n r _ _ _) = omega arith
Step-calls sink u e (begins thread s r _ _ c) =
    changed_count u thread sink s (λ n. n + 1) r.thread_counts
      (λ q. absurd (true-false (sym c ∙ ap (contains r.sinks) (sym q) ∙ e)))
Step-calls sink u e (ends thread s r _ _ _) =
    changed_count u thread sink s (λ n. n - 1) r.thread_counts (λ q. omega arith)
Step-calls sink u e (clears thread r _ _) = omega arith
Step-calls sink u e (finishes_wait_all thread r _ _ _) = omega arith

Unregistered-calls :
    {threads sink : ℕ} {r q : Registry} (u : ℕ)
    → Unregistered threads sink r q
    → q.thread_counts u sink ≤ r.thread_counts u sink
Unregistered-calls u (here e) = omega arith
Unregistered-calls {sink = sink} u (next run s e) =
    omega (arith, Unregistered-calls u run, Step-calls sink u (Unregistered-last run) s)

-- When RemoveLogSink returns on a thread that made no call of the sink, no thread makes one, and
-- none does while the sink is not registered again.
pub removed-no_call :
    (threads thread sink u : ℕ) (r q : Registry)
    → Reachable threads r
    → r.phases thread ≡ waits sink 0
    → r.counts sink ≡ 0
    → u < threads
    → Unregistered threads sink (finish_wait thread sink 0 r) q
    → q.thread_counts u sink ≡ 0
unfolding finish_wait
removed-no_call threads thread sink u r q run e ended l later = omega (
  arith,
  Unregistered-calls u later,
  (Reachable-Counted run).counts sink,
  term-le-sum threads u (λ t. r.thread_counts t sink) l,
)

-- When RemoveLogSink returns in a call of the sink, and while the sink is not registered again, a
-- thread makes no other calls of the sink than those in which it waited for it itself.
pub removed_inside-calls :
    (threads thread sink n u : ℕ) (r q : Registry)
    → Reachable threads r
    → r.phases thread ≡ waits sink (suc n)
    → r.counts sink ≡ r.waiting sink
    → u < threads
    → Unregistered threads sink (finish_wait thread sink (suc n) r) q
    → q.thread_counts u sink ≤ wait_count (r.phases u) sink
unfolding finish_wait
removed_inside-calls threads thread sink n u r q run e ended l later = omega (
  arith,
  Unregistered-calls u later,
  ended-calls r sink (suc n) (Reachable-Counted run) ended u l,
)
