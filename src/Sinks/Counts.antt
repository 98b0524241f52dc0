-- ===== src/Sinks/Counts.antt =====
-- logging.cc: what the counts of the sink calls count.
use ng_log.Prelude.{
  ℕ, ◌+◌, ◌-◌, ◌≡◌, ◌≢◌, ◌<◌, refl, sym, ap, inl, inr, arith, ◌==◌, Bool-cases, ==_iff,
}
use ng_log.Sinks.Registry.{
  outside, erased, waits, waits_all, Registry, empty, add_log_sink, erase_log_sink, begin_sink_call,
  end_sink_call, start_wait, finish_wait, clear_sinks, finish_wait_all, Step, adds, erases,
  starts_wait, finishes_wait, begins, ends, clears, finishes_wait_all, Reachable, start, step,
}
use ng_log.Sinks.Sums.{sum-zero}
use ng_log.Sinks.Calls.{
  wait_count, Counted, sum-phases, phase_own, outside-zero, erased-zero, waits_all-zero,
  change-cases, move-Counted, call-Counted,
}

waits_self : (sink s n : ℕ) → s ≡ sink → wait_count (waits sink n) s ≡ n
unfolding wait_count
waits_self sink s n q = rw ((==_iff sink s).1 (sym q)) refl

waits_other : (sink s n : ℕ) → s ≢ sink → wait_count (waits sink n) s ≡ 0
unfolding wait_count
waits_other sink s n q = elim (Bool-cases (sink == s)) [
  | inl e ↦ absurd (q (sym ((==_iff sink s).0 e)))
  | inr e ↦ rw e refl
]

start_wait-Counted :
    (threads thread sink : ℕ) (r : Registry)
    → thread < threads
    → r.phases thread ≡ erased sink
    → Counted threads r
    → Counted threads (start_wait thread sink r)
unfolding start_wait
start_wait-Counted threads thread sink r l e h = record {
  counts = h.counts;
  waiting = λ s.
      let total = sum-phases threads thread s (waits sink n) r.phases l in
      let before = erased-zero (r.phases thread) sink e s in
      let count = h.waiting s in
      elim (change-cases sink s (λ m. m + n) r.waiting) [
        | inl (q, c) ↦ let after = waits_self sink s n q in omega arith
        | inr (q, c) ↦ let after = waits_other sink s n q in omega arith
      ];
  own = λ i s m. phase_own thread i s m (waits sink n) r.phases r.thread_counts (λ t k q. cc) h.own;
}
  where
    n : ℕ
    n = r.thread_counts thread sink

finish_wait-Counted :
    (threads thread sink n : ℕ) (r : Registry)
    → thread < threads
    → r.phases thread ≡ waits sink n
    → Counted threads r
    → Counted threads (finish_wait thread sink n r)
unfolding finish_wait
finish_wait-Counted threads thread sink n r l e h = record {
  counts = h.counts;
  waiting = λ s.
      let total = sum-phases threads thread s outside r.phases l in
      let after = outside-zero outside refl s in
      let before = ap (λ p. wait_count p s) e in
      let count = h.waiting s in
      elim (change-cases sink s (λ m. m - n) r.waiting) [
        | inl (q, c) ↦ let own_count = waits_self sink s n q in omega arith
        | inr (q, c) ↦ let own_count = waits_other sink s n q in omega arith
      ];
  own = λ i s m. phase_own thread i s m outside r.phases r.thread_counts (λ t k q. cc) h.own;
}

pub Step-Counted :
    {threads : ℕ} {r r' : Registry} → Step threads r r' → Counted threads r → Counted threads r'
unfolding add_log_sink erase_log_sink begin_sink_call end_sink_call clear_sinks finish_wait_all
Step-Counted (adds thread sink r e) h = record {
  counts = h.counts;
  waiting = h.waiting;
  own = h.own;
}
Step-Counted {threads} (erases thread sink r l e) h =
    move-Counted threads thread (erased sink) r _ l (outside-zero (r.phases thread) e)
      (erased-zero (erased sink) sink refl) (λ s m q. cc) refl refl refl refl h
Step-Counted {threads} (starts_wait thread sink r l e) h =
    start_wait-Counted threads thread sink r l e h
Step-Counted {threads} (finishes_wait thread sink n r l e c) h =
    finish_wait-Counted threads thread sink n r l e h
Step-Counted {threads} (begins thread sink r l e c) h =
    call-Counted threads thread sink (λ n. n + 1) r _ l e (λ a b m p q. omega arith) refl refl refl
      refl h
Step-Counted {threads} (ends thread sink r l e c) h =
    call-Counted threads thread sink (λ n. n - 1) r _ l e (λ a b m p q. omega arith) refl refl refl
      refl h
Step-Counted {threads} (clears thread r l e) h =
    move-Counted threads thread waits_all r _ l (outside-zero (r.phases thread) e)
      (waits_all-zero waits_all refl) (λ s m q. cc) refl refl refl refl h
Step-Counted {threads} (finishes_wait_all thread r l e c) h =
    move-Counted threads thread outside r _ l (waits_all-zero (r.phases thread) e)
      (outside-zero outside refl) (λ s m q. cc) refl refl refl refl h

empty-Counted : (threads : ℕ) → Counted threads empty
unfolding wait_count
empty-Counted threads = record {
  counts = λ sink. sym (sum-zero threads);
  waiting = λ sink. sym (sum-zero threads);
  own = λ thread sink n e. cc;
}

-- In every run `sink_call_counts_` has the calls of each sink that its threads make, and
-- `sink_waiting_call_counts_` those of the threads that wait for its calls to end.
pub Reachable-Counted : {threads : ℕ} {r : Registry} → Reachable threads r → Counted threads r
Reachable-Counted {threads} start = empty-Counted threads
Reachable-Counted (step run s) = Step-Counted s (Reachable-Counted run)
