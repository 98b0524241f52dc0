-- ===== src/Sinks/Progress.antt =====
-- logging.cc: threads that remove a sink do not wait for one another.
use ng_log.Prelude.{ℕ, zero, suc, ◌≡◌, ◌<◌, ◌⊎◌, inl, inr, arith, ==_iff}
use ng_log.Sinks.Registry.{
  Phase, outside, erased, waits, waits_all, Registry, SinkCallsEnded, Reachable,
}
use ng_log.Sinks.Sums.{sum-same, sum-zero, larger-or-equal}
use ng_log.Sinks.Calls.{wait_count, Counted}
use ng_log.Sinks.Counts.{Reachable-Counted}
use ng_log.Sinks.Removal.{wait_count-le}

-- A phase in which calls were found is a wait for the sink.
counting : (p : Phase) (sink : ℕ) → 0 < wait_count p sink → (n : ℕ) × (p ≡ waits sink (suc n))
unfolding wait_count
counting outside sink h = absurd (omega arith)
counting (erased s) sink h = absurd (omega arith)
counting waits_all sink h = absurd (omega arith)
counting (waits s zero) sink h = absurd (ground arith)
counting (waits s (suc n)) sink h = (n, ground (arith, ==_iff s sink))

-- Where all calls of a sink are of threads that wait for it, the wait of one of them can end.
some_waiter :
    {threads : ℕ} (thread sink n : ℕ) (r : Registry)
    → Counted threads r
    → thread < threads
    → r.phases thread ≡ waits sink n
    → ((u : ℕ) → u < threads → r.thread_counts u sink ≡ wait_count (r.phases u) sink)
    → r.counts sink ≡ r.waiting sink
    → (u m : ℕ) × (u < threads) × (r.phases u ≡ waits sink m) × SinkCallsEnded sink m r
some_waiter thread sink (suc n) r h l e all same = (thread, suc n, l, e, same)
some_waiter {threads} thread sink zero r h l e all same =
    elim (larger-or-equal threads (λ t. r.thread_counts t sink) (λ t. 0) (λ t k. omega arith)) [
      | inl (u, k, m) ↦
          let (i, w) = counting (r.phases u) sink (omega (arith, all u k)) in (u, suc i, k, w, same)
      | inr none_left ↦
          let empty_sum = sum-same threads (λ t. 0) (λ t. r.thread_counts t sink) none_left in
          (thread, zero, l, e, omega (arith, h.counts sink, sum-zero threads))
    ]

-- While a thread waits for the calls of a sink to end, some thread is in a call of it and does not
-- wait for it, or the wait of some thread for this sink can end.
pub wait_progress :
    (threads thread sink n : ℕ) (r : Registry)
    → Reachable threads r
    → thread < threads
    → r.phases thread ≡ waits sink n
    → ((u : ℕ) × (u < threads) × (wait_count (r.phases u) sink < r.thread_counts u sink))
      ⊎ ((u m : ℕ) × (u < threads) × (r.phases u ≡ waits sink m) × SinkCallsEnded sink m r)
wait_progress threads thread sink n r run l e =
    let h = Reachable-Counted run in
    elim (larger-or-equal threads (λ t. r.thread_counts t sink) (λ t. wait_count (r.phases t) sink)
      (λ t k. wait_count-le r h t sink)) [
        | inl found ↦ inl found
        | inr all ↦
            let same =
              sum-same threads (λ t. wait_count (r.phases t) sink) (λ t. r.thread_counts t sink)
                all in
            inr
              (some_waiter thread sink n r h l e all (omega (arith, h.counts sink, h.waiting sink)))
      ]
