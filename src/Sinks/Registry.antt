-- ===== src/Sinks/Registry.antt =====
-- logging.cc: `AddLogSink`, `RemoveLogSink`, `BeginSinkCall`, `EndSinkCall`, `WaitForSinkCalls` and
-- `DeleteLogDestinations` with `WaitForAllSinkCalls`. `sink_call_mutex_` makes each of their
-- critical sections one step. `LogToSinks` and `WaitForSinks` begin a call for each sink of a
-- snapshot, which may be of any earlier time, so a step may try any sink.
use ng_log.Prelude.{
  ℕ, zero, suc, ◌+◌, ◌-◌, ◌≡◌, ◌≤◌, ◌<◌, true, List, [], ◌∷◌, ◌++◌, ◌==◌, if◌then◌else◌, contains,
}

-- Where a thread is: in neither wait, in front of `WaitForSinkCalls` for a sink that it erased or in
-- its wait, with the calls of its own that it found, and in `WaitForAllSinkCalls`.
pub data Phase : Type 0 where
  outside : Phase
  erased : ℕ → Phase
  waits : ℕ → ℕ → Phase
  waits_all : Phase

-- A count of zero is a missing entry.
pub record Registry : Type 0 where
  pub sinks : List ℕ
  pub counts : ℕ → ℕ
  pub thread_counts : ℕ → ℕ → ℕ
  pub waiting : ℕ → ℕ
  pub phases : ℕ → Phase

abbrev pub put {ℓ} : {A : Type ℓ} → ℕ → A → (ℕ → A) → ℕ → A
put k v f i = if i == k then v else f i

abbrev pub change : ℕ → (ℕ → ℕ) → (ℕ → ℕ) → ℕ → ℕ
change k op f i = if i == k then op (f i) else f i

unfoldable pub erase : ℕ → List ℕ → List ℕ
erase sink [] = []
erase sink (x ∷ sinks) = if x == sink then erase sink sinks else x ∷ erase sink sinks

unfoldable pub add_log_sink : ℕ → Registry → Registry
add_log_sink sink r = record r { sinks = r.sinks ++ (sink ∷ []) }

-- The first part of `RemoveLogSink`
unfoldable pub erase_log_sink : ℕ → ℕ → Registry → Registry
unfolding erase
erase_log_sink thread sink r = record r {
  sinks = erase sink r.sinks;
  phases = put thread (erased sink) r.phases;
}

-- `BeginSinkCall` for a sink that is registered
unfoldable pub begin_sink_call : ℕ → ℕ → Registry → Registry
begin_sink_call thread sink r = record r {
  counts = change sink (λ n. n + 1) r.counts;
  thread_counts = put thread (change sink (λ n. n + 1) (r.thread_counts thread)) r.thread_counts;
}

unfoldable pub end_sink_call : ℕ → ℕ → Registry → Registry
end_sink_call thread sink r = record r {
  counts = change sink (λ n. n - 1) r.counts;
  thread_counts = put thread (change sink (λ n. n - 1) (r.thread_counts thread)) r.thread_counts;
}

-- `WaitForSinkCalls` up to its wait. A thread without calls of its own adds nothing.
unfoldable pub start_wait : ℕ → ℕ → Registry → Registry
start_wait thread sink r =
    let thread_count = r.thread_counts thread sink in
    record r {
      waiting = change sink (λ n. n + thread_count) r.waiting;
      phases = put thread (waits sink thread_count) r.phases;
    }

-- What `WaitForSinkCalls` waits for.
abbrev pub SinkCallsEnded : ℕ → ℕ → Registry → Type 0
SinkCallsEnded sink zero r = r.counts sink ≡ 0
SinkCallsEnded sink (suc thread_count) r = r.counts sink ≡ r.waiting sink

unfoldable pub finish_wait : ℕ → ℕ → ℕ → Registry → Registry
finish_wait thread sink thread_count r = record r {
  waiting = change sink (λ n. n - thread_count) r.waiting;
  phases = put thread outside r.phases;
}

-- `DeleteLogDestinations`, without the log files
unfoldable pub clear_sinks : ℕ → Registry → Registry
clear_sinks thread r = record r { sinks = []; phases = put thread waits_all r.phases }

unfoldable pub finish_wait_all : ℕ → Registry → Registry
finish_wait_all thread r = record r { phases = put thread outside r.phases }

abbrev pub empty : Registry
empty = record {
  sinks = [];
  counts = λ sink. 0;
  thread_counts = λ thread sink. 0;
  waiting = λ sink. 0;
  phases = λ thread. outside;
}

-- A step of one of so many threads.
pub data Step (threads : ℕ) : Registry → Registry → Type 0 where
  adds :
      (thread sink : ℕ) (r : Registry)
      → r.phases thread ≡ outside
      → Step threads r (add_log_sink sink r)
  erases :
      (thread sink : ℕ) (r : Registry)
      → thread < threads
      → r.phases thread ≡ outside
      → Step threads r (erase_log_sink thread sink r)
  starts_wait :
      (thread sink : ℕ) (r : Registry)
      → thread < threads
      → r.phases thread ≡ erased sink
      → Step threads r (start_wait thread sink r)
  finishes_wait :
      (thread sink thread_count : ℕ) (r : Registry)
      → thread < threads
      → r.phases thread ≡ waits sink thread_count
      → SinkCallsEnded sink thread_count r
      → Step threads r (finish_wait thread sink thread_count r)
  begins :
      (thread sink : ℕ) (r : Registry)
      → thread < threads
      → r.phases thread ≡ outside
      → contains r.sinks sink ≡ true
      → Step threads r (begin_sink_call thread sink r)
  ends :
      (thread sink : ℕ) (r : Registry)
      → thread < threads
      → r.phases thread ≡ outside
      → 1 ≤ r.thread_counts thread sink
      → Step threads r (end_sink_call thread sink r)
  clears :
      (thread : ℕ) (r : Registry)
      → thread < threads
      → r.phases thread ≡ outside
      → Step threads r (clear_sinks thread r)
  finishes_wait_all :
      (thread : ℕ) (r : Registry)
      → thread < threads
      → r.phases thread ≡ waits_all
      → ((sink : ℕ) → r.counts sink ≡ r.thread_counts thread sink)
      → Step threads r (finish_wait_all thread r)

pub data Reachable (threads : ℕ) : Registry → Type 0 where
  start : Reachable threads empty
  step : {r r' : Registry} → Reachable threads r → Step threads r r' → Reachable threads r'
