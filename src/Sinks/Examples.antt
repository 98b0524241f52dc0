-- ===== src/Sinks/Examples.antt =====
-- logging.cc: runs of threads that remove sinks, and the witnesses.
use ng_log.Prelude.{ℕ, ◌≡◌, ◌≤◌, ◌<◌, refl, ◌⊎◌, arith, contains}
use ng_log.Sinks.Registry.{
  waits, Registry, add_log_sink, erase_log_sink, begin_sink_call, start_wait, finish_wait, empty,
  erases, starts_wait, adds, begins, SinkCallsEnded, Reachable, start, step,
}
use ng_log.Sinks.Calls.{wait_count, Counted}
use ng_log.Sinks.Counts.{Reachable-Counted}
use ng_log.Sinks.Removal.{here, removed-no_call, removed_inside-calls}
use ng_log.Sinks.Progress.{wait_progress}
use ng_log.Sinks.Deadlock.{Crossed, Later, Crossed-Later}
use ng_log.Sinks.Deadlock

abbrev one_sink : Registry
one_sink = add_log_sink 10 empty

abbrev two_sinks : Registry
two_sinks = add_log_sink 20 one_sink

-- Thread 0 removes a sink that nobody calls.
abbrev removed : Registry
removed = start_wait 0 10 (erase_log_sink 0 10 one_sink)

one_sink_run : Reachable 2 one_sink
one_sink_run = step start (adds 0 10 empty refl)

removed_run : Reachable 2 removed
unfolding add_log_sink erase_log_sink
removed_run =
    step (step one_sink_run (erases 0 10 one_sink (omega arith) refl))
      (starts_wait 0 10 (erase_log_sink 0 10 one_sink) (omega arith) refl)

-- Thread 0 removes the sink in a call of it.
abbrev called : Registry
called = begin_sink_call 0 10 one_sink

abbrev removed_inside : Registry
removed_inside = start_wait 0 10 (erase_log_sink 0 10 called)

removed_inside_run : Reachable 2 removed_inside
unfolding add_log_sink erase_log_sink begin_sink_call contains
removed_inside_run =
    step
      (step (step one_sink_run (begins 0 10 one_sink (omega arith) refl refl))
        (erases 0 10 called (omega arith) refl))
      (starts_wait 0 10 (erase_log_sink 0 10 called) (omega arith) refl)

-- Threads 0 and 1, in calls of the sinks 10 and 20, remove 20 and 10.
abbrev both_called : Registry
both_called = begin_sink_call 1 20 (begin_sink_call 0 10 two_sinks)

abbrev both_erased : Registry
both_erased = erase_log_sink 1 10 (erase_log_sink 0 20 both_called)

abbrev crossed : Registry
crossed = start_wait 1 10 (start_wait 0 20 both_erased)

crossed_run : Reachable 2 crossed
unfolding add_log_sink erase_log_sink begin_sink_call start_wait contains
crossed_run =
    step
      (step
        (step
          (step
            (step
              (step (step one_sink_run (adds 0 20 one_sink refl))
                (begins 0 10 two_sinks (omega arith) refl refl))
              (begins 1 20 (begin_sink_call 0 10 two_sinks) (omega arith) refl refl))
            (erases 0 20 both_called (omega arith) refl))
          (erases 1 10 (erase_log_sink 0 20 both_called) (omega arith) refl))
        (starts_wait 0 20 both_erased (omega arith) refl))
      (starts_wait 1 10 (start_wait 0 20 both_erased) (omega arith) refl)

crossed-Crossed : Crossed crossed 0 1 10 20
unfolding add_log_sink erase_log_sink begin_sink_call start_wait
crossed-Crossed = record {
  first = record { calls = omega arith; phase = refl };
  second = record { calls = omega arith; phase = refl };
}

Reachable-Counted_example : Counted 2 removed_inside
Reachable-Counted_example = Reachable-Counted removed_inside_run

removed-no_call_example : (finish_wait 0 10 0 removed).thread_counts 1 10 ≡ 0
unfolding add_log_sink erase_log_sink start_wait finish_wait contains
removed-no_call_example =
    removed-no_call 2 0 10 1 removed (finish_wait 0 10 0 removed) removed_run refl refl
      (omega arith) (here refl)

removed_inside-calls_example :
    (finish_wait 0 10 1 removed_inside).thread_counts 0 10 ≤ wait_count (removed_inside.phases 0) 10
unfolding add_log_sink erase_log_sink begin_sink_call start_wait finish_wait contains
removed_inside-calls_example =
    removed_inside-calls 2 0 10 0 0 removed_inside (finish_wait 0 10 1 removed_inside)
      removed_inside_run refl refl (omega arith) (here refl)

wait_progress_example :
    ((u : ℕ) × (u < 2)
      × (wait_count (removed_inside.phases u) 10 < removed_inside.thread_counts u 10))
    ⊎ ((u m : ℕ) × (u < 2)
        × (removed_inside.phases u ≡ waits 10 m)
        × SinkCallsEnded 10 m removed_inside)
unfolding add_log_sink erase_log_sink begin_sink_call start_wait
wait_progress_example = wait_progress 2 0 10 1 removed_inside removed_inside_run (omega arith) refl

Crossed-Later_example : Crossed crossed 0 1 10 20
Crossed-Later_example =
    Crossed-Later 2 0 1 10 20 crossed crossed crossed_run (omega arith) (omega arith)
      crossed-Crossed Deadlock.here
