-- ===== src/Async/Examples.antt =====
-- experimental/async.cc: the theorems on a short run.
use ng_log.Prelude.{◌≡◌, ◌≤◌, inl, refl, [], ◌∷◌, ◌++◌, arith}
use ng_log.Async.LogThread.{
  Message, LogThread, max_pending_bytes, created, enqueue, take_front, send_taken, finish, Step,
  Reachable,
}
use ng_log.Async.Order.{bytes, delivery_order, pending_bytes_bound}
use ng_log.Async.Waiting.{Queued, wait_sent, enqueue_progress}

abbrev a : Message
a = record { number = 1; size = 5 }

abbrev b : Message
b = record { number = 2; size = 7 }

-- Two messages were passed, and the first of them is being sent.
abbrev busy : LogThread
busy = take_front a (b ∷ []) (enqueue b (enqueue a created))

busy-Reachable : Reachable busy
unfolding take_front enqueue
busy-Reachable =
    Reachable.step
      (Reachable.step (Reachable.step Reachable.start (Step.enqueues a created (omega arith) refl))
        (Step.enqueues b (enqueue a created) (omega arith) refl))
      (Step.takes a (b ∷ []) (enqueue b (enqueue a created)) refl refl)

-- One message was passed and sent.
abbrev idle : LogThread
idle = finish (send_taken a (take_front a [] (enqueue a created)))

idle-Reachable : Reachable idle
unfolding take_front enqueue send_taken finish
idle-Reachable =
    Reachable.step
      (Reachable.step
        (Reachable.step
          (Reachable.step Reachable.start (Step.enqueues a created (omega arith) refl))
          (Step.takes a [] (enqueue a created) refl refl))
        (Step.sends_taken a (take_front a [] (enqueue a created)) refl))
      (Step.finishes (send_taken a (take_front a [] (enqueue a created))) refl)

delivery_order_example : busy.passed ≡ [] ++ ((a ∷ []) ++ ([] ++ (b ∷ [])))
unfolding take_front enqueue
delivery_order_example = delivery_order busy busy-Reachable

pending_bytes_bound_example :
    (busy.pending_bytes ≡ bytes busy.queue) × (busy.pending_bytes ≤ max_pending_bytes)
pending_bytes_bound_example = pending_bytes_bound busy busy-Reachable

wait_sent_example : idle.delivered ≡ idle.passed
unfolding take_front enqueue send_taken finish
wait_sent_example = wait_sent idle idle-Reachable refl (inl (refl, refl))

abbrev full : Message
full = record { number = 3; size = max_pending_bytes }

enqueue_progress_example : Queued busy full
unfolding take_front enqueue
enqueue_progress_example = enqueue_progress busy full busy-Reachable refl (omega arith)
