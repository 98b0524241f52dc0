-- ===== src/Async/Waiting.antt =====
-- experimental/async.cc: what waiting for the logging thread achieves.
use ng_log.Prelude.{
  ◌≡◌, ◌≤◌, refl, sym, ap, ◌∙◌, true, false, List, [], ◌∷◌, ◌++◌, arith, ◌⊎◌, inl, inr,
}
use ng_log.Async.LogThread.{
  Message, Logger, waits, sends, sent, LogThread, max_pending_bytes, enqueue, take_front,
  send_taken, finish, Step, enqueues, sends_direct, sends_inside, takes, sends_taken, finishes,
  stops, stops_inside, sends_remaining, forks, Reachable, step,
}
use ng_log.Async.Order.{bytes, in_flight, append-nil, Ordered, Reachable-Ordered}

-- When the condition that `Wait` waits for holds, and `Stop` has sent what it took, every message
-- that was passed was sent, in order.
pub wait_sent :
    (t : LogThread)
    → Reachable t
    → t.remaining ≡ []
    → ((t.queue ≡ []) × (t.logger ≡ waits)) ⊎ (t.stopped ≡ true)
    → t.delivered ≡ t.passed
wait_sent t r left idle =
    let h = Reachable-Ordered r in
    sym (
      h.order
      ∙ ap (λ x. t.delivered ++ x)
          (nothing t.logger t.remaining t.queue (landed h idle) left (empty h idle))
      ∙ append-nil t.delivered)
  where
    Idle : Type 0
    Idle = ((t.queue ≡ []) × (t.logger ≡ waits)) ⊎ (t.stopped ≡ true)

    landed : Ordered t → Idle → in_flight t.logger ≡ []
    landed h (inl i) = ap in_flight i.1
    landed h (inr s) = h.landed s

    empty : Ordered t → Idle → t.queue ≡ []
    empty h (inl i) = i.0
    empty h (inr s) = h.emptied s

    nothing :
        (l : Logger) (r q : List Message)
        → in_flight l ≡ []
        → r ≡ []
        → q ≡ []
        → in_flight l ++ (r ++ q) ≡ []
    nothing l r q e f g = rw e (rw f (rw g refl))

-- The steps of the logging thread
abbrev pub OnLogger : {t t' : LogThread} → Step t t' → Type 0
OnLogger (enqueues m t fits running) = ⊥
OnLogger (sends_direct m t h) = ⊥
OnLogger (sends_inside m x t h) = ⊥
OnLogger (takes m rest t h q) = Unit {0}
OnLogger (sends_taken m t h) = Unit {0}
OnLogger (finishes t h) = Unit {0}
OnLogger (stops t s q l) = ⊥
OnLogger (stops_inside t s l) = ⊥
OnLogger (sends_remaining m rest t h) = ⊥
OnLogger (forks t) = ⊥

-- A run in which only the logging thread makes steps
pub data LoggerRun : LogThread → LogThread → Type 0 where
  done : (t : LogThread) → LoggerRun t t
  next : {t t' t'' : LogThread} (s : Step t t') → OnLogger s → LoggerRun t' t'' → LoggerRun t t''

-- The logging thread reaches a state in which the message is queued, and no
-- other message is passed on the way.
abbrev pub Queued : LogThread → Message → Type 0
Queued t m = (t' : LogThread) × LoggerRun t t' × Step t' (enqueue m t') × (t'.passed ≡ t.passed)

Queued-next :
    {t t' : LogThread} (m : Message) (s : Step t t')
    → OnLogger s
    → t'.passed ≡ t.passed
    → Queued t' m
    → Queued t m
Queued-next m s on same (last, run, queues, passed) = (last, next s on run, queues, passed ∙ same)

-- A round of `Run` from its message on, with what follows
Queued-sends :
    (x : Message) (t : LogThread) (m : Message)
    → t.logger ≡ sends x
    → Queued (finish (send_taken x t)) m
    → Queued t m
unfolding send_taken finish
Queued-sends x t m e q =
    Queued-next m (sends_taken x t e) tt refl
      (Queued-next m (finishes (send_taken x t) refl) tt refl q)

Queued-waits :
    (q : List Message) (t : LogThread) (m : Message)
    → Reachable t
    → t.stopped ≡ false
    → m.size ≤ max_pending_bytes
    → t.logger ≡ waits
    → t.queue ≡ q
    → Queued t m
unfolding take_front send_taken finish
Queued-waits [] t m r s size e f =
    let h = Reachable-Ordered r in
    (t, done t, enqueues m t (omega (arith, h.counted, ap bytes f)) s, refl)
Queued-waits (x ∷ rest) t m r s size e f =
    let taken = step r (takes x rest t e f) in
    let sent = step taken (sends_taken x (take_front x rest t) refl) in
    let finished = step sent (finishes (send_taken x (take_front x rest t)) refl) in
    Queued-next m (takes x rest t e f) tt refl (
      Queued-sends x (take_front x rest t) m refl (
        Queued-waits rest (finish (send_taken x (take_front x rest t))) m finished s size refl
          refl))

-- A caller whose message does not exceed the capacity need not wait for ever: while the program
-- runs, steps of the logging thread alone lead to a state in which the message is queued.
pub enqueue_progress :
    (t : LogThread) (m : Message)
    → Reachable t
    → t.stopped ≡ false
    → m.size ≤ max_pending_bytes
    → Queued t m
unfolding send_taken finish
enqueue_progress t m r s size = go t.logger refl
  where
    go : (l : Logger) → t.logger ≡ l → Queued t m
    go waits e = Queued-waits t.queue t m r s size e refl
    go sent e =
        Queued-next m (finishes t e) tt refl
          (Queued-waits t.queue (finish t) m (step r (finishes t e)) s size refl refl)
    go (sends x) e =
        let finished = step (step r (sends_taken x t e)) (finishes (send_taken x t) refl) in
        Queued-sends x t m e
          (Queued-waits t.queue (finish (send_taken x t)) m finished s size refl refl)
