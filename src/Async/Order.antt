-- ===== src/Async/Order.antt =====
-- experimental/async.cc: the messages are sent in the order in which they were passed.
use ng_log.Prelude.{
  ℕ, ◌+◌, ◌≡◌, ◌≤◌, refl, sym, ap, ◌∙◌, Bool, true, false, List, [], ◌∷◌, ◌++◌, arith, inl, inr,
  Bool-cases,
}
use ng_log.Async.LogThread.{
  Message, Logger, waits, sends, sent, LogThread, max_pending_bytes, enqueue, send_direct,
  take_front, send_taken, finish, stop, send_remaining, fork_child, Step, enqueues, sends_direct,
  sends_inside, takes, sends_taken, finishes, stops, stops_inside, sends_remaining, forks,
  Reachable, start, step,
}

abbrev pub bytes : List Message → ℕ
bytes [] = 0
bytes (m ∷ ms) = m.size + bytes ms

-- The message that was taken and is not sent yet.
abbrev pub in_flight : Logger → List Message
in_flight waits = []
in_flight (sends m) = m ∷ []
in_flight sent = []

bytes-append : (x y : List Message) → bytes (x ++ y) ≡ bytes x + bytes y
bytes-append [] y = omega arith
bytes-append (m ∷ x) y = omega (arith, bytes-append x y)

append_assoc : (x y z : List Message) → (x ++ y) ++ z ≡ x ++ (y ++ z)
append_assoc [] y z = refl
append_assoc (m ∷ x) y z = ap (λ (l : List Message). m ∷ l) (append_assoc x y z)

pub append-nil : (x : List Message) → x ++ [] ≡ x
append-nil [] = refl
append-nil (m ∷ x) = ap (λ (l : List Message). m ∷ l) (append-nil x)

-- What is sent, what is being sent and what waits are the messages that were passed, in order. A
-- stopped thread has an empty queue, and only a stopped one has messages left over by `Stop`, with
-- none in flight.
pub record Ordered (t : LogThread) : Type 0 where
  pub order : t.passed ≡ t.delivered ++ (in_flight t.logger ++ (t.remaining ++ t.queue))
  pub counted : t.pending_bytes ≡ bytes t.queue
  pub bound : t.pending_bytes ≤ max_pending_bytes
  pub emptied : t.stopped ≡ true → t.queue ≡ []
  pub left_over : t.stopped ≡ false → t.remaining ≡ []
  pub landed : t.stopped ≡ true → in_flight t.logger ≡ []

differ : {b : Bool} → b ≡ true → b ≡ false → ⊥
differ h k = cc

-- The order after a message moved from the front of what waits to what was sent.
moved :
    (d : List Message) (m : Message) (rest : List Message)
    → d ++ (m ∷ rest) ≡ (d ++ (m ∷ [])) ++ rest
moved d m rest = sym (append_assoc d (m ∷ []) rest)

not_empty : (m : Message) (rest q : List Message) → q ≡ m ∷ rest → q ≡ [] → ⊥
not_empty m rest q e f = cc

not_stopped :
    (t : LogThread)
    → Ordered t
    → (m : Message) (rest : List Message) → t.queue ≡ m ∷ rest
    → t.stopped ≡ false
not_stopped t h m rest q = elim (Bool-cases t.stopped) [
  | inl e ↦ absurd (not_empty m rest t.queue q (h.emptied e))
  | inr e ↦ e
]

is_stopped :
    (t : LogThread)
    → Ordered t
    → (m : Message) (rest : List Message) → t.remaining ≡ m ∷ rest
    → t.stopped ≡ true
is_stopped t h m rest r = elim (Bool-cases t.stopped) [
  | inl e ↦ e
  | inr e ↦ absurd (not_empty m rest t.remaining r (h.left_over e))
]

front :
    (l : Logger) (r q : List Message) (m : Message) (rest : List Message)
    → l ≡ waits
    → r ≡ []
    → q ≡ m ∷ rest
    → in_flight l ++ (r ++ q) ≡ m ∷ (r ++ rest)
front l r q m rest e f g = rw e (rw f (rw g refl))

-- The order when `Stop` takes the queue.
left_behind :
    (t : LogThread)
    → t.stopped ≡ false
    → Ordered t
    → t.passed ≡ t.delivered ++ (in_flight t.logger ++ (t.queue ++ []))
left_behind t s h =
    h.order
    ∙ ap (λ x. t.delivered ++ (in_flight t.logger ++ x))
        (ap (λ x. x ++ t.queue) (h.left_over s) ∙ sym (append-nil t.queue))

Step-Ordered : {t t' : LogThread} → Step t t' → Ordered t → Ordered t'
unfolding enqueue send_direct take_front send_taken finish stop send_remaining fork_child
Step-Ordered (enqueues m t l s) h = record {
  order =
      ap (λ (x : List Message). x ++ (m ∷ [])) h.order
      ∙ append_assoc t.delivered _ (m ∷ [])
      ∙ ap (λ x. t.delivered ++ x)
          (append_assoc (in_flight t.logger) _ (m ∷ [])
            ∙ ap (λ x. in_flight t.logger ++ x) (append_assoc t.remaining t.queue (m ∷ [])));
  counted = omega (arith, bytes-append t.queue (m ∷ []), h.counted);
  bound = l;
  emptied = λ e. absurd (differ e s);
  left_over = h.left_over;
  landed = λ e. absurd (differ e s);
}
Step-Ordered (sends_direct m t s) h = record {
  order = h.order;
  counted = h.counted;
  bound = h.bound;
  emptied = h.emptied;
  left_over = h.left_over;
  landed = h.landed;
}
Step-Ordered (sends_inside m x t s) h = record {
  order = h.order;
  counted = h.counted;
  bound = h.bound;
  emptied = h.emptied;
  left_over = h.left_over;
  landed = h.landed;
}
Step-Ordered (takes m rest t l q) h =
    let running = not_stopped t h m rest q in
    record {
      order =
          h.order
          ∙ ap (λ x. t.delivered ++ x)
              (front t.logger t.remaining t.queue m rest l (h.left_over running) q);
      counted = omega (arith, h.counted, ap bytes q);
      bound = omega (arith, h.bound);
      emptied = λ e. absurd (differ e running);
      left_over = h.left_over;
      landed = λ e. absurd (differ e running);
    }
Step-Ordered (sends_taken m t l) h = record {
  order =
      h.order
      ∙ ap (λ x. t.delivered ++ (in_flight x ++ (t.remaining ++ t.queue))) l
      ∙ moved t.delivered m (t.remaining ++ t.queue);
  counted = h.counted;
  bound = h.bound;
  emptied = h.emptied;
  left_over = h.left_over;
  landed = λ e. refl;
}
Step-Ordered (finishes t l) h = record {
  order = h.order ∙ ap (λ x. t.delivered ++ (in_flight x ++ (t.remaining ++ t.queue))) l;
  counted = h.counted;
  bound = h.bound;
  emptied = h.emptied;
  left_over = h.left_over;
  landed = λ e. refl;
}
Step-Ordered (stops t s q l) h = record {
  order = left_behind t s h;
  counted = refl;
  bound = omega arith;
  emptied = λ e. refl;
  left_over = λ e. cc;
  landed = λ e. ap in_flight l;
}
Step-Ordered (stops_inside t s l) h = record {
  order = left_behind t s h;
  counted = refl;
  bound = omega arith;
  emptied = λ e. refl;
  left_over = λ e. cc;
  landed = λ e. ap in_flight l;
}
Step-Ordered (sends_remaining m rest t r) h =
    let stopped = is_stopped t h m rest r in
    record {
      order =
          h.order
          ∙ ap (λ x. t.delivered ++ (x ++ (t.remaining ++ t.queue))) (h.landed stopped)
          ∙ ap (λ x. t.delivered ++ (x ++ t.queue)) r
          ∙ moved t.delivered m (rest ++ t.queue)
          ∙ ap (λ x. (t.delivered ++ (m ∷ [])) ++ (x ++ (rest ++ t.queue)))
              (sym (h.landed stopped));
      counted = h.counted;
      bound = h.bound;
      emptied = h.emptied;
      left_over = λ e. absurd (differ stopped e);
      landed = h.landed;
    }
Step-Ordered (forks t) h = record {
  order = sym (append-nil t.delivered);
  counted = refl;
  bound = omega arith;
  emptied = λ e. refl;
  left_over = λ e. refl;
  landed = λ e. refl;
}

pub Reachable-Ordered : {t : LogThread} → Reachable t → Ordered t
Reachable-Ordered start = record {
  order = refl;
  counted = refl;
  bound = omega arith;
  emptied = λ e. refl;
  left_over = λ e. refl;
  landed = λ e. refl;
}
Reachable-Ordered (step r s) = Step-Ordered s (Reachable-Ordered r)

-- In every run, whatever the threads' order: the messages that the logging thread and `Stop` have
-- sent, the one that it is sending, the ones that `Stop` has left, and the queue are together the
-- messages that were passed, in the order in which they were passed.
pub delivery_order :
    (t : LogThread)
    → Reachable t
    → t.passed ≡ t.delivered ++ (in_flight t.logger ++ (t.remaining ++ t.queue))
delivery_order t r = (Reachable-Ordered r).order

-- In every run the bytes that count against the queue's capacity are those of the queued messages,
-- and never more than 8 MiB.
pub pending_bytes_bound :
    (t : LogThread)
    → Reachable t
    → (t.pending_bytes ≡ bytes t.queue) × (t.pending_bytes ≤ max_pending_bytes)
pending_bytes_bound t r = let h = Reachable-Ordered r in (h.counted, h.bound)
