-- ===== src/Async/LogThread.antt =====
-- experimental/async.cc: `LogThread`. Its operations hold the lock, so a run is a sequence of their
-- critical sections and of the sends between them.
use ng_log.Prelude.{ℕ, ◌+◌, ◌-◌, ◌*◌, ◌≡◌, ◌≤◌, Bool, true, false, List, [], ◌∷◌, ◌++◌}

pub record Message : Type 0 where
  pub number : ℕ
  pub size : ℕ

-- Where the logging thread is in `Run`: it waits in `Take`, it sends a message, or it has sent it
-- and is in front of `Finish`.
pub data Logger : Type 0 where
  waits : Logger
  sends : Message → Logger
  sent : Logger

-- The members of `LogThread`, where its thread is, what `Stop` has left to send, and what
-- happened: the messages that `Enqueue` took, the ones of them that were sent, and the ones that
-- their own threads sent: on the logging thread, or after the program began to exit.
pub record LogThread : Type 0 where
  pub queue : List Message
  pub pending_bytes : ℕ
  pub logger : Logger
  pub stopped : Bool
  pub remaining : List Message
  pub passed : List Message
  pub delivered : List Message
  pub direct : List Message

abbrev pub max_pending_bytes : ℕ
max_pending_bytes = 8 * (1024 * 1024)

abbrev pub created : LogThread
created = record {
  queue = [];
  pending_bytes = 0;
  logger = waits;
  stopped = false;
  remaining = [];
  passed = [];
  delivered = [];
  direct = [];
}

-- `Enqueue`, once it need not wait
unfoldable pub enqueue : Message → LogThread → LogThread
enqueue m t = record t {
  queue = t.queue ++ (m ∷ []);
  pending_bytes = t.pending_bytes + m.size;
  passed = t.passed ++ (m ∷ []);
}

-- `Push` after `Enqueue` has refused the message
unfoldable pub send_direct : Message → LogThread → LogThread
send_direct m t = record t { direct = t.direct ++ (m ∷ []) }

-- `Take`, with the message in front of the queue
unfoldable pub take_front : Message → List Message → LogThread → LogThread
take_front m rest t = record t {
  queue = rest;
  pending_bytes = t.pending_bytes - m.size;
  logger = sends m;
}

-- `Send` on the logging thread
unfoldable pub send_taken : Message → LogThread → LogThread
send_taken m t = record t { logger = sent; delivered = t.delivered ++ (m ∷ []) }

unfoldable pub finish : LogThread → LogThread
finish t = record t { logger = waits }

-- The critical section of `Stop`
unfoldable pub stop : LogThread → LogThread
stop t = record t { stopped = true; remaining = t.queue; queue = []; pending_bytes = 0 }

-- A round of the loop of `Stop`
unfoldable pub send_remaining : Message → List Message → LogThread → LogThread
send_remaining m rest t = record t { remaining = rest; delivered = t.delivered ++ (m ∷ []) }

-- `ResumeChildAfterFork`, for the child: the messages that are not sent are the parent's.
unfoldable pub fork_child : LogThread → LogThread
fork_child t = record t {
  queue = [];
  pending_bytes = 0;
  logger = waits;
  remaining = [];
  passed = t.delivered;
}

-- A step from one state to the next. A step that waits for a condition has it as a premise.
-- A message that is logged while the logging thread sends one, on this thread itself, is sent at once.
-- `Stop` waits for the logging thread, except on this thread itself, which may exit in a message
-- that it has just sent; on Windows, which is left out, it never waits.
pub data Step : LogThread → LogThread → Type 0 where
  enqueues :
      (m : Message) (t : LogThread)
      → t.pending_bytes + m.size ≤ max_pending_bytes
      → t.stopped ≡ false
      → Step t (enqueue m t)
  sends_direct : (m : Message) (t : LogThread) → t.stopped ≡ true → Step t (send_direct m t)
  sends_inside : (m x : Message) (t : LogThread) → t.logger ≡ sends x → Step t (send_direct m t)
  takes :
      (m : Message) (rest : List Message) (t : LogThread)
      → t.logger ≡ waits
      → t.queue ≡ m ∷ rest
      → Step t (take_front m rest t)
  sends_taken : (m : Message) (t : LogThread) → t.logger ≡ sends m → Step t (send_taken m t)
  finishes : (t : LogThread) → t.logger ≡ sent → Step t (finish t)
  stops : (t : LogThread) → t.stopped ≡ false → t.queue ≡ [] → t.logger ≡ waits → Step t (stop t)
  stops_inside : (t : LogThread) → t.stopped ≡ false → t.logger ≡ sent → Step t (stop t)
  sends_remaining :
      (m : Message) (rest : List Message) (t : LogThread)
      → t.remaining ≡ m ∷ rest
      → Step t (send_remaining m rest t)
  forks : (t : LogThread) → Step t (fork_child t)

pub data Reachable : LogThread → Type 0 where
  start : Reachable created
  step : {t t' : LogThread} → Reachable t → Step t t' → Reachable t'
