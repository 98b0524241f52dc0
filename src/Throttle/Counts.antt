-- ===== src/Throttle/Counts.antt =====
-- experimental/attributes.cc: `EveryCount` and `FirstCount`. A counter's type has the values below
-- `2 ^ bits`, or half of them if it is signed, which `limit` bounds. Other threads run between the
-- atomic operations of a call, so a call is a sequence of steps on a thread's local variable and
-- the site's counter.
use ng_log.Prelude.{ℕ, ◌+◌, ◌≡◌, ◌≤◌, ◌<◌, Option, none, some, ltb, ◌==◌, if◌then◌else◌}

-- A call of `Throttle`: not begun, or with the value that it read of the counter.
pub record Counter : Type 0 where
  pub value : ℕ
  pub read : ℕ → Option ℕ

unfoldable pub put_read : ℕ → Option ℕ → (ℕ → Option ℕ) → ℕ → Option ℕ
put_read thread r reads i = if i == thread then r else reads i

unfoldable pub load : ℕ → Counter → Counter
unfolding put_read
load thread c = record { value = c.value; read = put_read thread (some c.value) c.read }

-- A `compare_exchange` that succeeds.
unfoldable pub exchange : ℕ → ℕ → Counter → Counter
unfolding put_read
exchange thread next c = record { value = next; read = put_read thread none c.read }

unfoldable pub leave : ℕ → Counter → Counter
unfolding put_read
leave thread c = record { value = c.value; read = put_read thread none c.read }

-- The position that follows in `EveryCount`, for a positive `n`.
unfoldable pub next_position : ℕ → ℕ → ℕ
next_position n position = if ltb position n then position + 1 else 1

-- The result of `EveryCount` when the position became `next`.
unfoldable pub logs : ℕ → ℕ
logs next = if next == 1 then 1 else 0

abbrev pub initial : Counter
initial = record { value = 0; read = λ thread. none }

-- `EveryCount::Throttle` with a positive `n` on any threads: the counter, the calls that returned,
-- and those that returned true. `compare_exchange_weak` may fail without a reason; it reads the
-- counter then.
pub data Every (n : ℕ) : Counter → ℕ → ℕ → Type 0 where
  start : Every n initial 0 0
  loads :
      (thread : ℕ) {c : Counter} {calls logged : ℕ}
      → Every n c calls logged
      → Every n (load thread c) calls logged
  succeeds :
      (thread : ℕ) {c : Counter} {calls logged : ℕ}
      → Every n c calls logged
      → c.read thread ≡ some c.value
      → Every n
          (exchange thread (next_position n c.value) c)
          (calls + 1)
          (logged + logs (next_position n c.value))

-- `FirstCount::Throttle`: the counter, the calls that returned false, and those that returned true.
pub data First (n : ℕ) : Counter → ℕ → ℕ → Type 0 where
  start : First n initial 0 0
  loads :
      (thread : ℕ) {c : Counter} {refused logged : ℕ}
      → First n c refused logged
      → First n (load thread c) refused logged
  refuses :
      (thread current : ℕ) {c : Counter} {refused logged : ℕ}
      → First n c refused logged
      → c.read thread ≡ some current
      → n ≤ current
      → First n (leave thread c) (refused + 1) logged
  succeeds :
      (thread : ℕ) {c : Counter} {refused logged : ℕ}
      → First n c refused logged
      → c.read thread ≡ some c.value
      → c.value < n
      → First n (exchange thread (c.value + 1) c) refused (logged + 1)
