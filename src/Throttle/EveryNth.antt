-- ===== src/Throttle/EveryNth.antt =====
-- experimental/attributes.cc: `EveryCount` logs the first and every n-th occurrence.
use ng_log.Prelude.{ℕ, ◌+◌, ◌-◌, ◌*◌, ◌≡◌, ◌≤◌, ◌<◌, refl, ◌⊎◌, inl, inr, arith}
use ng_log.Throttle.Counts.{
  Counter, load, exchange, next_position, logs, Every, start, loads, succeeds,
}

-- Nothing yet, or `calls` is in the period `logged` at the position.
abbrev Counted : ℕ → ℕ → ℕ → ℕ → Type 0
Counted n position calls logged =
    ((calls ≡ 0) × (logged ≡ 0) × (position ≡ 0))
    ⊎ ((1 ≤ position) × (position ≤ n) × (calls + n ≡ logged * n + position))

step-Counted :
    (n position calls logged : ℕ)
    → 1 ≤ n
    → Counted n position calls logged
    → Counted n (next_position n position) (calls + 1) (logged + logs (next_position n position))
unfolding next_position logs
step-Counted n position calls logged h c = grind arith

Every-Counted :
    {n calls logged : ℕ} {c : Counter}
    → 1 ≤ n
    → Every n c calls logged
    → Counted n c.value calls logged
unfolding load exchange
Every-Counted h start = inl (refl, refl, refl)
Every-Counted h (loads thread r) = Every-Counted h r
Every-Counted {n} h (succeeds thread {c} {calls} {logged} r e) =
    step-Counted n c.value calls logged h (Every-Counted h r)

-- However the threads' loads and exchanges interleave: of the calls of `EveryCount` with a positive
-- n that returned, exactly the first and then one in n returned true, and the counter has
-- not gone past n.
pub every_count_logged :
    (n calls logged : ℕ) (c : Counter)
    → 1 ≤ n
    → Every n c calls logged
    → (logged * n ≤ calls + n - 1) × (calls + n - 1 < logged * n + n) × (c.value ≤ n)
every_count_logged n calls logged c h r = counted (Every-Counted h r)
  where
    counted :
        Counted n c.value calls logged
        → (logged * n ≤ calls + n - 1) × (calls + n - 1 < logged * n + n) × (c.value ≤ n)
    counted (inl x) = grind arith
    counted (inr x) = grind arith
