-- ===== src/Throttle/Period.antt =====
-- experimental/attributes.cc and ng-log/logging.h: `ThrottlePeriod`, which is `ClaimEveryT` on the
-- time of the previous claim at the site. Other threads run between its atomic operations.
use ng_log.Prelude.{
  ℕ, ◌+◌, ◌≡◌, ◌≤◌, Bool, true, false, ◌||◌, List, [], ◌∷◌, Option, none, some, ltb, ◌==◌,
  if◌then◌else◌,
}

-- A thread in a call has the time of its call and the time of the claim that it read last. Times are
-- nanoseconds of the steady clock. `claims` has the times of the claims, the last one first.
pub record Claims : Type 0 where
  pub previous : ℕ
  pub calls : ℕ → Option (ℕ × ℕ)
  pub claims : List ℕ

unfoldable pub put_call : ℕ → Option (ℕ × ℕ) → Claims → Claims
put_call thread call c = record c { calls = λ i. if i == thread then call else c.calls i }

-- A load, or a `compare_exchange_weak` that fails
unfoldable pub load_previous : ℕ → ℕ → Claims → Claims
unfolding put_call
load_previous thread now c = put_call thread (some (now, c.previous)) c

-- The condition of the loop. The difference of the times may be negative.
unfoldable pub is_claimable : ℕ → ℕ → ℕ → Bool
is_claimable period now last = last == 0 || ltb (last + period) now

unfoldable pub claim : ℕ → ℕ → Claims → Claims
unfolding put_call
claim thread now c = record (put_call thread none c) { previous = now; claims = now ∷ c.claims }

abbrev pub unclaimed : Claims
unclaimed = record { previous = 0; calls = λ thread. none; claims = [] }

-- The calls of any threads at a site. The clock does not show zero.
pub data Period (period : ℕ) : Claims → Type 0 where
  start : Period period unclaimed
  loads :
      (thread now : ℕ) {c : Claims}
      → Period period c
      → 1 ≤ now
      → c.calls thread ≡ none
      → Period period (load_previous thread now c)
  reloads :
      (thread now last : ℕ) {c : Claims}
      → Period period c
      → c.calls thread ≡ some (now, last)
      → is_claimable period now last ≡ true
      → Period period (load_previous thread now c)
  succeeds :
      (thread now : ℕ) {c : Claims}
      → Period period c
      → c.calls thread ≡ some (now, c.previous)
      → is_claimable period now c.previous ≡ true
      → Period period (claim thread now c)
  refuses :
      (thread now last : ℕ) {c : Claims}
      → Period period c
      → c.calls thread ≡ some (now, last)
      → is_claimable period now last ≡ false
      → Period period (put_call thread none c)
