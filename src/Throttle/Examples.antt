-- ===== src/Throttle/Examples.antt =====
-- experimental/attributes.cc: the theorems at concrete interleavings.
use ng_log.Prelude.{none, ℕ, ◌+◌, ◌-◌, ◌*◌, ◌≤◌, ◌<◌, ◌≡◌, refl, arith}
use ng_log.Throttle.Counts.{
  Counter, load, exchange, leave, next_position, put_read, logs, initial, Every, First,
}
use ng_log.Throttle.EveryNth.{every_count_logged}
use ng_log.Throttle.FirstOnes.{first_count_logged}
use ng_log.Throttle.Period.{Claims, put_call, load_previous, is_claimable, claim, unclaimed, Period}
use ng_log.Throttle.Spacing.{Spaced, claims-Spaced}

-- Two threads read the counter; the first exchanges it, the second has to read it again.
abbrev raced : Counter
raced = load 1 (exchange 0 1 (load 1 (load 0 initial)))

twice : Every 2 (exchange 1 2 raced) 2 1
unfolding next_position logs load put_read exchange
twice =
    Every.succeeds 1
      (Every.loads 1 (Every.succeeds 0 (Every.loads 1 (Every.loads 0 Every.start)) refl)) refl

every_count_logged_example :
    (1 * 2 ≤ 2 + 2 - 1) × (2 + 2 - 1 < 1 * 2 + 2) × ((exchange 1 2 raced).value ≤ 2)
every_count_logged_example = every_count_logged 2 2 1 (exchange 1 2 raced) (omega arith) twice

refused : First 1 (leave 1 raced) 1 1
unfolding load put_read exchange
refused =
    First.refuses 1 1
      (First.loads 1
        (First.succeeds 0 (First.loads 1 (First.loads 0 First.start)) refl (omega arith)))
      refl (omega arith)

first_count_logged_example : (1 ≤ 1) × (1 ≤ 1 → ◌≡◌ {A = ℕ} 1 1)
first_count_logged_example = first_count_logged 1 1 1 (leave 1 raced) refused

-- Two calls at 5 and 7 and one at 9, with a period of 3: the call at 7 loses against the one at 5.
abbrev two_claims : Claims
two_claims = claim 1 9 (
    load_previous 1 9 (
      put_call 1 none
        (load_previous 1 7 (claim 0 5 (load_previous 1 7 (load_previous 0 5 unclaimed))))))

two_claimed : Period 3 two_claims
unfolding put_call load_previous claim is_claimable
two_claimed =
    Period.succeeds 1 9
      (Period.loads 1 9
        (Period.refuses 1 7 5
          (Period.reloads 1 7 0
            (Period.succeeds 0 5
              (Period.loads 1 7 (Period.loads 0 5 Period.start (omega arith) refl) (omega arith)
                refl)
              refl refl)
            refl refl)
          refl refl)
        (omega arith) refl)
      refl refl

claims-Spaced_example : Spaced 3 two_claims.claims × (two_claims.previous ≡ 9)
unfolding claim put_call load_previous
claims-Spaced_example = claims-Spaced 3 two_claims two_claimed
