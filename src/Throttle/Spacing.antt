-- ===== src/Throttle/Spacing.antt =====
-- ng-log/logging.h: claims of `ClaimEveryT` are more than a period apart.
use ng_log.Prelude.{
  ℕ, ◌+◌, ◌≡◌, ◌≤◌, ◌<◌, refl, sym, ap, ◌∙◌, inl, inr, true, List, [], ◌∷◌, Option, none, some,
  arith, ◌==◌, Bool-cases, if-true, if-false,
}
use ng_log.Throttle.Period.{
  Claims, put_call, load_previous, is_claimable, claim, Period, start, loads, reloads, succeeds,
  refuses,
}

-- Times, the last one first, each of which is more than a period behind the one before it.
abbrev pub Spaced : ℕ → List ℕ → Type 0
Spaced period [] = Unit {0}
Spaced period (t ∷ []) = Unit {0}
Spaced period (t ∷ u ∷ times) = (u + period < t) × Spaced period (u ∷ times)

abbrev pub last_of : List ℕ → ℕ
last_of [] = 0
last_of (t ∷ times) = t

record Good (period : ℕ) (c : Claims) : Type 0 where
  previous : c.previous ≡ last_of c.claims
  spaced : Spaced period c.claims
  begun : (t : ℕ) (times : List ℕ) → c.claims ≡ t ∷ times → 1 ≤ t
  called : (thread now last : ℕ) → c.calls thread ≡ some (now, last) → 1 ≤ now

Spaced-claim :
    (period now : ℕ) (times : List ℕ)
    → Spaced period times
    → ((t : ℕ) (rest : List ℕ) → times ≡ t ∷ rest → 1 ≤ t)
    → is_claimable period now (last_of times) ≡ true
    → Spaced period (now ∷ times)
unfolding is_claimable
Spaced-claim period now [] s b h = tt
Spaced-claim period now (t ∷ times) s b h = let positive = b t times refl in (ground arith, s)

called-put :
    (thread : ℕ) (call : Option (ℕ × ℕ)) (c : Claims)
    → ((i now last : ℕ) → c.calls i ≡ some (now, last) → 1 ≤ now)
    → ((now last : ℕ) → call ≡ some (now, last) → 1 ≤ now)
    → (i now last : ℕ) → (put_call thread call c).calls i ≡ some (now, last)
    → 1 ≤ now
unfolding put_call
called-put thread call c old new i now last e = elim (Bool-cases (i == thread)) [
  | inl q ↦ new now last (sym (if-true call (c.calls i) q) ∙ e)
  | inr q ↦ old i now last (sym (if-false call (c.calls i) q) ∙ e)
]

first_of : {x y a b : ℕ} → ◌≡◌ {A = Option (ℕ × ℕ)} (some (x, y)) (some (a, b)) → x ≡ a
first_of e = cc

Period-Good : {period : ℕ} {c : Claims} → Period period c → Good period c
unfolding put_call load_previous claim
Period-Good start = record {
  previous = refl;
  spaced = tt;
  begun = λ t times e. cc;
  called = λ thread now last e. cc;
}
Period-Good (loads thread now {c} r one e) =
    let g = Period-Good r in
    record {
      previous = g.previous;
      spaced = g.spaced;
      begun = g.begun;
      called =
          called-put thread (some (now, c.previous)) c g.called
            (λ n l q. let same : now ≡ n = first_of q in omega arith);
    }
Period-Good (reloads thread now last {c} r e h) =
    let g = Period-Good r in
    record {
      previous = g.previous;
      spaced = g.spaced;
      begun = g.begun;
      called = called-put thread (some (now, c.previous)) c g.called (λ n l q.
          let same : now ≡ n = first_of q in let one = g.called thread now last e in omega arith);
    }
Period-Good {period} (succeeds thread now {c} r e h) =
    let g = Period-Good r in
    record {
      previous = refl;
      spaced =
          Spaced-claim period now c.claims g.spaced g.begun
            (ap (is_claimable period now) (sym g.previous) ∙ h);
      begun = λ t times q.
          let one = g.called thread now c.previous e in let same : now ≡ t = cc in omega arith;
      called = called-put thread none c g.called (λ n l q. cc);
    }
Period-Good (refuses thread now last {c} r e h) =
    let g = Period-Good r in
    record {
      previous = g.previous;
      spaced = g.spaced;
      begun = g.begun;
      called = called-put thread none c g.called (λ n l q. cc);
    }

-- However the threads interleave, each claim of a site is more than a period behind the one before
-- it, and the site has the time of the last one.
pub claims-Spaced :
    (period : ℕ) (c : Claims)
    → Period period c
    → Spaced period c.claims × (c.previous ≡ last_of c.claims)
claims-Spaced period c r = let g = Period-Good r in (g.spaced, g.previous)
