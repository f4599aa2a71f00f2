-- ===== src/Output/Retry.antt =====
-- internal/output/retry.go and multi.go. A sink is a state and a function on it; the context is
-- asked before each attempt, and says at which attempts it is done. `slept` adds up the delays.
pub mod Attempts
pub mod Multi
use worm.Base.{
  ℕ, zero, suc, ◌+◌, ◌*◌, ◌-◌, Bool, true, false, List, [], ◌∷◌, ◌++◌, ◌==◌, ltb, if◌then◌else◌,
  Bytes,
}
use worm.Library.{Error, driver}
use worm.Model.{NormalizedEvent}
use worm.Store.Action.{Result, ok, err}

abbrev pub Emit : Type 0 → Type 0
Emit S = NormalizedEvent → S → Result (Unit {0}) × S

pub record RetrySink : Type 0 where
  pub max_attempts : ℕ
  pub backoff : ℕ

-- `NewRetrySink`; what is not positive is 0 here, and the default backoff is 10 ms; durations are in milliseconds.
unfoldable pub new_retry_sink : ℕ → ℕ → RetrySink
new_retry_sink max_attempts backoff = record {
  max_attempts = if max_attempts == 0 then 3 else max_attempts;
  backoff = if backoff == 0 then 10 else backoff;
}

pub data Outcome : Type 0 where
  delivered : Outcome
  cancelled : Outcome
  exhausted : Error → Outcome

pub record Attempted (S : Type 0) : Type 0 where
  pub outcome : Outcome
  pub state : S
  pub tries : ℕ
  pub slept : ℕ

module _ {S : Type 0} (emit : Emit S) (done : ℕ → Bool) (event : NormalizedEvent) where
  -- The loop: `left` attempts are left, `tries` were made, the next delay is `delay`.
  unfoldable pub attempts : ℕ → ℕ → ℕ → ℕ → Error → S → Attempted S
  attempts zero tries delay slept last s = record {
    outcome = exhausted last;
    state = s;
    tries = tries;
    slept = slept;
  }
  attempts (suc left) tries delay slept last s = elim (done tries) [
    | true ↦ record { outcome = cancelled; state = s; tries = tries; slept = slept }
    | false ↦ elim (emit event s).0 [
      | ok _ ↦ record {
        outcome = delivered;
        state = (emit event s).1;
        tries = tries + 1;
        slept = slept;
      }
      | err e ↦
          attempts left (tries + 1) (if ltb 0 left then delay * 2 else delay)
            (if ltb 0 left then slept + delay else slept) e (emit event s).1
    ]
  ]

  -- `RetrySink.Emit`. The error before the first attempt is never returned: one attempt is made.
  unfoldable pub retry_emit : RetrySink → S → Attempted S
  unfolding attempts
  retry_emit r s = attempts r.max_attempts 0 r.backoff 0 driver s

-- `MultiSink.Emit`: every sink is called, and the errors are collected.
unfoldable pub multi_emit : {S : Type 0} → List (Emit S) → NormalizedEvent → S → List Error × S
multi_emit [] event s = ([], s)
multi_emit (emit ∷ sinks) event s =
    let (errs, s') = multi_emit sinks event (emit event s).1 in
    (elim (emit event s).0 [ ok _ ↦ errs | err e ↦ e ∷ errs ], s')
