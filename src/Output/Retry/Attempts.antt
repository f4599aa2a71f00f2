-- ===== src/Output/Retry/Attempts.antt =====
-- internal/output/retry.go: the attempts of a retrying sink.
use worm.Base.{
  ℕ, zero, suc, ◌+◌, ◌<◌, ◌≡◌, refl, ◌∙◌, ap, Bool, true, ◌⊎◌, inl, inr, arith, Bool-cases,
}
use worm.Library.{Error, driver}
use worm.Model.{NormalizedEvent}
use worm.Store.Action.{Result, ok, err}
use worm.Output.Retry.{
  Emit, RetrySink, delivered, cancelled, exhausted, Attempted, attempts, retry_emit,
}

-- The state behind a number of calls.
abbrev pub after_calls : {S : Type 0} → Emit S → NormalizedEvent → ℕ → S → S
after_calls emit event zero s = s
after_calls emit event (suc n) s = after_calls emit event n (emit event s).1

-- The first of the calls that a sink refuses are all of these.
abbrev pub AllRefused : {S : Type 0} → Emit S → NormalizedEvent → ℕ → S → Type 0
AllRefused emit event zero s = Unit
AllRefused emit event (suc n) s =
    ((e : Error) × ((emit event s).0 ≡ err e)) × AllRefused emit event n (emit event s).1

plus_zero : (t : ℕ) → t + 0 ≡ t
plus_zero t = omega arith

pub reply-cases : (r : Result (Unit {0})) → (r ≡ ok tt) ⊎ ((e : Error) × (r ≡ err e))
reply-cases (ok tt) = inl refl
reply-cases (err e) = inr (e, refl)

the_sum : (n t : ℕ) → t + suc n ≡ t + 1 + n
the_sum n t = omega arith

module _ {S : Type 0} (emit : Emit S) (done : ℕ → Bool) (event : NormalizedEvent) where
  -- What a run of `left` attempts behind `t` others ends with, from a state.
  pub data Ran (t left : ℕ) (s : S) (a : Attempted S) : Type 0 where
    took :
        (n : ℕ)
        → n < left
        → AllRefused emit event n s
        → (emit event (after_calls emit event n s)).0 ≡ ok tt
        → a.outcome ≡ delivered
        → a.tries ≡ t + n + 1
        → a.state ≡ after_calls emit event (suc n) s
        → Ran t left s a
    stopped :
        (n : ℕ)
        → n < left
        → AllRefused emit event n s
        → done (t + n) ≡ true
        → a.outcome ≡ cancelled
        → a.tries ≡ t + n
        → a.state ≡ after_calls emit event n s
        → Ran t left s a
    gave_up :
        (e : Error)
        → AllRefused emit event left s
        → a.outcome ≡ exhausted e
        → a.tries ≡ t + left
        → a.state ≡ after_calls emit event left s
        → Ran t left s a

  -- The first attempt was refused.
  Ran-refused :
      (t left : ℕ) (s : S) (a : Attempted S) (e : Error)
      → (emit event s).0 ≡ err e
      → Ran (t + 1) left (emit event s).1 a
      → Ran t (suc left) s a
  Ran-refused t left s a e q (took n lt r took_it o tries st) =
      took (suc n) (omega (arith, lt)) ((e, q), r) took_it o (omega (arith, tries)) st
  Ran-refused t left s a e q (stopped n lt r d o tries st) =
      stopped (suc n) (omega (arith, lt)) ((e, q), r) (ap done (the_sum n t) ∙ d) o
        (omega (arith, tries)) st
  Ran-refused t left s a e q (gave_up x r o tries st) =
      gave_up x ((e, q), r) o (omega (arith, tries)) st

  attempts-Ran :
      (left t delay slept : ℕ) (last : Error) (s : S)
      → Ran t left s (attempts emit done event left t delay slept last s)
  unfolding attempts
  attempts-Ran zero t delay slept last s = gave_up last tt refl (omega arith) refl
  attempts-Ran (suc left) t delay slept last s = elim (Bool-cases (done t)) [
    | inl d ↦
        rw (d, attempts)
          (stopped 0 (omega arith) tt (ap done (plus_zero t) ∙ d) refl (omega arith) refl)
    | inr d ↦
        rw (d, attempts)
          (elim (reply-cases (emit event s).0) [
            | inl q ↦ rw (q, attempts) (took 0 (omega arith) tt q refl (omega arith) refl)
            | inr (e, q) ↦
                rw (q, attempts)
                  (Ran-refused t left s _ e q (attempts-Ran left (t + 1) _ _ e (emit event s).1))
          ])
  ]

  -- `RetrySink.Emit` either reports success with the first attempt that the sink takes, or stops at
  -- an attempt before which the context is done, or reports an error when the sink has refused every
  -- one of the configured attempts. It makes no attempt behind the one it ends with.
  pub retry_emit-Ran :
      (r : RetrySink) (s : S) → Ran 0 r.max_attempts s (retry_emit emit done event r s)
  unfolding retry_emit
  retry_emit-Ran r s = attempts-Ran r.max_attempts 0 r.backoff 0 driver s
