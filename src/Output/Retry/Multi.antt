-- ===== src/Output/Retry/Multi.antt =====
-- internal/output/multi.go: the calls that a sink made of several ones makes.
use worm.Base.{List, [], ◌∷◌, ◌≡◌, ◌↔◌, refl, inl, inr}
use worm.Model.{NormalizedEvent}
use worm.Store.Action.{ok}
use worm.Output.Retry.{Emit, multi_emit}
use worm.Output.Retry.Attempts.{reply-cases}

-- The state behind a call of each sink.
abbrev pub after_all : {S : Type 0} → List (Emit S) → NormalizedEvent → S → S
after_all [] event s = s
after_all (emit ∷ sinks) event s = after_all sinks event (emit event s).1

abbrev pub AllTook : {S : Type 0} → List (Emit S) → NormalizedEvent → S → Type 0
AllTook [] event s = Unit
AllTook (emit ∷ sinks) event s = ((emit event s).0 ≡ ok tt) × AllTook sinks event (emit event s).1

-- `MultiSink.Emit` hands the event to every sink, whichever of them refuse it, and reports no error
-- exactly when all of them take it.
pub multi_emit-AllTook :
    {S : Type 0} (sinks : List (Emit S)) (event : NormalizedEvent) (s : S)
    → ((multi_emit sinks event s).1 ≡ after_all sinks event s)
      × (((multi_emit sinks event s).0 ≡ []) ↔ AllTook sinks event s)
unfolding multi_emit
multi_emit-AllTook [] event s = (refl, ((λ _. tt), (λ _. refl)))
multi_emit-AllTook (emit ∷ sinks) event s =
    let (st, (to, from)) = multi_emit-AllTook sinks event (emit event s).1 in
    (
      st,
      elim (reply-cases (emit event s).0) [
        | inl q ↦ rw (q, multi_emit) ((λ h. (refl, to h)), (λ a. from a.1))
        | inr (e, q) ↦ rw (q, multi_emit) ((λ h. cc), (λ a. cc))
      ],
    )
