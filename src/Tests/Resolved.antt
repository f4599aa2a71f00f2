-- ===== src/Tests/Resolved.antt =====
-- A child that the pipeline takes up again, in internal/pipeline/pipeline.go.
use worm.Base.{Bool, true, false, List, [], ◌∷◌, ◌≡◌, refl, codes, str_eq, count_where}
use worm.Model.{DecodedRecord, NormalizedEvent, ProcessingStep}
use worm.Model.Value.{end, field, str, size}
use worm.Store.Action.{ok, transact, query}
use worm.Store.Dead.{quarantine}
use worm.Store.Normal.{store_normalized_with_outbox, has_completed_child}
use worm.Store.Outcome.{HasOutcome}
use worm.Store.Stored.{IsOwn}
use worm.Pipeline.Child.{process_child, generic_event}
use worm.Pipeline.World.{World, count_quarantined}
use worm.Pipeline.Child.Resolved.{AreOwn, process_child-HasOutcome}
use worm.Tests.Store.{stored}
use worm.Tests.Setup.{toy_stages, start, no_tables, toy_library}

abbrev record_0 : DecodedRecord
record_0 = record {
  record_ordinal = 0;
  format = codes "json";
  headers = end;
  fields = field (codes "message") (str (codes "m")) end;
  raw_payload = codes "m";
}

-- The raw event is stored, and the second of the next statements fails.
abbrev held : World (List NormalizedEvent)
held = record (start []) {
  db = record {
    tables = record no_tables { raw_events = stored ∷ [] };
    counter = 0;
    faults = false ∷ true ∷ [];
  };
}

generic_IsOwn :
    (history : List ProcessingStep) (event' : NormalizedEvent)
    → ok (generic_event toy_stages 9 stored record_0 [] history) ≡ ok event'
    → IsOwn stored.raw_id 0 event' held.db.tables
unfolding generic_event count_where
generic_IsOwn history event' e = record { same_raw = cc; same_ordinal = cc; none_other = refl }

own : AreOwn toy_stages 9 stored record_0 0 [] held.db.tables
own = record { of_pack = λ pack history event event' e. cc; passed_through = generic_IsOwn }

-- The outcome is asked for first, and the statement that stores the event fails.
abbrev taken_up : Bool × World (List NormalizedEvent)
taken_up = process_child toy_stages 9 stored record_0 true [] held

process_child-HasOutcome_example : HasOutcome stored.raw_id 0 taken_up.1.db.tables
unfolding process_child str_eq transact count_where store_normalized_with_outbox size quarantine
    has_completed_child query count_quarantined
process_child-HasOutcome_example =
    process_child-HasOutcome toy_stages 9 stored record_0 true [] held own refl
