-- ===== src/Tests/Replay.antt =====
-- The quarantined child of the batch is processed again.
use worm.Base.{
  List, [], ◌≡◌, refl, some, codes, str_eq, count_where, keep_where, find_where, update_where,
}
use worm.Model.{RawEvent, DecodedRecord, NormalizedEvent}
use worm.Store.Action.{ok, ◌>>=◌, transact, query}
use worm.Pipeline.World.{Stages, matched, count_quarantined}
use worm.Model.Value.{size}
use worm.Store.Raw.{store, retrieve, verify, update_status}
use worm.Store.Dead.{quarantine, get_quarantine_by_id}
use worm.Store.Normal.{
  store_normalized_with_outbox, child_outcome_counts, resolve_quarantine_with_outbox, resolve_tx,
  store_normalized_tx, put_event,
}
use worm.Pipeline.Child.{process_child}
use worm.Pipeline.Record.{process_record}
use worm.Pipeline.Replay.{replay, load_quarantined}
use worm.Tests.Setup.{toy_stages, toy_event, toy_library}
use worm.Tests.Pipeline.{batch}

abbrev event_of : RawEvent → DecodedRecord → NormalizedEvent
event_of raw dec = record toy_event {
  envelope = record toy_event.envelope {
    event_id = codes "again";
    raw_id = raw.raw_id;
    record_ordinal = dec.record_ordinal;
  };
}

abbrev with_pack : Stages (Unit {0}) (List NormalizedEvent)
with_pack = record toy_stages {
  active = some (λ d. matched tt);
  normalize = λ seq rand now raw dec p history. (ok (event_of raw dec), seq);
}

-- The entry is gone.
replay_run : (replay with_pack 10 (codes "quar-ii") (batch [])).1.db.tables.quarantine ≡ []
unfolding replay load_quarantined resolve_quarantine_with_outbox resolve_tx store_normalized_tx
    put_event get_quarantine_by_id retrieve verify process_record str_eq store ◌>>=◌ transact
    count_where keep_where find_where process_child store_normalized_with_outbox size quarantine
    child_outcome_counts query count_quarantined update_status update_where
replay_run = refl
