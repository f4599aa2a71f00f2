-- ===== src/Tests/Pipeline.antt =====
-- The pipeline on a batch of two children.
use worm.Base.{Bool, true, false, List, [], ◌∷◌, ◌≡◌, refl, codes, pos, str_eq, count_where, ◌+ℤ◌}
use worm.Model.{NormalizedEvent}
use worm.Model.Value.{size}
use worm.Store.Action.{◌>>=◌, transact, query}
use worm.Store.Raw.{store}
use worm.Store.Dead.{quarantine}
use worm.Store.Normal.{store_normalized_with_outbox, child_outcome_counts}
use worm.Pipeline.Child.{process_child}
use worm.Store.Evidence.{Kept}
use worm.Pipeline.World.{World, count_quarantined}
use worm.Pipeline.Child.Balance.{balance_of}
use worm.Pipeline.Record.{process_record}
use worm.Pipeline.Record.Balance.{process_record-balance}
use worm.Pipeline.Record.Evidence.{process_record-Kept}
use worm.Pipeline.Record.{process_decoded}
use worm.Pipeline.Record.Empty.{process_decoded_empty}
use worm.Store.Raw.{set_status}
use worm.Model.{RawStatus}
use worm.Tests.Store.{stored}
use worm.Tests.Setup.{datagram, toy_stages, start, toy_library}

abbrev pub batch : List Bool → World (List NormalizedEvent)
batch faults = process_record toy_stages 9 (datagram (codes "x")) (start faults)

-- One child is normalized and delivered, the other is quarantined.
batch_counters : (batch []).counters ≡ record {
  accepted = pos 2;
  normalized = pos 1;
  quarantined = pos 1;
  pending = pos 0;
  delivered = pos 1;
}
unfolding process_record str_eq store ◌>>=◌ transact count_where process_child
    store_normalized_with_outbox size quarantine child_outcome_counts query count_quarantined ◌+ℤ◌
batch_counters = refl

process_record-balance_example :
    balance_of (batch (false ∷ true ∷ [])) ≡ balance_of (start (false ∷ true ∷ []))
process_record-balance_example =
    process_record-balance toy_stages 9 (datagram (codes "x")) (start (false ∷ true ∷ []))

process_record-Kept_example : Kept (start []).db.tables (batch []).db.tables
process_record-Kept_example = process_record-Kept toy_stages 9 (datagram (codes "x")) (start [])

-- What `stored` leaves in the database is taken up again.
abbrev resumed : World (List NormalizedEvent)
resumed = process_decoded toy_stages 9 stored true [] [] (start [])

process_decoded_empty_example :
    (resumed.db.tables ≡ set_status stored.raw_id RawStatus.normalized (start []).db.tables)
    × (resumed.counters.pending ≡ (start []).counters.pending)
unfolding count_where
process_decoded_empty_example =
    process_decoded_empty toy_stages 9 stored [] (start []) refl refl refl
