-- ===== src/Tests/Outbox.antt =====
-- A queue of two entries, one of which is due.
use worm.Base.{
  true, false, List, [], ◌∷◌, ◌≡◌, refl, ◌⊎◌, inl, inr, Bytes, codes, arith, keep_where,
  count_where,
}
use worm.Model.{NormalizedEvent}
use worm.Store.Action.{Result, ok, OutboxEntry, Tables, Db, query}
use worm.Outbox.Queue.{new_entry, fetch_pending, mark_delivered, mark_failed, enqueue}
use worm.Outbox.Queue.Order.{IsQueue, writes-IsQueue}
use worm.Store.Normal.{enqueue_intents}
use worm.Outbox.Rows.{labels, AllRows, IsAscending}
use worm.Outbox.Deliver.{deliver_pending}
use worm.Outbox.Deliver.Promise.{IsSink, Sound, waits, Promised, deliver_pending-Promised}
use worm.Pipeline.World.{World}
use worm.Tests.Setup.{start, no_tables, toy_library}

-- A sink that remembers the destinations that it sent to.
abbrev remember : Bytes → NormalizedEvent → List Bytes → Result (Unit {0}) × List Bytes
remember dest event sent = (ok tt, dest ∷ sent)

abbrev Remembered : Bytes → Bytes → List Bytes → Type 0
Remembered dest payload [] = ⊥
Remembered dest payload (d ∷ sent) = (d ≡ dest) ⊎ Remembered dest payload sent

remember-IsSink : IsSink remember Remembered
remember-IsSink = record {
  takes = λ dest payload event s u q. inl refl;
  keeps = λ dest payload dest' event s m. inr m;
}

abbrev two_entries : List OutboxEntry
two_entries =
    new_entry 1 (codes "e") (codes "a") (codes "p") 7
    ∷ new_entry 4 (codes "e") (codes "b") (codes "p") 8000
    ∷ []

abbrev queued : World (List Bytes)
queued = record {
  db = record {
    tables = record no_tables { outbox = two_entries };
    counter = 0;
    faults = false ∷ true ∷ [];
  };
  counters = (start []).counters;
  sink = [];
  acks = [];
  drawn = 0;
  event_seq = 0;
}

two_entries-IsAscending : IsAscending 1 two_entries
two_entries-IsAscending = (omega arith, (omega arith, tt))

two_entries-Sound : AllRows (Sound remember Remembered []) two_entries
two_entries-Sound = (waits refl, (waits refl, tt))

deliver_pending-Promised_example :
    Promised remember Remembered
      (labels two_entries)
      (deliver_pending remember 9 queued).sink
      (deliver_pending remember 9 queued).db.tables
deliver_pending-Promised_example =
    deliver_pending-Promised remember Remembered remember-IsSink 9 queued two_entries-IsAscending
      two_entries-Sound

-- The entry that is due is delivered, and the other one waits.
first_delivered : (deliver_pending remember 9 queued).sink ≡ codes "a" ∷ []
unfolding deliver_pending keep_where fetch_pending query mark_delivered
first_delivered = refl

-- A queue with one entry.
abbrev one_entry : Tables
one_entry = record no_tables {
  outbox = new_entry 1 (codes "e") (codes "a") (codes "p") 7 ∷ [];
  next_outbox_id = 2;
}

abbrev one_db : Db
one_db = record { tables = one_entry; counter = 0; faults = [] }

one_entry-IsQueue : IsQueue one_entry
unfolding count_where
one_entry-IsQueue = record {
  issued = (omega arith, omega arith);
  single = λ event dest. ground arith;
}

writes-IsQueue_example :
    IsQueue (enqueue (codes "f") (codes "a") (codes "q") 9 one_db).1.tables
    × IsQueue (mark_delivered 1 9 one_db).1.tables
    × IsQueue (mark_failed 1 (codes "down") 5 0 9 one_db).1.tables
    × IsQueue (enqueue_intents (codes "f") (codes "q") 9 (codes "a" ∷ codes "b" ∷ []) one_entry)
writes-IsQueue_example =
    writes-IsQueue (codes "f") (codes "a") (codes "q") (codes "down") 1 5 0 9
      (codes "a" ∷ codes "b" ∷ []) one_db one_entry-IsQueue
