-- ===== src/Store/Normal.antt =====
-- internal/rawstore/store.go: the normalized events, the delivery intents that are stored with
-- them, and the counts of what became of the children of a raw event.
use worm.Base.{
  ℕ, ◌+◌, Bool, true, false, ◌&&◌, not, List, [], ◌∷◌, ◌++◌, Option, none, some, ◌==◌, leb,
  if◌then◌else◌, Bytes, codes, str_eq, count_where, find_where, update_where, keep_where, length, ℤ,
  pos,
}
use worm.Library.{Library, constraint, marshal_failed, not_resolved}
use worm.Model.{NormalizedEvent, QuarantineEntry, RawStatus}
use worm.Model.Value.{Value, null, str, int, float, lookup}
use worm.Store.Action.{
  Result, ok, err, Tables, Action, NormalizedRow, OutboxEntry, DeliveryStatus, transact, query,
}
use worm.Store.Raw.{has_raw_id, set_status}

-- `WHERE raw_id = ? AND record_ordinal = ?`, in both tables that hold outcomes
abbrev pub is_child : Bytes → ℕ → NormalizedRow → Bool
is_child id n r = str_eq r.raw_id id && r.record_ordinal == n

abbrev pub is_dead_child : Bytes → ℕ → QuarantineEntry → Bool
is_dead_child id n q = str_eq q.raw_id id && q.record_ordinal == n

abbrev pub normalized_of : Bytes → Tables → ℕ
normalized_of id t = count_where (λ r. str_eq r.raw_id id) t.normalized_events

abbrev pub quarantined_of : Bytes → Tables → ℕ
quarantined_of id t = count_where (λ q. str_eq q.raw_id id) t.quarantine

-- How many outcomes a child has.
abbrev pub outcomes : Bytes → ℕ → Tables → ℕ
outcomes id n t =
    count_where (is_child id n) t.normalized_events + count_where (is_dead_child id n) t.quarantine

unfoldable pub or_empty : Option Value → Bytes
or_empty (some (str s)) = s
or_empty _ = []

module _ ⦃lib : Library⦄ where
  unfoldable pub severity_of : Option Value → Bytes
  severity_of none = []
  severity_of (some null) = []
  severity_of (some v) = lib.sprint v

  unfoldable pub time_of : ℤ → Option Value → ℤ
  time_of received (some (int n)) = n
  time_of received (some (float f)) = lib.float_to_int f
  time_of received _ = received

  abbrev pub row_of : NormalizedEvent → Bytes → NormalizedRow
  row_of e json = record {
    event_id = e.envelope.event_id;
    raw_id = e.envelope.raw_id;
    record_ordinal = e.envelope.record_ordinal;
    source_category = e.envelope.source_category;
    source_id = e.envelope.source_id;
    severity_id = severity_of (lookup (codes "severity_id") e.ocsf);
    activity_name = or_empty (lookup (codes "activity_name") e.ocsf);
    message = or_empty (lookup (codes "message") e.ocsf);
    event_time = time_of (pos e.envelope.received_time) (lookup (codes "time") e.ocsf);
    received_time = e.envelope.received_time;
    event_json = json;
    event_sha256 = lib.sha256_hex json;
  }

abbrev pub has_event_id : Bytes → NormalizedRow → Bool
has_event_id id r = str_eq r.event_id id

-- `ON CONFLICT(event_id) DO UPDATE`: the child that the row belongs to is not among what is set.
abbrev pub overwrite : NormalizedRow → NormalizedRow → NormalizedRow
overwrite new r = record new {
  event_id = r.event_id;
  raw_id = r.raw_id;
  record_ordinal = r.record_ordinal;
}

abbrev pub upsert_rows : NormalizedRow → List NormalizedRow → List NormalizedRow
upsert_rows row rows =
    if leb 1 (count_where (has_event_id row.event_id) rows)
    then update_where (has_event_id row.event_id) (overwrite row) rows
    else rows ++ (row ∷ [])

-- One delivery intent. A row that was delivered is left alone.
unfoldable pub is_delivered : DeliveryStatus → Bool
is_delivered DeliveryStatus.delivered = true
is_delivered _ = false

abbrev pub same_delivery : Bytes → Bytes → OutboxEntry → Bool
same_delivery event dest r = str_eq r.event_id event && str_eq r.destination dest

unfoldable pub enqueue_intent : Bytes → Bytes → ℕ → Bytes → Tables → Tables
unfolding is_delivered
enqueue_intent event json now dest t =
    if leb 1 (count_where (same_delivery event dest) t.outbox)
    then record t {
      outbox =
          update_where (λ r. same_delivery event dest r && not (is_delivered r.status))
            (λ r. record r { payload = json }) t.outbox;
    }
    else record t {
      outbox =
          t.outbox
          ++ (record {
            id = t.next_outbox_id;
            event_id = event;
            destination = dest;
            payload = json;
            attempts = 0;
            next_retry_at = now;
            acknowledged_at = none;
            error_details = none;
            status = DeliveryStatus.pending;
            created_at = now;
          }
              ∷ []);
      next_outbox_id = t.next_outbox_id + 1;
    }

unfoldable pub enqueue_intents : Bytes → Bytes → ℕ → List Bytes → Tables → Tables
enqueue_intents event json now [] t = t
enqueue_intents event json now (d ∷ ds) t =
    enqueue_intents event json now ds (enqueue_intent event json now d t)

-- The event ID that the child has already, if it has one that is not empty.
unfoldable pub reused_id : Option NormalizedRow → Bytes → Bytes
reused_id none id = id
reused_id (some r) id = if str_eq r.event_id [] then id else r.event_id

abbrev pub with_event_id : Bytes → NormalizedEvent → NormalizedEvent
with_event_id id e = record e { envelope = record e.envelope { event_id = id } }

-- The event as it is stored: under the ID of the child's earlier row, if there is one. The code drops
-- an error of that query, which does not fail by itself here.
abbrev pub stored_event : NormalizedEvent → Tables → NormalizedEvent
stored_event e t =
    with_event_id
      (reused_id
        (find_where (is_child e.envelope.raw_id e.envelope.record_ordinal) t.normalized_events)
        e.envelope.event_id)
      e

-- The status of a parent with these outcomes.
abbrev pub outcome_status : ℕ → ℕ → RawStatus
outcome_status normalized quarantined =
    if normalized == 0 && leb 1 quarantined
    then RawStatus.quarantined
    else if leb 1 quarantined
    then RawStatus.partial
    else RawStatus.normalized

-- `WHERE quarantine_id = ? AND raw_id = ? AND record_ordinal = ?`
abbrev pub resolves : Bytes → NormalizedEvent → QuarantineEntry → Bool
resolves id e q =
    str_eq q.quarantine_id id && is_dead_child e.envelope.raw_id e.envelope.record_ordinal q

unfoldable pub finalized : NormalizedEvent → Tables → Tables
finalized e t =
    set_status e.envelope.raw_id
      (outcome_status (normalized_of e.envelope.raw_id t) (quarantined_of e.envelope.raw_id t)) t

unfoldable pub resolve_tx :
    Bytes → Result (NormalizedEvent × Tables) → Result (NormalizedEvent × Tables)
unfolding finalized set_status
resolve_tx id (err x) = err x
resolve_tx id (ok (e, t)) =
    if count_where (resolves id e) t.quarantine == 1
    then ok (
      e,
      finalized e (record t { quarantine = keep_where (λ q. not (resolves id e q)) t.quarantine }),
    )
    else err not_resolved

-- The second `json.Marshal` has its error dropped, and returns no bytes then.
unfoldable pub json_or_empty : Option Bytes → Bytes
json_or_empty none = []
json_or_empty (some json) = json

module _ ⦃lib : Library⦄ where
  unfoldable pub put_event :
      NormalizedEvent → ℕ → List Bytes → Tables → Result (NormalizedEvent × Tables)
  unfolding enqueue_intents json_or_empty
  put_event e now dests t =
      let json = json_or_empty (lib.marshal e) in
      if leb 1 (count_where (has_raw_id e.envelope.raw_id) t.raw_events)
      then ok (
        e,
        enqueue_intents e.envelope.event_id json now dests
            (record t { normalized_events = upsert_rows (row_of e json) t.normalized_events }),
      )
      else err constraint

  -- Inside a transaction. The event comes back with the ID that it was stored under.
  unfoldable pub store_normalized_tx :
      NormalizedEvent → ℕ → List Bytes → Tables → Result (NormalizedEvent × Tables)
  unfolding put_event
  store_normalized_tx e now dests t = elim (lib.marshal e) [
    | none ↦ err marshal_failed
    | some _ ↦ put_event (stored_event e t) now dests t
  ]

  unfoldable pub store_normalized_with_outbox :
      NormalizedEvent → ℕ → List Bytes → Action NormalizedEvent
  unfolding store_normalized_tx
  store_normalized_with_outbox e now dests = transact (store_normalized_tx e now dests)

  unfoldable pub resolve_quarantine_with_outbox :
      Bytes → NormalizedEvent → ℕ → List Bytes → Action NormalizedEvent
  unfolding resolve_tx store_normalized_tx
  resolve_quarantine_with_outbox id e now dests =
      transact (λ t. resolve_tx id (store_normalized_tx e now dests t))

unfoldable pub delete_normalized_child : Bytes → ℕ → Action (Unit {0})
delete_normalized_child id n = transact (λ t. ok (
  tt,
  record t { normalized_events = keep_where (λ r. not (is_child id n r)) t.normalized_events },
))

unfoldable pub count_completed_children : Bytes → Action ℕ
count_completed_children id = query (λ t. normalized_of id t + quarantined_of id t)

unfoldable pub child_outcome_counts : Bytes → Action (ℕ × ℕ)
child_outcome_counts id = query (λ t. (normalized_of id t, quarantined_of id t))

unfoldable pub has_completed_child : Bytes → ℕ → Action Bool
has_completed_child id n = query (λ t. leb 1 (outcomes id n t))

unfoldable pub count_normalized : Action ℕ
count_normalized = query (λ t. length t.normalized_events)
