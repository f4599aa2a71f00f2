-- ===== src/Store/Raw.antt =====
-- internal/rawstore/store.go: the raw events. A row stands here for the values that its columns are
-- made of; a reader has what the JSON of the metadata and the text of the time are read as.
use worm.Base.{
  ℕ, ◌+◌, Bool, true, false, ◌&&◌, not, List, [], ◌∷◌, ◌++◌, Option, none, some, ◌==◌, leb,
  if◌then◌else◌, Bytes, codes, str_eq, length, count_where, find_where, update_where, keep_where,
}
use worm.Library.{Library, invalid, constraint, not_found, identity_conflict}
use worm.Model.{RawEvent, IngestedRecord, RawStatus, ReceiveMetadata}
use worm.Store.Action.{Result, ok, err, Tables, Action, pure, raise, ◌>>=◌, transact, query}

unfoldable pub status_eq : RawStatus → RawStatus → Bool
status_eq RawStatus.accepted RawStatus.accepted = true
status_eq RawStatus.normalized RawStatus.normalized = true
status_eq RawStatus.quarantined RawStatus.quarantined = true
status_eq RawStatus.pending RawStatus.pending = true
status_eq RawStatus.partial RawStatus.partial = true
status_eq _ _ = false

-- `WHERE raw_id = ?`
abbrev pub has_raw_id : Bytes → RawEvent → Bool
has_raw_id id e = str_eq e.raw_id id

-- `SELECT … FROM raw_events WHERE raw_id = ?`
abbrev pub find_raw : Bytes → Tables → Option RawEvent
find_raw id t = find_where (has_raw_id id) t.raw_events

unfoldable pub found : {A : Type 0} → Option A → Action A
found none = raise not_found
found (some a) = pure a

-- Behind `json.Unmarshal` of the metadata
unfoldable pub with_metadata : Option ReceiveMetadata → ℕ → RawEvent → Action RawEvent
with_metadata none at e = raise (invalid (codes "invalid receive metadata"))
with_metadata (some m) at e = pure (record e { metadata = m; received_at = at })

has_file_id : Bytes → Option Bytes → Bool
has_file_id id none = false
has_file_id id (some id') = str_eq id' id

module _ ⦃lib : Library⦄ where
  -- The columns that are text are read back.
  abbrev pub read_row : RawEvent → Action RawEvent
  read_row e =
      with_metadata (lib.read_metadata (lib.metadata_json e.metadata))
        (lib.read_time (lib.time_text e.received_at)) e

  unfoldable pub retrieve : Bytes → Action RawEvent
  unfolding found with_metadata
  retrieve id = do row ← query (find_raw id); e ← found row; read_row e

  -- The identity of a file-spool record: `file_id` and `file_offset` in the JSON of its metadata.
  abbrev same_spool : ReceiveMetadata → RawEvent → Bool
  same_spool m e =
      has_file_id m.file_id (lib.json_file_id (lib.metadata_json e.metadata))
      && lib.json_file_offset (lib.metadata_json e.metadata) == m.file_offset

unfoldable pub insert_raw : RawEvent → Tables → Result (RawEvent × Tables)
insert_raw e t =
    if leb 1 (count_where (has_raw_id e.raw_id) t.raw_events)
    then err constraint
    else ok (e, record t { raw_events = t.raw_events ++ (e ∷ []) })

unfoldable pub next_counter : Action ℕ
next_counter db = (ok (db.counter + 1), record db { counter = db.counter + 1 })

module _ ⦃lib : Library⦄ where
  -- The event that `Store` makes of a record, under the raw ID `id`.
  abbrev pub new_raw_event : Bytes → IngestedRecord → ℕ → RawEvent
  new_raw_event id rec at = record {
    raw_id = id;
    duplicate = false;
    raw_sha256 = lib.sha256_hex rec.raw_bytes;
    byte_count = length rec.raw_bytes;
    transport = rec.transport;
    source_ip = rec.source_ip;
    source_port = rec.source_port;
    metadata = rec.metadata;
    received_at = at;
    payload = rec.raw_bytes;
    status = RawStatus.accepted;
  }

  -- `rec.ReceivedAt`, or the clock where it is zero
  abbrev pub received : IngestedRecord → ℕ → ℕ
  received rec now = if rec.received_at == 0 then now else rec.received_at

  -- The part of `Store` behind the test for a replayed file-spool record.
  unfoldable pub store_new : IngestedRecord → ℕ → Bytes → Action RawEvent
  unfolding insert_raw next_counter
  store_new rec now rand = do
    seq ← next_counter
    transact
        (insert_raw (new_raw_event (lib.raw_id (received rec now) seq rand) rec (received rec now)))

  -- The row that a file-spool record was committed as before, if there is one.
  unfoldable pub store_spooled : IngestedRecord → ℕ → Bytes → Option RawEvent → Action RawEvent
  unfolding store_new retrieve
  store_spooled rec now rand none = store_new rec now rand
  store_spooled rec now rand (some row) =
      if not (str_eq row.raw_sha256 (lib.sha256_hex rec.raw_bytes))
      then raise identity_conflict
      else do e ← retrieve row.raw_id; pure (record e { duplicate = true })

  unfoldable pub store : IngestedRecord → ℕ → Bytes → Action RawEvent
  unfolding store_spooled store_new has_file_id
  store rec now rand =
      if str_eq rec.transport (codes "file") && not (str_eq rec.metadata.file_id [])
      then (do
        row ← query (λ t. find_where (same_spool rec.metadata) t.raw_events)
        store_spooled rec now rand row)
      else store_new rec now rand

  unfoldable pub verify : Bytes → Action (Bool × Bytes)
  unfolding retrieve
  verify id = do
    e ← retrieve id
    pure (str_eq (lib.sha256_hex e.payload) e.raw_sha256, lib.sha256_hex e.payload)

unfoldable pub set_status : Bytes → RawStatus → Tables → Tables
set_status id status t = record t {
  raw_events = update_where (has_raw_id id) (λ e. record e { status = status }) t.raw_events;
}

-- `RowsAffected` is 0 where no row has the ID. The statement has then changed nothing.
unfoldable pub require_affected : ℕ → Action (Unit {0})
require_affected n = if leb 1 n then pure tt else raise not_found

unfoldable pub update_status : Bytes → RawStatus → Action (Unit {0})
unfolding set_status require_affected
update_status id status = do
  n ← transact (λ t. ok (count_where (has_raw_id id) t.raw_events, set_status id status t))
  require_affected n

unfoldable pub count_raw_status : RawStatus → Action ℕ
count_raw_status status = query (λ t. count_where (λ e. status_eq e.status status) t.raw_events)

-- The IDs of the rows with a status. The order by `received_at` is not modelled.
ids_of : List RawEvent → List Bytes
ids_of [] = []
ids_of (e ∷ es) = e.raw_id ∷ ids_of es

module _ ⦃lib : Library⦄ where
  retrieve_all : List Bytes → Action (List RawEvent)
  retrieve_all [] = pure []
  retrieve_all (id ∷ ids) = do e ← retrieve id; es ← retrieve_all ids; pure (e ∷ es)

  unfoldable pub list_raw_by_status : RawStatus → Action (List RawEvent)
  unfolding ids_of retrieve_all retrieve
  list_raw_by_status status = do
    ids ← query (λ t. ids_of (keep_where (λ e. status_eq e.status status) t.raw_events))
    retrieve_all ids
