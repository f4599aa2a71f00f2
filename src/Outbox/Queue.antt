-- ===== src/Outbox/Queue.antt =====
-- internal/outbox/outbox.go: the durable queue, on the table `outbox` of the store's database. The
-- rows stand in the order of their IDs, which AUTOINCREMENT hands out. The clock is an argument.
pub mod Order
use worm.Base.{
  ℕ, ◌+◌, Bool, true, false, ◌&&◌, not, List, [], ◌∷◌, ◌++◌, Option, none, some, ◌==◌, leb, ltb,
  if◌then◌else◌, Bytes, take, length, count_where, keep_where, update_where, str_eq,
}
use worm.Library.{Error, constraint}
use worm.Store.Action.{
  Result, ok, err, OutboxEntry, DeliveryStatus, Tables, Action, transact, query,
}
use worm.Store.Normal.{same_delivery}

abbrev pub new_entry : ℕ → Bytes → Bytes → Bytes → ℕ → OutboxEntry
new_entry id event dest payload now = record {
  id = id;
  event_id = event;
  destination = dest;
  payload = payload;
  attempts = 0;
  next_retry_at = now;
  acknowledged_at = none;
  error_details = none;
  status = DeliveryStatus.pending;
  created_at = now;
}

-- `Enqueue`: the index on the event and the destination refuses a second row.
unfoldable pub enqueue : Bytes → Bytes → Bytes → ℕ → Action ℕ
enqueue event dest payload now = transact λ t.
    if leb 1 (count_where (same_delivery event dest) t.outbox)
    then err constraint
    else ok (
      t.next_outbox_id,
      record t {
        outbox = t.outbox ++ (new_entry t.next_outbox_id event dest payload now ∷ []);
        next_outbox_id = t.next_outbox_id + 1;
      },
    )

unfoldable pub status_is : DeliveryStatus → DeliveryStatus → Bool
status_is DeliveryStatus.pending DeliveryStatus.pending = true
status_is DeliveryStatus.delivered DeliveryStatus.delivered = true
status_is DeliveryStatus.failed DeliveryStatus.failed = true
status_is _ _ = false

unfoldable pub due : ℕ → OutboxEntry → Bool
unfolding status_is
due now r = status_is DeliveryStatus.pending r.status && leb r.next_retry_at now

-- `if limit <= 0 { limit = 100 }`; a limit that is not positive is 0 here.
unfoldable pub fetch_limit : ℕ → ℕ
fetch_limit limit = if limit == 0 then 100 else limit

unfoldable pub fetch_pending : ℕ → ℕ → Action (List OutboxEntry)
unfolding due fetch_limit
fetch_pending limit now = query (λ t. take (fetch_limit limit) (keep_where (due now) t.outbox))

abbrev pub has_id : ℕ → OutboxEntry → Bool
has_id id r = r.id == id

abbrev pub acknowledged : ℕ → OutboxEntry → OutboxEntry
acknowledged now r = record r {
  status = DeliveryStatus.delivered;
  acknowledged_at = some now;
  error_details = none;
}

unfoldable pub mark_delivered : ℕ → ℕ → Action (Unit {0})
mark_delivered id now =
    transact
      (λ t. ok (tt, record t { outbox = update_where (has_id id) (acknowledged now) t.outbox }))

-- The CASE of `MarkFailed`.
unfoldable pub status_after : ℕ → ℕ → DeliveryStatus
status_after max_attempts attempts =
    if ltb 0 max_attempts && leb max_attempts (attempts + 1)
    then DeliveryStatus.failed
    else DeliveryStatus.pending

abbrev pub refused : Bytes → ℕ → ℕ → ℕ → OutboxEntry → OutboxEntry
refused details backoff max_attempts now r = record r {
  attempts = r.attempts + 1;
  next_retry_at = now + backoff;
  error_details = some details;
  status = status_after max_attempts r.attempts;
}

unfoldable pub mark_failed : ℕ → Bytes → ℕ → ℕ → ℕ → Action (Unit {0})
mark_failed id details backoff max_attempts now = transact λ t. ok (
  tt,
  record t {
    outbox = update_where (has_id id) (refused details backoff max_attempts now) t.outbox;
  },
)

unfoldable pub count_by_status : DeliveryStatus → Action ℕ
unfolding status_is
count_by_status s = query (λ t. count_where (λ r. status_is s r.status) t.outbox)
