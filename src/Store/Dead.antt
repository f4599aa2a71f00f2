-- ===== src/Store/Dead.antt =====
-- internal/rawstore/store.go: the quarantine, where records that could not be processed are kept.
use worm.Base.{
  ℕ, Bool, true, false, ◌&&◌, ◌||◌, not, List, [], ◌∷◌, ◌++◌, Option, none, some, ◌==◌, leb,
  if◌then◌else◌, Bytes, str_eq, count_where, find_where, update_where, keep_where, length,
}
use worm.Library.{Library, constraint}
use worm.Model.{QuarantineEntry, RawStatus}
use worm.Store.Action.{Result, ok, err, Tables, Action, ◌>>=◌, transact, query}
use worm.Store.Raw.{has_raw_id, found, set_status, require_affected}

-- The key of the index `idx_quarantine_child`.
abbrev pub same_child : QuarantineEntry → QuarantineEntry → Bool
same_child e r =
    str_eq r.raw_id e.raw_id
    && r.record_ordinal == e.record_ordinal
    && str_eq r.stage e.stage
    && str_eq r.reason e.reason

-- `DO UPDATE SET`
abbrev pub refresh : QuarantineEntry → QuarantineEntry → QuarantineEntry
refresh e r = record r {
  error_details = e.error_details;
  raw_preview = e.raw_preview;
  candidate_packs = e.candidate_packs;
  replay_eligible = e.replay_eligible;
}

abbrev pub has_id : Bytes → QuarantineEntry → Bool
has_id id r = str_eq r.quarantine_id id

-- The primary key, which the upsert does not cover, and the foreign key.
abbrev pub upsert_refused : QuarantineEntry → Tables → Bool
upsert_refused e t =
    leb 1 (count_where (λ r. has_id e.quarantine_id r && not (same_child e r)) t.quarantine)
    || not (leb 1 (count_where (has_raw_id e.raw_id) t.raw_events))

abbrev pub upsert_rows : QuarantineEntry → List QuarantineEntry → List QuarantineEntry
upsert_rows e rows =
    if leb 1 (count_where (same_child e) rows)
    then update_where (same_child e) (refresh e) rows
    else rows ++ (e ∷ [])

unfoldable pub upsert : QuarantineEntry → Tables → Result (Tables)
upsert e t =
    if upsert_refused e t
    then err constraint
    else ok (record t { quarantine = upsert_rows e t.quarantine })

unfoldable pub finish : Bool → QuarantineEntry → Result Tables → Result ((Unit {0}) × Tables)
unfolding set_status
finish finalize e (err x) = err x
finish finalize e (ok t) =
    ok (tt, if finalize then set_status e.raw_id RawStatus.quarantined t else t)

module _ ⦃lib : Library⦄ where
  -- A missing ID and a zero time are filled in.
  abbrev pub completed_entry : QuarantineEntry → ℕ → Bytes → QuarantineEntry
  completed_entry e now rand = record e {
    quarantine_id =
        if str_eq e.quarantine_id [] then lib.quarantine_id now rand else e.quarantine_id;
    quarantined_at = if e.quarantined_at == 0 then now else e.quarantined_at;
  }

  unfoldable pub quarantine : QuarantineEntry → Bool → ℕ → Bytes → Action (Unit {0})
  unfolding upsert finish
  quarantine e finalize now rand =
      let entry = completed_entry e now rand in
      transact (λ t. finish finalize entry (upsert entry t))

  abbrev pub quarantine_child : QuarantineEntry → ℕ → Bytes → Action (Unit {0})
  quarantine_child e now rand = quarantine e false now rand

unfoldable pub get_quarantine_by_id : Bytes → Action QuarantineEntry
unfolding found
get_quarantine_by_id id = do e ← query (λ t. find_where (has_id id) t.quarantine); found e

unfoldable pub mark_replayed : Bytes → ℕ → Action (Unit {0})
unfolding require_affected
mark_replayed id now = do
  n ← transact (λ t. ok (
    count_where (has_id id) t.quarantine,
    record t {
      quarantine = update_where (has_id id) (λ r. record r { replayed_at = some now }) t.quarantine;
    },
  ))
  require_affected n

unfoldable pub delete_quarantine : Bytes → Action (Unit {0})
delete_quarantine id =
    transact
      (λ t. ok (tt, record t { quarantine = keep_where (λ r. not (has_id id r)) t.quarantine }))

unreplayed : Option ℕ → Bool
unreplayed none = true
unreplayed (some _) = false

ids_of : List QuarantineEntry → List Bytes
ids_of [] = []
ids_of (r ∷ rs) = r.quarantine_id ∷ ids_of rs

-- The order by `quarantined_at` is not modelled.
unfoldable pub get_replay_pending_ids : Bool → Action (List Bytes)
unfolding ids_of unreplayed
get_replay_pending_ids include_replayed = query (λ t. ids_of (
    keep_where (λ r. r.replay_eligible && (include_replayed || unreplayed r.replayed_at))
      t.quarantine))

unfoldable pub count_quarantine : Action ℕ
count_quarantine = query (λ t. length t.quarantine)
