-- ===== src/Store/Outcome.antt =====
-- internal/rawstore/store.go: a child whose quarantine entry is stored has an outcome.
use worm.Base.{
  ℕ, ◌≤◌, ◌≡◌, Bool, true, false, List, leb, if◌then◌else◌, Bytes, str_eq_refl, count_where,
  Bool-cases, inl, inr, arith,
}
use worm.Library.{Library, constraint}
use worm.Model.{QuarantineEntry}
use worm.Store.Action.{ok, err, Tables, Db}
use worm.Store.Raw.{set_status}
use worm.Store.Dead.{
  same_child, refresh, upsert_refused, upsert, finish, completed_entry, quarantine,
  quarantine_child,
}
use worm.Store.Normal.{is_dead_child, outcomes}
use worm.Store.Dead as Dead
use worm.Store.Committed.{Post, PostDb, Post-map, transact-PostDb}
use worm.Store.Counts.{count_where-update, count_where-last}

-- A child has an outcome: a stored event, or an entry in the quarantine.
abbrev pub HasOutcome : Bytes → ℕ → Tables → Type 0
HasOutcome id n t = 1 ≤ outcomes id n t

-- The child of a quarantine entry.
abbrev EntryStands : QuarantineEntry → Tables → Type 0
EntryStands e t = 1 ≤ count_where (is_dead_child e.raw_id e.record_ordinal) t.quarantine

entry_is_child : (e : QuarantineEntry) → is_dead_child e.raw_id e.record_ordinal e ≡ true
entry_is_child e = let s = str_eq_refl e.raw_id in ground arith

same_child_is_child :
    (e r : QuarantineEntry)
    → same_child e r ≡ true
    → is_dead_child e.raw_id e.record_ordinal (refresh e r) ≡ true
same_child_is_child e r h = ground arith

upsert_rows-stands :
    (e : QuarantineEntry) (rows : List QuarantineEntry)
    → 1 ≤ count_where (is_dead_child e.raw_id e.record_ordinal) (Dead.upsert_rows e rows)
upsert_rows-stands e rows = elim (Bool-cases (leb 1 (count_where (same_child e) rows))) [
  | inl h ↦ rw h (
      count_where-update (same_child e) (is_dead_child e.raw_id e.record_ordinal) (refresh e) rows
        (same_child_is_child e) (ground arith))
  | inr h ↦
      rw h (count_where-last (is_dead_child e.raw_id e.record_ordinal) rows e (entry_is_child e))
]

finish-Post :
    (e : QuarantineEntry) (finalize refused : Bool) (t : Tables)
    → EntryStands e t
    → Post (λ u t'. EntryStands e t') (finish finalize e (if refused then err constraint else ok t))
unfolding finish set_status
finish-Post e finalize true t h = tt
finish-Post e true false t h = h
finish-Post e false false t h = h

upsert-Post :
    (e : QuarantineEntry) (finalize : Bool) (t : Tables)
    → Post (λ u t'. EntryStands e t') (finish finalize e (upsert e t))
unfolding upsert
upsert-Post e finalize t =
    finish-Post e finalize (upsert_refused e t)
      (record t { quarantine = Dead.upsert_rows e t.quarantine })
      (upsert_rows-stands e t.quarantine)

dead_HasOutcome :
    (id : Bytes) (n : ℕ) (t : Tables)
    → 1 ≤ count_where (is_dead_child id n) t.quarantine
    → HasOutcome id n t
dead_HasOutcome id n t h = omega (arith, h)

module _ ⦃lib : Library⦄ where
  -- Whatever the database does, an entry that was stored is an outcome of its child.
  pub quarantine_child-HasOutcome :
      (e : QuarantineEntry) (now : ℕ) (rand : Bytes) (db : Db)
      → PostDb (λ u t. HasOutcome e.raw_id e.record_ordinal t) (quarantine_child e now rand db)
  unfolding quarantine
  quarantine_child-HasOutcome e now rand db = transact-PostDb _ _ db (
      Post-map _ _ (λ u t h. dead_HasOutcome e.raw_id e.record_ordinal t h)
        (finish false (completed_entry e now rand) (upsert (completed_entry e now rand) db.tables))
        (upsert-Post (completed_entry e now rand) false db.tables))
