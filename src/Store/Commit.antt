-- ===== src/Store/Commit.antt =====
-- internal/rawstore/store.go: one record through `Store`, `Retrieve` and `Verify`.
use worm.Base.{
  ℕ, ◌+◌, Bool, true, false, List, [], ◌∷◌, ◌++◌, ◌≡◌, refl, sym, ◌∙◌, ap, inl, inr, none, some,
  Bytes, arith, Bool-cases, leb, str_eq, str_eq_refl, count_where, find_where,
}
use worm.Library.{Library}
use worm.Model.{RawEvent, IngestedRecord, ReceiveMetadata}
use worm.Store.Action.{Result, ok, err, Tables, Db, transact, commit, after, query, ◌>>=◌}
use worm.Store.Raw.{
  has_raw_id, find_raw, found, with_metadata, retrieve, insert_raw, next_counter, new_raw_event,
  received, store_new, verify,
}

find-append_absent :
    (p : RawEvent → Bool) (rows : List RawEvent) (e : RawEvent)
    → leb 1 (count_where p rows) ≡ false
    → p e ≡ true
    → find_where p (rows ++ (e ∷ [])) ≡ some e
unfolding find_where count_where
find-append_absent p [] e h q = rw q refl
find-append_absent p (r ∷ rows) e h q = ground (arith, find-append_absent p rows e)

insert_raw-find :
    (e e' : RawEvent) (t u : Tables)
    → insert_raw e t ≡ ok (e', u)
    → (e' ≡ e) × (find_raw e.raw_id u ≡ some e)
unfolding insert_raw
insert_raw-find e e' t u h =
    elim (Bool-cases (leb 1 (count_where (has_raw_id e.raw_id) t.raw_events))) [
      | inl b ↦ cc (rw b at h)
      | inr b ↦
          let k = rw b at h in
          (
            ground (arith, k),
            ap
                  (λ (x : Result (RawEvent × Tables)). elim x [
                    | ok (_, v) ↦ find_raw e.raw_id v
                    | err _ ↦ none
                  ])
                  (sym k)
                ∙ find-append_absent (has_raw_id e.raw_id) t.raw_events e b (str_eq_refl e.raw_id),
          )
    ]

-- A transaction that succeeded, over a database that fails no more.
record Committed {A : Type 0} (body : Tables → Result (A × Tables)) (db : Db) (a : A) : Type 0 where
  tables : Tables
  body_is : body db.tables ≡ ok (a, tables)
  tables_are : (transact body db).1.tables ≡ tables
  faults_are : (transact body db).1.faults ≡ []

transact-Committed :
    {A : Type 0} (body : Tables → Result (A × Tables)) (db : Db) (a : A) (r : Result (A × Tables))
    → body db.tables ≡ r
    → db.faults ≡ []
    → (transact body db).0 ≡ ok a
    → Committed body db a
unfolding transact commit
transact-Committed body db a (err e) q f h = ground (arith, q, f, h)
transact-Committed body db a (ok (b, u)) q f h = record {
  tables = u;
  body_is = ground (arith, q, f, h);
  tables_are = ground (arith, q, f);
  faults_are = ground (arith, q, f);
}

module _ ⦃lib : Library⦄ where
  -- A row as a reader has it, whose metadata are read as `m`.
  abbrev pub as_read : ReceiveMetadata → RawEvent → RawEvent
  as_read m e = record e { metadata = m; received_at = lib.read_time (lib.time_text e.received_at) }

  retrieve_lem :
      (id : Bytes) (db : Db) (e : RawEvent) (m : ReceiveMetadata)
      → db.faults ≡ []
      → find_raw id db.tables ≡ some e
      → lib.read_metadata (lib.metadata_json e.metadata) ≡ some m
      → (retrieve id db).0 ≡ ok (as_read m e)
  unfolding retrieve found with_metadata query transact commit ◌>>=◌ after
  retrieve_lem id db e m f h h' = ground (arith, f, h, h')

  verify_lem :
      (id : Bytes) (db : Db) (e : RawEvent)
      → (retrieve id db).0 ≡ ok e
      → (verify id db).0
        ≡ ok (str_eq (lib.sha256_hex e.payload) e.raw_sha256, lib.sha256_hex e.payload)
  unfolding verify ◌>>=◌ after
  verify_lem id db e h = rw h refl

  store_new-find :
      (rec : IngestedRecord) (now : ℕ) (rand : Bytes) (db : Db) (e : RawEvent)
      → db.faults ≡ []
      → (store_new rec now rand db).0 ≡ ok e
      → (find_raw e.raw_id (store_new rec now rand db).1.tables ≡ some e)
        × ((store_new rec now rand db).1.faults ≡ [])
        × (e
            ≡ new_raw_event
                (lib.raw_id (received rec now) (db.counter + 1) rand)
                rec
                (received rec now))
  unfolding store_new next_counter ◌>>=◌ after
  store_new-find rec now rand db e f h =
      let row =
        new_raw_event (lib.raw_id (received rec now) (db.counter + 1) rand) rec
          (received rec now) in
      let db' = record db { counter = db.counter + 1 } in
      let c = transact-Committed (insert_raw row) db' e (insert_raw row db.tables) refl f h in
      let (same, there) = insert_raw-find row e db.tables c.tables c.body_is in
      (ap (find_raw e.raw_id) c.tables_are ∙ rw same there, c.faults_are, same)

  -- What `Store` commits for a record that is not a file-spool record, while the database does not
  -- fail and where the JSON of the metadata is read as `m`: the payload is the one that was received;
  -- `Retrieve` finds the event under its ID, with the metadata `m`, with the time that its text is read
  -- as, and otherwise as it was committed; and `Verify` confirms its digest.
  pub store-retrieve :
      (rec : IngestedRecord) (now : ℕ) (rand : Bytes) (db : Db) (e : RawEvent) (m : ReceiveMetadata)
      → db.faults ≡ []
      → lib.read_metadata (lib.metadata_json rec.metadata) ≡ some m
      → (store_new rec now rand db).0 ≡ ok e
      → (e.payload ≡ rec.raw_bytes)
        × ((retrieve e.raw_id (store_new rec now rand db).1).0 ≡ ok (as_read m e))
        × ((verify e.raw_id (store_new rec now rand db).1).0 ≡ ok (true, e.raw_sha256))
  store-retrieve rec now rand db e m f read h =
      let (there, f', same) = store_new-find rec now rand db e f h in
      let read' : lib.read_metadata (lib.metadata_json e.metadata) ≡ some m =
        ap (λ (x : RawEvent). lib.read_metadata (lib.metadata_json x.metadata)) same ∙ read in
      let got = retrieve_lem e.raw_id (store_new rec now rand db).1 e m f' there read' in
      let digest : lib.sha256_hex e.payload ≡ e.raw_sha256 =
        ap (λ (x : RawEvent). lib.sha256_hex x.payload) same
        ∙ sym (ap (λ (x : RawEvent). x.raw_sha256) same) in
      (
        ap (λ (x : RawEvent). x.payload) same,
        got,
        verify_lem e.raw_id (store_new rec now rand db).1 (as_read m e) got
            ∙ rw digest (rw (str_eq_refl e.raw_sha256) refl),
      )
