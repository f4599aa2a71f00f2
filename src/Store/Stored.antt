-- ===== src/Store/Stored.antt =====
-- internal/rawstore/store.go: a child whose event is stored has an outcome.
use worm.Base.{
  ℕ, ◌≤◌, ◌≡◌, refl, ◌∙◌, ap, Bool, true, false, ◌&&◌, not, List, [], ◌∷◌, Option, none, some, leb,
  if◌then◌else◌, Bytes, str_eq_refl, count_where, find_where, count_where-append, Bool-cases, inl,
  inr, arith,
}
use worm.Library.{Library, constraint, marshal_failed}
use worm.Model.{NormalizedEvent}
use worm.Store.Action.{err, Tables, Db, NormalizedRow}
use worm.Store.Normal.{
  is_child, is_dead_child, outcomes, row_of, has_event_id, overwrite, enqueue_intent,
  enqueue_intents, reused_id, stored_event, put_event, same_delivery, store_normalized_tx,
  store_normalized_with_outbox, has_completed_child,
}
use worm.Store.Normal as Normal
use worm.Store.Committed.{Post, PostDb, Post-map, guarded-Post, transact-PostDb}
use worm.Store.Counts.{count_where-unseen, count_where-split, count_where-find, count_where-last}
use worm.Store.Outcome.{HasOutcome}

-- No row of another child has the ID.
abbrev pub NoneOther : Bytes → ℕ → Bytes → Tables → Type 0
NoneOther id n event t =
    count_where (λ r. has_event_id event r && not (is_child id n r)) t.normalized_events ≡ 0

row_is_child :
    ⦃lib : Library⦄ (e : NormalizedEvent) (json : Bytes)
    → is_child e.envelope.raw_id e.envelope.record_ordinal (row_of e json) ≡ true
row_is_child e json = let s = str_eq_refl e.envelope.raw_id in ground arith

-- A write leaves the rows of a child.
upsert_rows-keeps :
    (id : Bytes) (n : ℕ) (row : NormalizedRow) (rows : List NormalizedRow)
    → 1 ≤ count_where (is_child id n) rows
    → 1 ≤ count_where (is_child id n) (Normal.upsert_rows row rows)
upsert_rows-keeps id n row rows h =
    elim (Bool-cases (leb 1 (count_where (has_event_id row.event_id) rows))) [
      | inl e ↦ rw e (
          omega (
            arith,
            h,
            count_where-unseen (has_event_id row.event_id) (is_child id n) (overwrite row) rows
                (λ r. refl),
          ))
      | inr e ↦ rw e (omega (arith, h, count_where-append (is_child id n) rows (row ∷ [])))
    ]

upsert_rows-adds :
    (id : Bytes) (n : ℕ) (row : NormalizedRow) (rows : List NormalizedRow)
    → is_child id n row ≡ true
    → count_where (has_event_id row.event_id) rows ≡ 0
    → 1 ≤ count_where (is_child id n) (Normal.upsert_rows row rows)
upsert_rows-adds id n row rows h none_ = rw none_ (count_where-last (is_child id n) rows row h)

normalized_events-enqueue_intent :
    (event json : Bytes) (now : ℕ) (dest : Bytes) (t : Tables)
    → (enqueue_intent event json now dest t).normalized_events ≡ t.normalized_events
unfolding enqueue_intent
normalized_events-enqueue_intent event json now dest t =
    same (leb 1 (count_where (same_delivery event dest) t.outbox)) _ _ refl refl
  where
    same :
        (b : Bool) (u v : Tables)
        → u.normalized_events ≡ t.normalized_events
        → v.normalized_events ≡ t.normalized_events
        → (if b then u else v).normalized_events ≡ t.normalized_events
    same true u v h h' = h
    same false u v h h' = h'

normalized_events-enqueue_intents :
    (event json : Bytes) (now : ℕ) (dests : List Bytes) (t : Tables)
    → (enqueue_intents event json now dests t).normalized_events ≡ t.normalized_events
unfolding enqueue_intents
normalized_events-enqueue_intents event json now [] t = refl
normalized_events-enqueue_intents event json now (d ∷ ds) t =
    normalized_events-enqueue_intents event json now ds (enqueue_intent event json now d t)
    ∙ normalized_events-enqueue_intent event json now d t

-- An event of a child, whose ID no row of another child has.
pub record IsOwn (id : Bytes) (n : ℕ) (e : NormalizedEvent) (t : Tables) : Type 0 where
  pub same_raw : e.envelope.raw_id ≡ id
  pub same_ordinal : e.envelope.record_ordinal ≡ n
  pub none_other : NoneOther id n e.envelope.event_id t

module _ ⦃lib : Library⦄ (id : Bytes) (n : ℕ) where
  abbrev EventStands : NormalizedEvent → Tables → Type 0
  EventStands e t = 1 ≤ count_where (is_child id n) t.normalized_events

  put_event-Post :
      (e : NormalizedEvent) (now : ℕ) (dests : List Bytes) (t : Tables)
      → ((json : Bytes)
          → 1
            ≤ count_where (is_child id n) (Normal.upsert_rows (row_of e json) t.normalized_events))
      → Post EventStands (put_event e now dests t)
  unfolding put_event
  put_event-Post e now dests t h =
      guarded-Post EventStands _ (e, _) constraint
        (rw (normalized_events-enqueue_intents e.envelope.event_id _ now dests _) (h _))

  stored-rows :
      (e : NormalizedEvent) (t : Tables) (json : Bytes)
      → IsOwn id n e t
      → 1
        ≤ count_where
            (is_child id n)
            (Normal.upsert_rows (row_of (stored_event e t) json) t.normalized_events)
  stored-rows e t json own =
      elim (Bool-cases (leb 1 (count_where (is_child id n) t.normalized_events))) [
        | inl h ↦ upsert_rows-keeps id n _ t.normalized_events (ground arith)
        | inr h ↦
            let rows = t.normalized_events in
            let zero_ : count_where (is_child id n) rows ≡ 0 = ground arith in
            let unseen : find_where (is_child e.envelope.raw_id e.envelope.record_ordinal) rows
                ≡ none =
              rw (own.same_raw, own.same_ordinal) (count_where-find (is_child id n) rows zero_) in
            let new_id : (stored_event e t).envelope.event_id ≡ e.envelope.event_id =
              unfold reused_id in ap (λ o. reused_id o e.envelope.event_id) unseen in
            let none_ : count_where (has_event_id e.envelope.event_id) rows ≡ 0 = omega (
              arith,
              count_where-split (has_event_id e.envelope.event_id) (is_child id n) rows,
              own.none_other,
              zero_,
            ) in
            upsert_rows-adds id n (row_of (stored_event e t) json) rows
              (rw (← own.same_raw, ← own.same_ordinal) (row_is_child (stored_event e t) json))
              (ap (λ i. count_where (has_event_id i) rows) new_id ∙ none_)
      ]

  store_normalized_tx-Post :
      (e : NormalizedEvent) (now : ℕ) (dests : List Bytes) (t : Tables)
      → IsOwn id n e t
      → Post EventStands (store_normalized_tx e now dests t)
  unfolding store_normalized_tx
  store_normalized_tx-Post e now dests t own = marshalled (lib.marshal e)
    where
      marshalled :
          (o : Option Bytes)
          → Post EventStands (elim o [
            | none ↦ err marshal_failed
            | some _ ↦ put_event (stored_event e t) now dests t
          ])
      marshalled none = tt
      marshalled (some json) =
          put_event-Post (stored_event e t) now dests t (λ json. stored-rows e t json own)

  -- Whatever the database does, a child whose event was stored has an outcome.
  pub store_normalized_with_outbox-HasOutcome :
      (e : NormalizedEvent) (now : ℕ) (dests : List Bytes) (db : Db)
      → IsOwn id n e db.tables
      → PostDb (λ e' t. HasOutcome id n t) (store_normalized_with_outbox e now dests db)
  unfolding store_normalized_with_outbox
  store_normalized_with_outbox-HasOutcome e now dests db own = transact-PostDb _ _ db (
      Post-map EventStands _ (λ e' t h. omega (arith, h))
        (store_normalized_tx e now dests db.tables)
        (store_normalized_tx-Post e now dests db.tables own))
