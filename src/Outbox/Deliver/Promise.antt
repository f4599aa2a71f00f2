-- ===== src/Outbox/Deliver/Promise.antt =====
-- internal/pipeline/pipeline.go: the rows of the queue over one run of `deliverPending`.
use worm.Base.{
  ℕ, ◌≤◌, ◌≡◌, refl, sym, ◌∙◌, ap, List, [], ◌∷◌, inl, inr, Option, none, some, Bytes, arith,
  Bool-cases, take, keep_where,
}
use mathlib.Core.Path.{subst}
use worm.Library.{Library}
use worm.Model.{NormalizedEvent}
use worm.Store.Action.{
  Result, ok, err, OutboxEntry, DeliveryStatus, Tables, Db, transact, commit, query, next_fault,
}
use worm.Outbox.Queue.{
  acknowledged, refused, due, fetch_pending, fetch_limit, mark_delivered, mark_failed, status_after,
}
use worm.Outbox.Rows.{
  Label, labels, AllRows, IsAscending, Fits, kept-Fits, AllRows-take, labels-update_where,
  AllRows-update_where,
}
use worm.Outbox.Deliver.{
  deliver_entry, deliver_entries, deliver_fetched, deliver_pending, emitted, after_emit_to,
  count_marked, backoff_of, hour,
}
use worm.Pipeline.World.{World, run, run_, count_delivered}

-- A statement that gives no error of its own either changes the tables or fails.
transact-rule :
    {A : Type 0} (P : Tables → Type 0) (a : A) (f : Tables → Tables) (db : Db)
    → P db.tables
    → P (f db.tables)
    → P (transact (λ t. ok (a, f t)) db).1.tables
unfolding transact commit
transact-rule P a f db h k = elim (Bool-cases (next_fault db.faults)) [
  | inl e ↦ rw e h
  | inr e ↦ rw e k
]

weaken :
    (n : ℕ) (ls : List Label) (es : List OutboxEntry)
    → AllRows (λ e. (n ≤ e.id) × Fits e ls) es
    → AllRows (λ e. Fits e ls) es
weaken n ls [] a = tt
weaken n ls (e ∷ es) a = (a.0.1, weaken n ls es a.1)

fetch_pending-tables : (limit now : ℕ) (db : Db) → (fetch_pending limit now db).1.tables ≡ db.tables
unfolding fetch_pending query
fetch_pending-tables limit now db = transact-rule (λ t. t ≡ db.tables) _ (λ t. t) db refl refl

-- The fetched entries are copies of rows.
fetch_pending-Fits :
    (limit now : ℕ) (db : Db)
    → IsAscending 1 db.tables.outbox
    → (es : List OutboxEntry) → (fetch_pending limit now db).0 ≡ ok es
    → AllRows (λ e. Fits e (labels db.tables.outbox)) es
unfolding fetch_pending query transact commit
fetch_pending-Fits limit now db a es h = elim (Bool-cases (next_fault db.faults)) [
  | inl e ↦ cc (rw (e, commit) at h)
  | inr e ↦
      let q : take (fetch_limit limit) (keep_where (due now) db.tables.outbox) ≡ es =
        ground (arith, rw (e, commit) at h) in
      subst (AllRows (λ e. Fits e (labels db.tables.outbox))) q (
        AllRows-take _ (fetch_limit limit) _
          (weaken 1 _ _ (kept-Fits (due now) 1 db.tables.outbox a)))
]

module _ ⦃lib : Library⦄ {S : Type 0}
    (emit_to : Bytes → NormalizedEvent → S → Result (Unit {0}) × S)
    (Got : Bytes → Bytes → S → Type 0) where
  -- What a sink documents: `Got dest payload` says that a destination has taken the event of a
  -- payload, which it has when the sink reports no error, and which later events do not undo.
  pub record IsSink : Type 0 where
    pub takes :
        (dest payload : Bytes) (event : NormalizedEvent) (s : S)
        → lib.unmarshal payload ≡ some event
        → (emit_to dest event s).0 ≡ ok tt
        → Got dest payload (emit_to dest event s).1
    pub keeps :
        (dest payload dest' : Bytes) (event : NormalizedEvent) (s : S)
        → Got dest payload s
        → Got dest payload (emit_to dest' event s).1

  -- A row waits, or its destination has taken it, or its payload cannot be read.
  pub data Sound (s : S) (r : OutboxEntry) : Type 0 where
    waits : r.status ≡ DeliveryStatus.pending → Sound s r
    sent : r.status ≡ DeliveryStatus.delivered → Got r.destination r.payload s → Sound s r
    unreadable : r.status ≡ DeliveryStatus.failed → lib.unmarshal r.payload ≡ none → Sound s r

  -- The rows are those with these labels, and each is sound.
  pub record Promised (ls : List Label) (s : S) (t : Tables) : Type 0 where
    pub same_rows : labels t.outbox ≡ ls
    pub sound : AllRows (Sound s) t.outbox

  Sound-later :
      (sink : IsSink) (dest : Bytes) (event : NormalizedEvent) (s : S) (rows : List OutboxEntry)
      → AllRows (Sound s) rows
      → AllRows (Sound (emit_to dest event s).1) rows
  Sound-later sink dest event s [] a = tt
  Sound-later sink dest event s (r ∷ rows) (waits q, a) =
      (waits q, Sound-later sink dest event s rows a)
  Sound-later sink dest event s (r ∷ rows) (sent q g, a) =
      (sent q (sink.keeps _ _ dest event s g), Sound-later sink dest event s rows a)
  Sound-later sink dest event s (r ∷ rows) (unreadable q u, a) =
      (unreadable q u, Sound-later sink dest event s rows a)

  module _ (ls : List Label) (e : OutboxEntry) (fits : Fits e ls) (s : S) (now : ℕ) (db : Db)
      (h : Promised ls s db.tables) where
    mark_delivered-Promised :
        Got e.destination e.payload s → Promised ls s (mark_delivered e.id now db).1.tables
    unfolding mark_delivered
    mark_delivered-Promised g = transact-rule (Promised ls s) tt _ db h (record {
      same_rows =
          labels-update_where _ (acknowledged now) db.tables.outbox (λ r. refl) ∙ h.same_rows;
      sound =
          AllRows-update_where (Sound s) e (acknowledged now) db.tables.outbox
            (subst (Fits e) (sym h.same_rows) fits) (λ r d y _. sent refl (rw (d, y) g)) h.sound;
    })

    mark_retry-Promised :
        (details : Bytes) (backoff : ℕ)
        → Promised ls s (mark_failed e.id details backoff 0 now db).1.tables
    unfolding mark_failed status_after
    mark_retry-Promised details backoff = transact-rule (Promised ls s) tt _ db h (record {
      same_rows =
          labels-update_where _ (refused details backoff 0 now) db.tables.outbox (λ r. refl)
          ∙ h.same_rows;
      sound =
          AllRows-update_where (Sound s) e (refused details backoff 0 now) db.tables.outbox
            (subst (Fits e) (sym h.same_rows) fits) (λ r d y _. waits refl) h.sound;
    })

    mark_unreadable-Promised :
        lib.unmarshal e.payload ≡ none
        → (details : Bytes) (backoff : ℕ)
        → Promised ls s (mark_failed e.id details backoff 1 now db).1.tables
    unfolding mark_failed status_after
    mark_unreadable-Promised u details backoff = transact-rule (Promised ls s) tt _ db h (record {
      same_rows =
          labels-update_where _ (refused details backoff 1 now) db.tables.outbox (λ r. refl)
          ∙ h.same_rows;
      sound =
          AllRows-update_where (Sound s) e (refused details backoff 1 now) db.tables.outbox
            (subst (Fits e) (sym h.same_rows) fits)
            (λ r d y _. unreadable (ground arith) (ap lib.unmarshal y ∙ u)) h.sound;
    })

  module _ (sink : IsSink) (now : ℕ) (ls : List Label) where
    count_marked-Promised :
        (r : Result (Unit {0})) (w : World S)
        → Promised ls w.sink w.db.tables
        → Promised ls (count_marked emit_to now r w).sink (count_marked emit_to now r w).db.tables
    unfolding count_marked count_delivered
    count_marked-Promised (ok _) w h = h
    count_marked-Promised (err _) w h = h

    after_emit_to-Promised :
        (e : OutboxEntry) (r : Result (Unit {0})) (w : World S)
        → Fits e ls
        → Promised ls w.sink w.db.tables
        → (r ≡ ok tt → Got e.destination e.payload w.sink)
        → Promised ls
            (after_emit_to emit_to now e r w).sink
            (after_emit_to emit_to now e r w).db.tables
    unfolding after_emit_to run run_
    after_emit_to-Promised e (ok tt) w fits h g =
        count_marked-Promised _ _ (mark_delivered-Promised ls e fits w.sink now w.db h (g refl))
    after_emit_to-Promised e (err x) w fits h g =
        mark_retry-Promised ls e fits w.sink now w.db h (lib.error_text x) (backoff_of e.attempts)

    emitted-Promised :
        (e : OutboxEntry) (o : Option NormalizedEvent) (w : World S)
        → lib.unmarshal e.payload ≡ o
        → Fits e ls
        → Promised ls w.sink w.db.tables
        → Promised ls (emitted emit_to now e o w).sink (emitted emit_to now e o w).db.tables
    unfolding emitted run_
    emitted-Promised e none w u fits h =
        mark_unreadable-Promised ls e fits w.sink now w.db h u _ hour
    emitted-Promised e (some event) w u fits h =
        after_emit_to-Promised e _ _ fits
          (record {
            same_rows = h.same_rows;
            sound = Sound-later sink e.destination event w.sink w.db.tables.outbox h.sound;
          })
          (sink.takes e.destination e.payload event w.sink u)

    deliver_entries-Promised :
        (es : List OutboxEntry) (w : World S)
        → AllRows (λ e. Fits e ls) es
        → Promised ls w.sink w.db.tables
        → Promised ls
            (deliver_entries emit_to now es w).sink
            (deliver_entries emit_to now es w).db.tables
    unfolding deliver_entries deliver_entry
    deliver_entries-Promised [] w fits h = h
    deliver_entries-Promised (e ∷ es) w fits h =
        deliver_entries-Promised es (deliver_entry emit_to now e w) fits.1
          (emitted-Promised e (lib.unmarshal e.payload) w refl fits.0 h)

    deliver_fetched-Promised :
        (r : Result (List OutboxEntry)) (w : World S)
        → ((es : List OutboxEntry) → r ≡ ok es → AllRows (λ e. Fits e ls) es)
        → Promised ls w.sink w.db.tables
        → Promised ls
            (deliver_fetched emit_to now r w).sink
            (deliver_fetched emit_to now r w).db.tables
    unfolding deliver_fetched
    deliver_fetched-Promised (err x) w fits h = h
    deliver_fetched-Promised (ok es) w fits h = deliver_entries-Promised es w (fits es refl) h

  -- Over a sink that keeps what it takes, and rows whose IDs ascend and that are sound, one run of
  -- the delivery loop leaves the same rows in the queue, with the same destinations and payloads,
  -- and each is sound still: whichever statements of the database fail, a row is marked as delivered
  -- only if its destination has taken the event, and as failed only if its payload cannot be read.
  pub deliver_pending-Promised :
      (sink : IsSink) (now : ℕ) (w : World S)
      → IsAscending 1 w.db.tables.outbox
      → AllRows (Sound w.sink) w.db.tables.outbox
      → Promised
          (labels w.db.tables.outbox)
          (deliver_pending emit_to now w).sink
          (deliver_pending emit_to now w).db.tables
  unfolding deliver_pending run
  deliver_pending-Promised sink now w ascending sound =
      let fetched = fetch_pending 100 now w.db in
      deliver_fetched-Promised sink now _ fetched.0 (record w { db = fetched.1 })
        (fetch_pending-Fits 100 now w.db ascending)
        (subst (Promised (labels w.db.tables.outbox) w.sink)
          (sym (fetch_pending-tables 100 now w.db)) (record { same_rows = refl; sound = sound }))
