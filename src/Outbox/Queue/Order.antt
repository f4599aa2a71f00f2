-- ===== src/Outbox/Queue/Order.antt =====
-- internal/outbox/outbox.go: the keys of the table, its IDs and its index on event and destination.
use worm.Base.{
  ℕ, ◌+◌, ◌≤◌, ◌≡◌, refl, ap, Bool, true, false, ◌&&◌, List, [], ◌∷◌, ◌++◌, inl, inr, Bytes, arith,
  Bool-cases, leb, count_where, count_where-append, update_where, str_eq, str_eq_iff,
}
use mathlib.Core.Path.{subst}
use worm.Store.Action.{Result, ok, err, OutboxEntry, Tables, Db, transact, commit, next_fault}
use worm.Store.Normal.{same_delivery, enqueue_intent, enqueue_intents}
use worm.Outbox.Rows.{IsAscending}
use worm.Outbox.Queue.{
  new_entry, enqueue, has_id, acknowledged, refused, mark_delivered, mark_failed,
}

-- The IDs ascend from `lo`, and those from `hi` on are not in use.
abbrev pub IsIssued : ℕ → ℕ → List OutboxEntry → Type 0
IsIssued lo hi [] = lo ≤ hi
IsIssued lo hi (r ∷ rows) = (lo ≤ r.id) × IsIssued (r.id + 1) hi rows

pub record IsQueue (t : Tables) : Type 0 where
  pub issued : IsIssued 1 t.next_outbox_id t.outbox
  pub single : (event dest : Bytes) → count_where (same_delivery event dest) t.outbox ≤ 1

pub issued-IsAscending :
    (lo hi : ℕ) (rows : List OutboxEntry) → IsIssued lo hi rows → IsAscending lo rows
issued-IsAscending lo hi [] h = tt
issued-IsAscending lo hi (r ∷ rows) h = (h.0, issued-IsAscending (r.id + 1) hi rows h.1)

IsIssued-append :
    (lo hi : ℕ) (rows : List OutboxEntry) (r : OutboxEntry)
    → r.id ≡ hi
    → IsIssued lo hi rows
    → IsIssued lo (hi + 1) (rows ++ (r ∷ []))
IsIssued-append lo hi [] r q h = (omega (arith, h, q), omega (arith, q))
IsIssued-append lo hi (x ∷ rows) r q h = (h.0, IsIssued-append (x.id + 1) hi rows r q h.1)

-- A change of rows that leaves what stands in the two indexes.
record KeepsKeys (f : OutboxEntry → OutboxEntry) : Type 0 where
  same_id : (r : OutboxEntry) → (f r).id ≡ r.id
  same_event : (r : OutboxEntry) → (f r).event_id ≡ r.event_id
  same_dest : (r : OutboxEntry) → (f r).destination ≡ r.destination

IsIssued-update_where :
    (p : OutboxEntry → Bool) (f : OutboxEntry → OutboxEntry) (k : KeepsKeys f) (lo hi : ℕ)
    (rows : List OutboxEntry)
    → IsIssued lo hi rows
    → IsIssued lo hi (update_where p f rows)
unfolding update_where
IsIssued-update_where p f k lo hi [] h = h
IsIssued-update_where p f k lo hi (r ∷ rows) h = elim (Bool-cases (p r)) [
  | inl e ↦ rw (e, k.same_id r) (h.0, IsIssued-update_where p f k (r.id + 1) hi rows h.1)
  | inr e ↦ rw e (h.0, IsIssued-update_where p f k (r.id + 1) hi rows h.1)
]

count-update_where :
    (p : OutboxEntry → Bool) (f : OutboxEntry → OutboxEntry) (k : KeepsKeys f) (event dest : Bytes)
    (rows : List OutboxEntry)
    → count_where (same_delivery event dest) (update_where p f rows)
      ≡ count_where (same_delivery event dest) rows
unfolding update_where count_where
count-update_where p f k event dest [] = refl
count-update_where p f k event dest (r ∷ rows) = elim (Bool-cases (p r)) [
  | inl e ↦ rw (e, k.same_event r, k.same_dest r, count-update_where p f k event dest rows) refl
  | inr e ↦ rw (e, count-update_where p f k event dest rows) refl
]

IsQueue-update_where :
    (p : OutboxEntry → Bool) (f : OutboxEntry → OutboxEntry) (k : KeepsKeys f) (t : Tables)
    → IsQueue t
    → IsQueue (record t { outbox = update_where p f t.outbox })
IsQueue-update_where p f k t q = record {
  issued = IsIssued-update_where p f k 1 t.next_outbox_id t.outbox q.issued;
  single = λ event dest.
      omega (arith, count-update_where p f k event dest t.outbox, q.single event dest);
}

absent_at :
    (event dest e d : Bytes) (rows : List OutboxEntry)
    → leb 1 (count_where (same_delivery event dest) rows) ≡ false
    → str_eq event e && str_eq dest d ≡ true
    → count_where (same_delivery e d) rows ≡ 0
absent_at event dest e d rows h q =
    let p : event ≡ e = (str_eq_iff event e).0 (ground (arith, q)) in
    let r : dest ≡ d = (str_eq_iff dest d).0 (ground (arith, q)) in ground (arith, rw (p, r) at h)

IsQueue-append :
    (event dest payload : Bytes) (now : ℕ) (t : Tables)
    → leb 1 (count_where (same_delivery event dest) t.outbox) ≡ false
    → IsQueue t
    → IsQueue (record t {
      outbox = t.outbox ++ (new_entry t.next_outbox_id event dest payload now ∷ []);
      next_outbox_id = t.next_outbox_id + 1;
    })
unfolding count_where
IsQueue-append event dest payload now t absent q = record {
  issued = IsIssued-append 1 t.next_outbox_id t.outbox _ refl q.issued;
  single = λ e d. ground (
    arith,
    count_where-append (same_delivery e d) t.outbox
        (new_entry t.next_outbox_id event dest payload now ∷ []),
    q.single e d,
    absent_at event dest e d t.outbox absent,
  );
}

committed-IsQueue :
    {A : Type 0} (db : Db) (r : Result (A × Tables))
    → IsQueue db.tables
    → ((a : A) (u : Tables) → r ≡ ok (a, u) → IsQueue u)
    → IsQueue (commit db r).1.tables
unfolding commit
committed-IsQueue db (ok (a, u)) q h = h a u refl
committed-IsQueue db (err e) q h = q

transact-IsQueue :
    {A : Type 0} (body : Tables → Result (A × Tables)) (db : Db)
    → IsQueue db.tables
    → ((a : A) (u : Tables) → body db.tables ≡ ok (a, u) → IsQueue u)
    → IsQueue (transact body db).1.tables
unfolding transact
transact-IsQueue body db q h = elim (Bool-cases (next_fault db.faults)) [
  | inl e ↦ rw e (unfold commit in q)
  | inr e ↦ rw e (committed-IsQueue db (body db.tables) q h)
]

-- The tables of a result, or these.
abbrev second_of : {A : Type 0} → Tables → Result (A × Tables) → Tables
second_of t (ok (a, u)) = u
second_of t (err e) = t

enqueue_intent-IsQueue :
    (event json : Bytes) (now : ℕ) (dest : Bytes) (t : Tables)
    → IsQueue t
    → IsQueue (enqueue_intent event json now dest t)
unfolding enqueue_intent
enqueue_intent-IsQueue event json now dest t q =
    elim (Bool-cases (leb 1 (count_where (same_delivery event dest) t.outbox))) [
      | inl e ↦
          rw (e, enqueue_intent)
            (IsQueue-update_where _ _
              (record { same_id = λ r. refl; same_event = λ r. refl; same_dest = λ r. refl }) t q)
      | inr e ↦ rw (e, enqueue_intent) (IsQueue-append event dest json now t e q)
    ]

enqueue_intents-IsQueue :
    (event json : Bytes) (now : ℕ) (dests : List Bytes) (t : Tables)
    → IsQueue t
    → IsQueue (enqueue_intents event json now dests t)
unfolding enqueue_intents
enqueue_intents-IsQueue event json now [] t q = q
enqueue_intents-IsQueue event json now (d ∷ ds) t q =
    enqueue_intents-IsQueue event json now ds (enqueue_intent event json now d t)
      (enqueue_intent-IsQueue event json now d t q)

enqueue-IsQueue :
    (event dest payload : Bytes) (now : ℕ) (db : Db)
    → IsQueue db.tables
    → IsQueue (enqueue event dest payload now db).1.tables
unfolding enqueue
enqueue-IsQueue event dest payload now db q = transact-IsQueue _ db q λ a u h.
    elim (Bool-cases (leb 1 (count_where (same_delivery event dest) db.tables.outbox))) [
      | inl e ↦ cc (rw e at h)
      | inr e ↦
          subst IsQueue (ap (second_of db.tables) (rw e at h))
            (IsQueue-append event dest payload now db.tables e q)
    ]

mark_delivered-IsQueue :
    (id now : ℕ) (db : Db) → IsQueue db.tables → IsQueue (mark_delivered id now db).1.tables
unfolding mark_delivered
mark_delivered-IsQueue id now db q = transact-IsQueue _ db q λ a u h.
    subst IsQueue (ap (second_of db.tables) h) (
      IsQueue-update_where (has_id id) (acknowledged now)
        (record { same_id = λ r. refl; same_event = λ r. refl; same_dest = λ r. refl }) db.tables q)

mark_failed-IsQueue :
    (id : ℕ) (details : Bytes) (backoff max_attempts now : ℕ) (db : Db)
    → IsQueue db.tables
    → IsQueue (mark_failed id details backoff max_attempts now db).1.tables
unfolding mark_failed
mark_failed-IsQueue id details backoff max_attempts now db q = transact-IsQueue _ db q λ a u h.
    subst IsQueue (ap (second_of db.tables) h) (
      IsQueue-update_where (has_id id) (refused details backoff max_attempts now)
        (record { same_id = λ r. refl; same_event = λ r. refl; same_dest = λ r. refl }) db.tables q)

-- Every operation that writes to the queue keeps its IDs in order and its index on event and
-- destination: `Enqueue`, `MarkDelivered`, `MarkFailed`, and the delivery intents that the store
-- writes with a normalized event, whichever statements of the database fail.
pub writes-IsQueue :
    (event dest payload details : Bytes) (id backoff max_attempts now : ℕ) (dests : List Bytes)
    (db : Db)
    → IsQueue db.tables
    → IsQueue (enqueue event dest payload now db).1.tables
      × IsQueue (mark_delivered id now db).1.tables
      × IsQueue (mark_failed id details backoff max_attempts now db).1.tables
      × IsQueue (enqueue_intents event payload now dests db.tables)
writes-IsQueue event dest payload details id backoff max_attempts now dests db q = (
  enqueue-IsQueue event dest payload now db q,
  mark_delivered-IsQueue id now db q,
  mark_failed-IsQueue id details backoff max_attempts now db q,
  enqueue_intents-IsQueue event payload now dests db.tables q,
)
