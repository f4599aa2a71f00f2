-- ===== src/Store/Evidence.antt =====
-- internal/rawstore/store.go: the table of raw events under each operation of the store.
use mathlib.Core.List.{map-append}
use worm.Base.{
  ℕ, Bool, ◌≡◌, refl, sym, ◌∙◌, ap, List, [], ◌∷◌, ◌++◌, map, Option, none, some, Bytes, append-nil,
  append_assoc, Bool-cases, Option-cases, inl, inr, arith, update_where,
}
use worm.Library.{Library, not_found, identity_conflict}
use worm.Model.{RawEvent, RawStatus, IngestedRecord, QuarantineEntry, NormalizedEvent}
use worm.Store.Action.{Tables}
use worm.Store.Raw.{
  has_raw_id, insert_raw, next_counter, store_new, store_spooled, store, retrieve, set_status,
  update_status, require_affected,
}
use worm.Store.Dead.{upsert, upsert_refused, finish, quarantine}
use worm.Store.Normal.{
  store_normalized_with_outbox, store_normalized_tx, put_event, enqueue_intent, enqueue_intents,
  stored_event, delete_normalized_child, count_completed_children, child_outcome_counts,
  has_completed_child,
}
use worm.Store.Keeps.{
  Keeps, Preorder, Within, committed, refused, Keeps-pure, Keeps-raise, Keeps-found,
  Keeps-with_metadata, Keeps-transact, Keeps-query, Keeps-if, Keeps-bind, Within-if, Related-if,
}

-- A raw event without its status, which is all that may change.
abbrev pub sealed : RawEvent → RawEvent
sealed e = record e { status = RawStatus.accepted }

abbrev pub evidence : Tables → List RawEvent
evidence t = map sealed t.raw_events

-- Whatever was stored is still stored, in order; there may be more behind it.
pub record Kept (t u : Tables) : Type 0 where
  pub added : List RawEvent
  pub kept : evidence u ≡ evidence t ++ added

-- The tables of raw events hold the same evidence.
pub Kept-same : (t u : Tables) → evidence u ≡ evidence t → Kept t u
Kept-same t u e = record { added = []; kept = e ∙ sym (append-nil (evidence t)) }

pub Kept-preorder : Preorder Kept
Kept-preorder = record {
  here = λ t. Kept-same t t refl;
  trans = λ t u v h k. record {
    added = h.added ++ k.added;
    kept = k.kept ∙ ap (λ x. x ++ k.added) h.kept ∙ append_assoc (evidence t) h.added k.added;
  };
}

sealed-update_where :
    (p : RawEvent → Bool) (s : RawStatus) (rows : List RawEvent)
    → map sealed (update_where p (λ e. record e { status = s }) rows) ≡ map sealed rows
unfolding update_where
sealed-update_where p s [] = refl
sealed-update_where p s (r ∷ rows) = elim (Bool-cases (p r)) [
  | inl e ↦ rw (e, sealed-update_where p s rows)
  | inr e ↦ rw (e, sealed-update_where p s rows)
]

pub set_status-Kept : (id : Bytes) (s : RawStatus) (t : Tables) → Kept t (set_status id s t)
unfolding set_status
set_status-Kept id s t = Kept-same _ _ (sealed-update_where (has_raw_id id) s t.raw_events)

insert_raw-Kept : (e : RawEvent) (t : Tables) → Within Kept t (insert_raw e t)
unfolding insert_raw
insert_raw-Kept e t =
    Within-if Kept t _ _ _ refused
      (committed (record { added = sealed e ∷ []; kept = map-append sealed t.raw_events (e ∷ []) }))

require_affected-Kept : (n : ℕ) → Keeps Kept (require_affected n)
unfolding require_affected
require_affected-Kept n =
    Keeps-if Kept Kept-preorder _ _ _ (Keeps-pure Kept Kept-preorder tt)
      (Keeps-raise Kept Kept-preorder not_found)

pub update_status-Kept : (id : Bytes) (s : RawStatus) → Keeps Kept (update_status id s)
unfolding update_status
update_status-Kept id s =
    Keeps-bind Kept Kept-preorder _ _
      (Keeps-transact Kept Kept-preorder _ (λ t. committed (set_status-Kept id s t)))
      require_affected-Kept

pub retrieve-Kept : ⦃lib : Library⦄ → (id : Bytes) → Keeps Kept (retrieve id)
unfolding retrieve
retrieve-Kept id = Keeps-bind Kept Kept-preorder _ _ (Keeps-query Kept Kept-preorder _) λ row.
    Keeps-bind Kept Kept-preorder _ _ (Keeps-found Kept Kept-preorder row)
      (λ e. Keeps-with_metadata Kept Kept-preorder _ _ e)

next_counter-Kept : Keeps Kept next_counter
unfolding next_counter
next_counter-Kept = record { at = λ db. Kept-preorder.here db.tables }

module _ ⦃lib : Library⦄ where
  store_new-Kept :
      (rec : IngestedRecord) (now : ℕ) (rand : Bytes) → Keeps Kept (store_new rec now rand)
  unfolding store_new
  store_new-Kept rec now rand =
      Keeps-bind Kept Kept-preorder _ _ next_counter-Kept
        (λ seq. Keeps-transact Kept Kept-preorder _ (insert_raw-Kept _))

  store_spooled-Kept :
      (rec : IngestedRecord) (now : ℕ) (rand : Bytes) (row : Option RawEvent)
      → Keeps Kept (store_spooled rec now rand row)
  unfolding store_spooled
  store_spooled-Kept rec now rand none = store_new-Kept rec now rand
  store_spooled-Kept rec now rand (some row) =
      Keeps-if Kept Kept-preorder _ _ _ (Keeps-raise Kept Kept-preorder identity_conflict) (
        Keeps-bind Kept Kept-preorder _ _ (retrieve-Kept row.raw_id)
          (λ e. Keeps-pure Kept Kept-preorder _))

  pub store-Kept : (rec : IngestedRecord) (now : ℕ) (rand : Bytes) → Keeps Kept (store rec now rand)
  unfolding store
  store-Kept rec now rand =
      Keeps-if Kept Kept-preorder _ _ _
        (Keeps-bind Kept Kept-preorder _ _ (Keeps-query Kept Kept-preorder _)
          (store_spooled-Kept rec now rand))
        (store_new-Kept rec now rand)

  finish-Kept :
      (finalize : Bool) (e : QuarantineEntry) (t : Tables)
      → Within Kept t (finish finalize e (upsert e t))
  unfolding upsert
  finish-Kept finalize e t = elim (Bool-cases (upsert_refused e t)) [
    | inl h ↦ rw h (unfold finish in refused)
    | inr h ↦ rw h (
        unfold finish in
        committed (
          Related-if Kept t finalize _ _
            (Kept-same _ _
              (sealed-update_where (has_raw_id e.raw_id) RawStatus.quarantined t.raw_events))
            (Kept-same _ _ refl)))
  ]

  pub quarantine-Kept :
      (e : QuarantineEntry) (finalize : Bool) (now : ℕ) (rand : Bytes)
      → Keeps Kept (quarantine e finalize now rand)
  unfolding quarantine
  quarantine-Kept e finalize now rand = Keeps-transact Kept Kept-preorder _ (finish-Kept finalize _)

raw_events-enqueue_intent :
    (event json : Bytes) (now : ℕ) (dest : Bytes) (t : Tables)
    → (enqueue_intent event json now dest t).raw_events ≡ t.raw_events
unfolding enqueue_intent
raw_events-enqueue_intent event json now dest t = ground arith

pub raw_events-enqueue_intents :
    (event json : Bytes) (now : ℕ) (dests : List Bytes) (t : Tables)
    → (enqueue_intents event json now dests t).raw_events ≡ t.raw_events
unfolding enqueue_intents
raw_events-enqueue_intents event json now [] t = refl
raw_events-enqueue_intents event json now (d ∷ ds) t =
    raw_events-enqueue_intents event json now ds _ ∙ raw_events-enqueue_intent event json now d t

module _ ⦃lib : Library⦄ where
  put_event-Kept :
      (e : NormalizedEvent) (now : ℕ) (dests : List Bytes) (t : Tables)
      → Within Kept t (put_event e now dests t)
  unfolding put_event
  put_event-Kept e now dests t =
      Within-if Kept t _ _ _
        (committed (Kept-same _ _ (ap (map sealed) (raw_events-enqueue_intents _ _ now dests _))))
        refused

  store_normalized_tx-Kept :
      (e : NormalizedEvent) (now : ℕ) (dests : List Bytes) (t : Tables)
      → Within Kept t (store_normalized_tx e now dests t)
  unfolding store_normalized_tx
  store_normalized_tx-Kept e now dests t = elim (Option-cases (lib.marshal e)) [
    | inl h ↦ rw (h, store_normalized_tx) refused
    | inr (b, h) ↦ rw (h, store_normalized_tx) (put_event-Kept (stored_event e t) now dests t)
  ]

  pub store_normalized-Kept :
      (e : NormalizedEvent) (now : ℕ) (dests : List Bytes)
      → Keeps Kept (store_normalized_with_outbox e now dests)
  unfolding store_normalized_with_outbox
  store_normalized-Kept e now dests =
      Keeps-transact Kept Kept-preorder _ (store_normalized_tx-Kept e now dests)

pub delete_normalized_child-Kept : (id : Bytes) (n : ℕ) → Keeps Kept (delete_normalized_child id n)
unfolding delete_normalized_child
delete_normalized_child-Kept id n =
    Keeps-transact Kept Kept-preorder _ (λ t. committed (Kept-same _ _ refl))

pub count_completed_children-Kept : (id : Bytes) → Keeps Kept (count_completed_children id)
unfolding count_completed_children
count_completed_children-Kept id = Keeps-query Kept Kept-preorder _

pub child_outcome_counts-Kept : (id : Bytes) → Keeps Kept (child_outcome_counts id)
unfolding child_outcome_counts
child_outcome_counts-Kept id = Keeps-query Kept Kept-preorder _

pub has_completed_child-Kept : (id : Bytes) (n : ℕ) → Keeps Kept (has_completed_child id n)
unfolding has_completed_child
has_completed_child-Kept id n = Keeps-query Kept Kept-preorder _
