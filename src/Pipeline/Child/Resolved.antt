-- ===== src/Pipeline/Child/Resolved.antt =====
-- internal/pipeline/pipeline.go: a child that `processRecord` leaves resolved has an outcome.
use worm.Base.{
  ℕ, ◌≡◌, refl, Bool, true, false, not, leb, List, Option, none, some, Bytes, if◌then◌else◌, arith,
}
use worm.Library.{Library, Error}
use worm.Model.{RawEvent, DecodedRecord, NormalizedEvent, ProcessingStep}
use worm.Store.Action.{Result, ok, err, Tables, query}
use worm.Store.Normal.{outcomes, has_completed_child}
use worm.Store.Outcome.{HasOutcome, quarantine_child-HasOutcome}
use worm.Store.Stored.{IsOwn, store_normalized_with_outbox-HasOutcome}
use worm.Store.Committed.{PostDb, transact-PostDb}
use worm.Pipeline.World.{
  World, Matching, no_match, ambiguous, matched, Stages, count_quarantined, count_normalized,
  count_delivered, run, draw,
}
use worm.Pipeline.Child.{
  settle, persist_quarantine, give_up, delete_undelivered, after_emit, deliver, after_store,
  after_validate, after_normalize, unclassified_text, generic_event, pass_through, normalize_with,
  after_match, match_child, process_stages, resume, process_child, destination_names,
}

module _ ⦃lib : Library⦄ {P S : Type 0} (stages : Stages P S) (now : ℕ) (raw : RawEvent)
    (dec : DecodedRecord) where
  abbrev pub Stands : World S → Type 0
  Stands w = HasOutcome raw.raw_id dec.record_ordinal w.db.tables

  -- Unless the child is left unresolved, it has an outcome.
  abbrev pub IsResolved : Bool × World S → Type 0
  IsResolved (unresolved, w) = unresolved ≡ false → Stands w

  -- The events that the stages make of the child, with this sequence number and these random bytes,
  -- are its own, with an ID that no other child has.
  pub record AreOwn (seq : ℕ) (rand : Bytes) (t : Tables) : Type 0 where
    pub of_pack :
        (pack : P) (history : List ProcessingStep) (event event' : NormalizedEvent)
        → (stages.normalize seq rand now raw dec pack history).0 ≡ ok event
        → stages.validate now event ≡ ok event'
        → IsOwn raw.raw_id dec.record_ordinal event' t
    pub passed_through :
        (history : List ProcessingStep) (event' : NormalizedEvent)
        → stages.validate now (generic_event stages now raw dec rand history) ≡ ok event'
        → IsOwn raw.raw_id dec.record_ordinal event' t

  -- The events that the stages would make in a world, were these its tables.
  abbrev pub OwnIn : World S → Tables → Type 0
  OwnIn w t = AreOwn w.event_seq (stages.random w.drawn) t

  settle-Outcome :
      (r : Result Unit) (w : World S)
      → PostDb (λ u t. HasOutcome raw.raw_id dec.record_ordinal t) (r, w.db)
      → IsResolved (not (settle stages now r w).0, (settle stages now r w).1)
  unfolding settle count_quarantined
  settle-Outcome (ok _) w h = λ e. h
  settle-Outcome (err _) w h = λ e. cc

  give_up-IsResolved :
      (stage reason : Bytes) (e : Error) (w : World S)
      → IsResolved (give_up stages now raw dec stage reason e w)
  unfolding give_up persist_quarantine run draw
  give_up-IsResolved stage reason e w =
      settle-Outcome _ _ (quarantine_child-HasOutcome _ now (stages.random w.drawn) w.db)

  delete_undelivered-IsResolved :
      (e : Error) (r : Result Unit) (w : World S)
      → IsResolved (delete_undelivered stages now raw dec e r w)
  unfolding delete_undelivered
  delete_undelivered-IsResolved e (err _) w = λ p. cc
  delete_undelivered-IsResolved e (ok _) w = give_up-IsResolved _ _ e w

  after_emit-IsResolved :
      (r : Result Unit) (w : World S) → Stands w → IsResolved (after_emit stages now raw dec r w)
  unfolding after_emit count_delivered count_normalized
  after_emit-IsResolved (ok _) w h = λ p. h
  after_emit-IsResolved (err e) w h = delete_undelivered-IsResolved e _ _

  deliver-IsResolved :
      (ds : Option (List Bytes)) (event : NormalizedEvent) (w : World S)
      → Stands w
      → IsResolved (deliver stages now raw dec ds event w)
  unfolding deliver count_normalized
  deliver-IsResolved (some _) event w h = λ p. h
  deliver-IsResolved none event w h = after_emit-IsResolved _ _ h

  after_store-IsResolved :
      (r : Result NormalizedEvent) (w : World S)
      → PostDb (λ e t. HasOutcome raw.raw_id dec.record_ordinal t) (r, w.db)
      → IsResolved (after_store stages now raw dec r w)
  unfolding after_store
  after_store-IsResolved (err e) w h = give_up-IsResolved _ _ e w
  after_store-IsResolved (ok event) w h = deliver-IsResolved _ event w h

  after_validate-IsResolved :
      (r : Result NormalizedEvent) (w : World S)
      → ((event : NormalizedEvent)
          → r ≡ ok event
          → IsOwn raw.raw_id dec.record_ordinal event w.db.tables)
      → IsResolved (after_validate stages now raw dec r w)
  unfolding after_validate run
  after_validate-IsResolved (err e) w own = give_up-IsResolved _ _ e w
  after_validate-IsResolved (ok event) w own = after_store-IsResolved _ _ (
      store_normalized_with_outbox-HasOutcome raw.raw_id dec.record_ordinal event now
        (destination_names stages now raw dec stages.destinations) w.db (own event refl))

  after_normalize-IsResolved :
      (r : Result NormalizedEvent) (w : World S)
      → ((event event' : NormalizedEvent)
          → r ≡ ok event
          → stages.validate now event ≡ ok event'
          → IsOwn raw.raw_id dec.record_ordinal event' w.db.tables)
      → IsResolved (after_normalize stages now raw dec r w)
  unfolding after_normalize
  after_normalize-IsResolved (err e) w own = give_up-IsResolved _ _ e w
  after_normalize-IsResolved (ok event) w own =
      after_validate-IsResolved _ w (λ event' e. own event event' refl e)

  either-IsResolved :
      (b : Bool) (x y : Bool × World S)
      → IsResolved x
      → IsResolved y
      → IsResolved (if b then x else y)
  either-IsResolved true x y h h' = h
  either-IsResolved false x y h h' = h'

  pass_through-IsResolved :
      (history : List ProcessingStep) (w : World S)
      → OwnIn w w.db.tables
      → IsResolved (pass_through stages now raw dec history w)
  unfolding pass_through draw
  pass_through-IsResolved history w own =
      either-IsResolved (unclassified_text stages now raw dec) _ _ (give_up-IsResolved _ _ _ w)
        (after_validate-IsResolved _ _ (own.passed_through history))

  normalize_with-IsResolved :
      (pack : P) (history : List ProcessingStep) (w : World S)
      → OwnIn w w.db.tables
      → IsResolved (normalize_with stages now raw dec pack history w)
  unfolding normalize_with draw
  normalize_with-IsResolved pack history w own = after_normalize-IsResolved _ _ (own.of_pack pack _)

  match_child-IsResolved :
      (snap : Option (DecodedRecord → Matching P)) (history : List ProcessingStep) (w : World S)
      → OwnIn w w.db.tables
      → IsResolved (match_child stages now raw dec snap history w)
  unfolding match_child after_match
  match_child-IsResolved none history w own = pass_through-IsResolved history w own
  match_child-IsResolved (some snap) history w own = after_match-IsResolved (snap dec)
    where
      after_match-IsResolved :
          (m : Matching P) → IsResolved (after_match stages now raw dec history m w)
      after_match-IsResolved (no_match e) = give_up-IsResolved _ _ e w
      after_match-IsResolved (ambiguous e) = give_up-IsResolved _ _ e w
      after_match-IsResolved (matched pack) = normalize_with-IsResolved pack history w own

  process_stages-IsResolved :
      (history : List ProcessingStep) (w : World S)
      → OwnIn w w.db.tables
      → IsResolved (process_stages stages now raw dec history w)
  unfolding process_stages
  process_stages-IsResolved history w own = match_child-IsResolved stages.active _ w own

  resume-IsResolved :
      (history : List ProcessingStep) (r : Result Bool) (w : World S)
      → PostDb
          (λ b t. OwnIn w t × (b ≡ true → HasOutcome raw.raw_id dec.record_ordinal t))
          (r, w.db)
      → IsResolved (resume stages now raw dec history r w)
  unfolding resume
  resume-IsResolved history (err e) w h = λ p. cc
  resume-IsResolved history (ok true) w (own, has) = λ p. has refl
  resume-IsResolved history (ok false) w (own, has) = process_stages-IsResolved history w own

  process_child-IsResolved :
      (recovering : Bool) (history : List ProcessingStep) (w : World S)
      → OwnIn w w.db.tables
      → IsResolved (process_child stages now raw dec recovering history w)
  unfolding process_child run has_completed_child query
  process_child-IsResolved false history w own = process_stages-IsResolved history w own
  process_child-IsResolved true history w own = resume-IsResolved history _ _ (
      transact-PostDb (λ b t. OwnIn w t × (b ≡ true → HasOutcome raw.raw_id dec.record_ordinal t))
        (λ t. ok (leb 1 (outcomes raw.raw_id dec.record_ordinal t), t)) w.db
        (own, λ e. ground (arith, e)))

  -- Whatever statements of the database fail, and whatever the sink answers, a child that its turn of
  -- the loop does not leave unresolved has a stored event or a quarantine entry, where the events that
  -- the stages would make of it carry its raw ID and its ordinal, and no row of another child has
  -- their ID.
  pub process_child-HasOutcome :
      (recovering : Bool) (history : List ProcessingStep) (w : World S)
      → AreOwn w.event_seq (stages.random w.drawn) w.db.tables
      → (process_child stages now raw dec recovering history w).0 ≡ false
      → HasOutcome raw.raw_id dec.record_ordinal
          (process_child stages now raw dec recovering history w).1.db.tables
  process_child-HasOutcome recovering history w own =
      process_child-IsResolved recovering history w own
