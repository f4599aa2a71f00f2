-- ===== src/Pipeline/Child/Frame.antt =====
-- internal/pipeline/pipeline.go: relations between the worlds before and after one child, from the
-- primitives that its code is made of.
use worm.Base.{ℕ, Bool, true, false, List, Option, none, some, Bytes, if◌then◌else◌}
use worm.Library.{Library, Error}
use worm.Model.{RawEvent, DecodedRecord, NormalizedEvent, ProcessingStep, QuarantineEntry}
use worm.Store.Action.{Result, ok, err}
use worm.Store.Normal.{store_normalized_with_outbox, delete_normalized_child, has_completed_child}
use worm.Pipeline.World.{
  World, Matching, no_match, ambiguous, matched, Stages, count_normalized, count_delivered, run,
  draw,
}
use worm.Pipeline.Child.{
  persist_quarantine, give_up, delete_undelivered, after_emit, deliver, after_store, after_validate,
  after_normalize, unclassified_text, pass_through, normalize_with, after_match, match_child,
  process_stages, resume, process_child,
}

module _ ⦃lib : Library⦄ {P S : Type 0} (stages : Stages P S) (now : ℕ) where
  -- What a relation must be closed under. `outside` is a change of anything but the database and
  -- the counters.
  pub record ChildFrame (R : World S → World S → Type 0) : Type 0 where
    pub here : (w : World S) → R w w
    pub trans : (u v w : World S) → R u v → R v w → R u w
    pub outside :
        (w : World S) (s : S) (drawn seq : ℕ)
        → R w (record w { sink = s; drawn = drawn; event_seq = seq })
    pub normalized : (w : World S) → R w (count_normalized w)
    pub delivered : (w : World S) → R w (count_delivered w)
    pub persisted : (e : QuarantineEntry) (w : World S) → R w (persist_quarantine stages now e w).1
    pub looked : (id : Bytes) (n : ℕ) (w : World S) → R w (run (has_completed_child id n) w).1
    pub deleted : (id : Bytes) (n : ℕ) (w : World S) → R w (run (delete_normalized_child id n) w).1
    pub stored :
        (e : NormalizedEvent) (dests : List Bytes) (w : World S)
        → R w (run (store_normalized_with_outbox e now dests) w).1

module _ ⦃lib : Library⦄ {P S : Type 0} (stages : Stages P S) (now : ℕ)
    (R : World S → World S → Type 0) (f : ChildFrame stages now R) (raw : RawEvent)
    (dec : DecodedRecord) where
  if-Frame :
      (b : Bool) (x y : Bool × World S) (w : World S)
      → R w x.1
      → R w y.1
      → R w (if b then x else y).1
  if-Frame true x y w h k = h
  if-Frame false x y w h k = k

  give_up-Frame :
      (stage reason : Bytes) (e : Error) (w : World S)
      → R w (give_up stages now raw dec stage reason e w).1
  unfolding give_up
  give_up-Frame stage reason e w = f.persisted _ w

  delete_undelivered-Frame :
      (e : Error) (r : Result Unit) (w : World S)
      → R w (delete_undelivered stages now raw dec e r w).1
  unfolding delete_undelivered
  delete_undelivered-Frame e (err _) w = f.here w
  delete_undelivered-Frame e (ok _) w = give_up-Frame _ _ e w

  after_emit-Frame : (r : Result Unit) (w : World S) → R w (after_emit stages now raw dec r w).1
  unfolding after_emit
  after_emit-Frame (ok _) w = f.trans _ _ _ (f.delivered w) (f.normalized _)
  after_emit-Frame (err e) w =
      f.trans _ _ _ (f.deleted raw.raw_id dec.record_ordinal w) (delete_undelivered-Frame e _ _)

  deliver-Frame :
      (ds : Option (List Bytes)) (event : NormalizedEvent) (w : World S)
      → R w (deliver stages now raw dec ds event w).1
  unfolding deliver
  deliver-Frame (some _) event w = f.normalized w
  deliver-Frame none event w =
      f.trans _ _ _ (f.outside w (stages.emit event w.sink).1 w.drawn w.event_seq)
        (after_emit-Frame _ _)

  after_store-Frame :
      (r : Result NormalizedEvent) (w : World S) → R w (after_store stages now raw dec r w).1
  unfolding after_store
  after_store-Frame (err e) w = give_up-Frame _ _ e w
  after_store-Frame (ok event) w = deliver-Frame _ event w

  after_validate-Frame :
      (r : Result NormalizedEvent) (w : World S) → R w (after_validate stages now raw dec r w).1
  unfolding after_validate
  after_validate-Frame (err e) w = give_up-Frame _ _ e w
  after_validate-Frame (ok event) w = f.trans _ _ _ (f.stored event _ w) (after_store-Frame _ _)

  after_normalize-Frame :
      (r : Result NormalizedEvent) (w : World S) → R w (after_normalize stages now raw dec r w).1
  unfolding after_normalize
  after_normalize-Frame (err e) w = give_up-Frame _ _ e w
  after_normalize-Frame (ok event) w = after_validate-Frame _ w

  drawn-Frame : (w : World S) → R w (draw w)
  unfolding draw
  drawn-Frame w = f.outside w w.sink _ w.event_seq

  pass_through-Frame :
      (history : List ProcessingStep) (w : World S)
      → R w (pass_through stages now raw dec history w).1
  unfolding pass_through
  pass_through-Frame history w =
      if-Frame (unclassified_text stages now raw dec) _ _ w (give_up-Frame _ _ _ w)
        (f.trans _ _ _ (drawn-Frame w) (after_validate-Frame _ _))

  normalize_with-Frame :
      (pack : P) (history : List ProcessingStep) (w : World S)
      → R w (normalize_with stages now raw dec pack history w).1
  unfolding normalize_with draw
  normalize_with-Frame pack history w =
      f.trans _ _ _ (f.outside w w.sink _ _) (after_normalize-Frame _ _)

  after_match-Frame :
      (history : List ProcessingStep) (m : Matching P) (w : World S)
      → R w (after_match stages now raw dec history m w).1
  unfolding after_match
  after_match-Frame history (no_match e) w = give_up-Frame _ _ e w
  after_match-Frame history (ambiguous e) w = give_up-Frame _ _ e w
  after_match-Frame history (matched pack) w = normalize_with-Frame pack history w

  match_child-Frame :
      (snap : Option (DecodedRecord → Matching P)) (history : List ProcessingStep) (w : World S)
      → R w (match_child stages now raw dec snap history w).1
  unfolding match_child
  match_child-Frame none history w = pass_through-Frame history w
  match_child-Frame (some snap) history w = after_match-Frame history (snap dec) w

  process_stages-Frame :
      (history : List ProcessingStep) (w : World S)
      → R w (process_stages stages now raw dec history w).1
  unfolding process_stages
  process_stages-Frame history w = match_child-Frame stages.active _ w

  resume-Frame :
      (history : List ProcessingStep) (r : Result Bool) (w : World S)
      → R w (resume stages now raw dec history r w).1
  unfolding resume
  resume-Frame history (err _) w = f.here w
  resume-Frame history (ok true) w = f.here w
  resume-Frame history (ok false) w = process_stages-Frame history w

  pub process_child-Frame :
      (recovering : Bool) (history : List ProcessingStep) (w : World S)
      → R w (process_child stages now raw dec recovering history w).1
  unfolding process_child
  process_child-Frame false history w = process_stages-Frame history w
  process_child-Frame true history w =
      f.trans _ _ _ (f.looked raw.raw_id dec.record_ordinal w) (resume-Frame history _ _)
