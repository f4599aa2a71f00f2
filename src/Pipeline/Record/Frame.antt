-- ===== src/Pipeline/Record/Frame.antt =====
-- The walk of `Child/Frame` over the whole of `processRecord`.
use worm.Base.{
  ℕ, Bool, true, false, not, ◌&&◌, List, [], ◌∷◌, Bytes, codes, ℤ, str_eq, if◌then◌else◌,
}
use worm.Library.{Library, Error}
use worm.Model.{IngestedRecord, RawEvent, DecodedRecord, ProcessingStep, RawStatus}
use worm.Store.Action.{Result, ok, err}
use worm.Store.Raw.{store, retrieve, update_status}
use worm.Store.Normal.{count_completed_children, child_outcome_counts}
use worm.Pipeline.World.{World, Stages, Detection, unknown, failed, decoded, admit, run, run_, draw}
use worm.Pipeline.Child.{step}
use worm.Pipeline.Child.Frame.{ChildFrame, process_child-Frame}
use worm.Pipeline.Record.{
  process_children, set_final, finalize, quarantine_whole, children, recover, expand,
  process_decoded, process_detected, process_committed, acknowledge, process_record, is_final,
}

module _ ⦃lib : Library⦄ {P S : Type 0} (stages : Stages P S) (now : ℕ) where
  -- What a relation must be closed under.
  pub record RecordFrame (R : World S → World S → Type 0) : Type 0 where
    pub child : ChildFrame stages now R
    pub admitted : (d : ℤ) (w : World S) → R w (admit d w)
    pub acked : (a : List Bool) (w : World S) → R w (record w { acks = a })
    pub status_set : (id : Bytes) (s : RawStatus) (w : World S) → R w (run_ (update_status id s) w)
    pub retrieved : (id : Bytes) (w : World S) → R w (run (retrieve id) w).1
    pub committed :
        (rec : IngestedRecord) (rand : Bytes) (w : World S) → R w (run (store rec now rand) w).1
    pub completed : (id : Bytes) (w : World S) → R w (run (count_completed_children id) w).1
    pub counted : (id : Bytes) (w : World S) → R w (run (child_outcome_counts id) w).1

module _ ⦃lib : Library⦄ {P S : Type 0} (stages : Stages P S) (now : ℕ)
    (R : World S → World S → Type 0) (f : RecordFrame stages now R) where
  if-Frame : (b : Bool) (x y w : World S) → R w x → R w y → R w (if b then x else y)
  if-Frame true x y w h k = h
  if-Frame false x y w h k = k

  pub process_children-Frame :
      (raw : RawEvent) (recovering : Bool) (history : List ProcessingStep) (ds : List DecodedRecord)
      (w : World S)
      → R w (process_children stages now raw recovering history ds w).1
  unfolding process_children
  process_children-Frame raw recovering history [] w = f.child.here w
  process_children-Frame raw recovering history (d ∷ ds) w =
      f.child.trans _ _ _ (process_child-Frame stages now R f.child raw d recovering history w)
        (process_children-Frame raw recovering history ds _)

  set_final-Frame :
      (raw : RawEvent) (r : Result (ℕ × ℕ)) (w : World S) → R w (set_final stages now raw r w)
  unfolding set_final
  set_final-Frame raw (err _) w = f.status_set raw.raw_id RawStatus.accepted w
  set_final-Frame raw (ok (n, q)) w = f.status_set raw.raw_id _ w

  finalize-Frame : (raw : RawEvent) (b : Bool) (w : World S) → R w (finalize stages now raw (b, w))
  unfolding finalize
  finalize-Frame raw true w = f.status_set raw.raw_id RawStatus.accepted w
  finalize-Frame raw false w =
      f.child.trans _ _ _ (f.counted raw.raw_id w) (set_final-Frame raw _ _)

  quarantine_whole-Frame :
      (raw : RawEvent) (stage reason : Bytes) (e : Error) (eligible : Bool) (w : World S)
      → R w (quarantine_whole stages now raw stage reason e eligible w)
  unfolding quarantine_whole
  quarantine_whole-Frame raw stage reason e eligible w =
      f.child.trans _ _ _ (f.child.persisted _ w) (f.status_set raw.raw_id _ _)

  children-Frame :
      (raw : RawEvent) (recovering : Bool) (history : List ProcessingStep) (ds : List DecodedRecord)
      (w : World S)
      → R w (children stages now raw recovering history ds w)
  unfolding children
  children-Frame raw recovering history ds w =
      f.child.trans _ _ _ (process_children-Frame raw recovering history ds w)
        (finalize-Frame raw _ _)

  recover-Frame :
      (raw : RawEvent) (history : List ProcessingStep) (ds : List DecodedRecord) (r : Result ℕ)
      (w : World S)
      → R w (recover stages now raw history ds r w)
  unfolding recover
  recover-Frame raw history ds (err _) w = f.status_set raw.raw_id RawStatus.accepted w
  recover-Frame raw history ds (ok n) w =
      f.child.trans _ _ _ (f.admitted _ w) (children-Frame raw true history ds _)

  expand-Frame :
      (raw : RawEvent) (history : List ProcessingStep) (ds : List DecodedRecord) (w : World S)
      → R w (expand stages now raw history ds w)
  unfolding expand
  expand-Frame raw history [] w = quarantine_whole-Frame raw _ _ _ false w
  expand-Frame raw history (d ∷ ds) w =
      f.child.trans _ _ _ (f.admitted _ w) (children-Frame raw false history (d ∷ ds) _)

  process_decoded-Frame :
      (raw : RawEvent) (recovering : Bool) (history : List ProcessingStep) (ds : List DecodedRecord)
      (w : World S)
      → R w (process_decoded stages now raw recovering history ds w)
  unfolding process_decoded
  process_decoded-Frame raw false history ds w = expand-Frame raw history ds w
  process_decoded-Frame raw true history ds w =
      f.child.trans _ _ _ (f.completed raw.raw_id w) (recover-Frame raw history ds _ _)

  process_detected-Frame :
      (raw : RawEvent) (recovering : Bool) (history : List ProcessingStep) (d : Detection)
      (w : World S)
      → R w (process_detected stages now raw recovering history d w)
  unfolding process_detected
  process_detected-Frame raw recovering history (unknown e) w =
      quarantine_whole-Frame raw _ _ e true w
  process_detected-Frame raw recovering history (failed name e) w =
      quarantine_whole-Frame raw _ _ e true w
  process_detected-Frame raw recovering history (decoded name ds) w =
      process_decoded-Frame raw recovering _ ds w

  process_committed-Frame :
      (rec : IngestedRecord) (result : Bytes) (r : Result RawEvent) (w : World S)
      → R w (process_committed stages now rec result r w)
  unfolding process_committed
  process_committed-Frame rec result (err _) w = f.admitted _ w
  process_committed-Frame rec result (ok raw) w =
      if-Frame (raw.duplicate && is_final raw.status) _ _ w (f.admitted _ w)
        (process_detected-Frame raw _ (step (codes "raw_commit") now result ∷ []) _ w)

  acknowledge-Frame :
      {A : Type 0} (b : Bool) (r : Result A) (w : World S) → R w (acknowledge stages now b r w)
  unfolding acknowledge
  acknowledge-Frame false r w = f.child.here w
  acknowledge-Frame true r w = f.acked _ w

  drawn-Frame : (w : World S) → R w (draw w)
  unfolding draw
  drawn-Frame w = f.child.outside w w.sink _ w.event_seq

  pub process_record-Frame :
      (rec : IngestedRecord) (w : World S) → R w (process_record stages now rec w)
  unfolding process_record
  process_record-Frame rec w =
      if-Frame (not (str_eq rec.existing_raw_id [])) _ _ w
        (f.child.trans _ _ _ (f.retrieved rec.existing_raw_id w)
          (process_committed-Frame rec _ _ _))
        (f.child.trans _ _ _ (drawn-Frame w) (
          f.child.trans _ _ _ (f.committed rec _ _) (
            f.child.trans _ _ _ (acknowledge-Frame rec.ack _ _)
              (process_committed-Frame rec _ _ _))))
