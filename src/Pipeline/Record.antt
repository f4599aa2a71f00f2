-- ===== src/Pipeline/Record.antt =====
-- `processRecord` of internal/pipeline/pipeline.go: from the commit of the raw bytes to the status
-- of the parent.
pub mod Balance
pub mod Empty
pub mod Evidence
pub mod Frame
use worm.Base.{
  ℕ, Bool, true, false, ◌&&◌, ◌||◌, not, List, [], ◌∷◌, ◌++◌, Option, none, some, ltb,
  if◌then◌else◌, Bytes, codes, str_eq, length, ℤ, pos, ◌-ℤ◌,
}
use worm.Library.{Library, Error, invalid}
use worm.Model.{IngestedRecord, RawEvent, DecodedRecord, ProcessingStep, RawStatus}
use worm.Store.Action.{Result, ok, err, Action}
use worm.Store.Raw.{store, retrieve, update_status}
use worm.Store.Normal.{count_completed_children, child_outcome_counts, outcome_status}
use worm.Pipeline.World.{
  World, Stages, Detection, unknown, failed, decoded, admit, run, run_, draw, safe_preview, one,
  minus_one,
}
use worm.Pipeline.Child.{step, entry_for, persist_quarantine, process_child}

-- A raw event that was processed to its end before.
is_final : RawStatus → Bool
is_final RawStatus.normalized = true
is_final RawStatus.quarantined = true
is_final RawStatus.partial = true
is_final _ = false

module _ ⦃lib : Library⦄ {P S : Type 0} (stages : Stages P S) (now : ℕ) where
  -- The loop over the children: whether one of them is left unresolved.
  unfoldable pub process_children :
      RawEvent → Bool → List ProcessingStep → List DecodedRecord → World S → Bool × World S
  process_children raw recovering history [] w = (false, w)
  process_children raw recovering history (d ∷ ds) w =
      let (here, w') = process_child stages now raw d recovering history w in
      let (later, w'') = process_children raw recovering history ds w' in (here || later, w'')

  set_final : RawEvent → Result (ℕ × ℕ) → World S → World S
  unfolding run_
  set_final raw (err _) w = run_ (update_status raw.raw_id RawStatus.accepted) w
  set_final raw (ok (n, q)) w = run_ (update_status raw.raw_id (outcome_status n q)) w

  -- The status of the parent, from the outcomes of its children.
  unfoldable pub finalize : RawEvent → Bool × World S → World S
  unfolding set_final run run_
  finalize raw (true, w) = run_ (update_status raw.raw_id RawStatus.accepted) w
  finalize raw (false, w) =
      let (r, w') = run (child_outcome_counts raw.raw_id) w in set_final raw r w'

  -- The whole record goes to the quarantine.
  quarantine_whole : RawEvent → Bytes → Bytes → Error → Bool → World S → World S
  unfolding persist_quarantine run_
  quarantine_whole raw stage reason e eligible w =
      let (stored, w') =
        persist_quarantine stages now
          (entry_for stages now raw 0 stage reason e (safe_preview raw.payload 256) eligible) w in
      run_ (update_status raw.raw_id (if stored then RawStatus.quarantined else RawStatus.accepted))
        w'

  children : RawEvent → Bool → List ProcessingStep → List DecodedRecord → World S → World S
  unfolding finalize process_children
  children raw recovering history ds w = finalize raw (process_children raw recovering history ds w)

  -- `int64(numChildren) - completed - 1`, where there are children
  recovery_delta : ℕ → ℕ → ℤ
  recovery_delta n completed = if ltb 0 n then pos n -ℤ pos completed -ℤ one else pos 0

  recover : RawEvent → List ProcessingStep → List DecodedRecord → Result ℕ → World S → World S
  unfolding children run_ admit recovery_delta
  recover raw history ds (err _) w = run_ (update_status raw.raw_id RawStatus.accepted) w
  recover raw history ds (ok completed) w =
      children raw true history ds (admit (recovery_delta (length ds) completed) w)

  -- The first time: a batch counts as its children, and an empty one is quarantined.
  expand : RawEvent → List ProcessingStep → List DecodedRecord → World S → World S
  unfolding children quarantine_whole admit
  expand raw history [] w =
      quarantine_whole raw (codes "decode") (codes "empty_payload")
        (invalid (codes "payload produced zero child records")) false w
  expand raw history (d ∷ ds) w = children raw false history (d ∷ ds) (admit (pos (length ds)) w)

  -- The counters take the number of children in, and the children are processed.
  unfoldable pub process_decoded :
      RawEvent → Bool → List ProcessingStep → List DecodedRecord → World S → World S
  unfolding expand recover run
  process_decoded raw false history ds w = expand raw history ds w
  process_decoded raw true history ds w =
      let (r, w') = run (count_completed_children raw.raw_id) w in recover raw history ds r w'

  unfoldable pub process_detected :
      RawEvent → Bool → List ProcessingStep → Detection → World S → World S
  unfolding process_decoded quarantine_whole
  process_detected raw recovering history (unknown e) w =
      quarantine_whole raw (codes "format_detect") (codes "parse_error") e true w
  process_detected raw recovering history (failed name e) w =
      quarantine_whole raw (codes "decode") (codes "parse_error") e true w
  process_detected raw recovering history (decoded name ds) w =
      process_decoded raw recovering (history ++ (step (codes "format_detect") now name ∷ [])) ds w

  process_committed : IngestedRecord → Bytes → Result RawEvent → World S → World S
  unfolding process_detected is_final admit
  process_committed rec result (err _) w = admit minus_one w
  process_committed rec result (ok raw) w =
      if raw.duplicate && is_final raw.status
      then admit minus_one w
      else process_detected raw (not (str_eq rec.existing_raw_id []) || raw.duplicate)
          (step (codes "raw_commit") now result ∷ []) (stages.detect_and_decode raw.payload) w

  is_ok : {A : Type 0} → Result A → Bool
  is_ok (ok _) = true
  is_ok (err _) = false

  -- `if rec.Ack != nil { rec.Ack <- err }`
  acknowledge : {A : Type 0} → Bool → Result A → World S → World S
  unfolding is_ok
  acknowledge false r w = w
  acknowledge true r w = record w { acks = w.acks ++ (is_ok r ∷ []) }

  unfoldable pub process_record : IngestedRecord → World S → World S
  unfolding process_committed acknowledge run draw
  process_record rec w =
      if not (str_eq rec.existing_raw_id [])
      then (let (r, w') = run (retrieve rec.existing_raw_id) w in
          process_committed rec (codes "recovered") r w')
      else (let (r, w') = run (store rec now (stages.random w.drawn)) (draw w) in
          process_committed rec (codes "ok") r (acknowledge rec.ack r w'))
