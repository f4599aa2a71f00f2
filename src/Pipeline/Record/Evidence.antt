-- ===== src/Pipeline/Record/Evidence.antt =====
-- internal/pipeline/pipeline.go: the table of raw events over `processRecord`.
use worm.Base.{ℕ}
use worm.Library.{Library}
use worm.Model.{IngestedRecord, QuarantineEntry}
use worm.Store.Action.{Result, ok, err}
use worm.Store.Evidence.{
  Kept, Kept-preorder, update_status-Kept, retrieve-Kept, store-Kept, quarantine-Kept,
  store_normalized-Kept, delete_normalized_child-Kept, count_completed_children-Kept,
  child_outcome_counts-Kept, has_completed_child-Kept,
}
use worm.Pipeline.World.{
  World, Stages, run, run_, count_quarantined, count_normalized, count_delivered, admit, draw,
}
use worm.Pipeline.Child.{persist_quarantine, settle}
use worm.Pipeline.Child.Frame.{ChildFrame}
use worm.Pipeline.Record.{process_record}
use worm.Pipeline.Record.Frame.{RecordFrame, process_record-Frame}

module _ ⦃lib : Library⦄ {P S : Type 0} (stages : Stages P S) (now : ℕ) where
  settle-Kept :
      (r : Result Unit) (w : World S) → Kept w.db.tables (settle stages now r w).1.db.tables
  unfolding settle count_quarantined
  settle-Kept (ok _) w = Kept-preorder.here w.db.tables
  settle-Kept (err _) w = Kept-preorder.here w.db.tables

  persisted-Kept :
      (e : QuarantineEntry) (w : World S)
      → Kept w.db.tables (persist_quarantine stages now e w).1.db.tables
  unfolding persist_quarantine run draw
  persisted-Kept e w =
      Kept-preorder.trans _ _ _ ((quarantine-Kept e _ now _).at w.db) (settle-Kept _ _)

  Kept-ChildFrame : ChildFrame stages now (λ u v. Kept u.db.tables v.db.tables)
  unfolding run count_normalized count_delivered
  Kept-ChildFrame = record {
    here = λ w. Kept-preorder.here w.db.tables;
    trans = λ u v w p q. Kept-preorder.trans _ _ _ p q;
    outside = λ w s drawn seq. Kept-preorder.here w.db.tables;
    normalized = λ w. Kept-preorder.here w.db.tables;
    delivered = λ w. Kept-preorder.here w.db.tables;
    persisted = persisted-Kept;
    looked = λ id n w. (has_completed_child-Kept id n).at w.db;
    deleted = λ id n w. (delete_normalized_child-Kept id n).at w.db;
    stored = λ e dests w. (store_normalized-Kept e now dests).at w.db;
  }

  Kept-RecordFrame : RecordFrame stages now (λ u v. Kept u.db.tables v.db.tables)
  unfolding run run_ admit
  Kept-RecordFrame = record {
    child = Kept-ChildFrame;
    admitted = λ d w. Kept-preorder.here w.db.tables;
    acked = λ a w. Kept-preorder.here w.db.tables;
    status_set = λ id s w. (update_status-Kept id s).at w.db;
    retrieved = λ id w. (retrieve-Kept id).at w.db;
    committed = λ rec rand w. (store-Kept rec now rand).at w.db;
    completed = λ id w. (count_completed_children-Kept id).at w.db;
    counted = λ id w. (child_outcome_counts-Kept id).at w.db;
  }

  -- Processing a record leaves every raw event that was in the store where it was, with all its
  -- fields but the status; new ones may stand behind them.
  pub process_record-Kept :
      (rec : IngestedRecord) (w : World S)
      → Kept w.db.tables (process_record stages now rec w).db.tables
  process_record-Kept = process_record-Frame stages now _ Kept-RecordFrame
