-- ===== src/Pipeline/Record/Balance.antt =====
-- internal/pipeline/pipeline.go: the counters of the loss accounting over `processRecord`.
use worm.Base.{ℕ, ◌≡◌, refl}
use worm.Library.{Library}
use worm.Model.{IngestedRecord}
use worm.Pipeline.World.{World, Stages, run, run_}
use worm.Pipeline.Child.Balance.{balance_of, balance-ChildFrame, balance-admit}
use worm.Pipeline.Record.{process_record}
use worm.Pipeline.Record.Frame.{RecordFrame, process_record-Frame}

module _ ⦃lib : Library⦄ {P S : Type 0} (stages : Stages P S) (now : ℕ) where
  balance-RecordFrame : RecordFrame stages now (λ u v. balance_of v ≡ balance_of u)
  unfolding run run_
  balance-RecordFrame = record {
    child = balance-ChildFrame stages now;
    admitted = λ d w. balance-admit w d;
    acked = λ a w. refl;
    status_set = λ id s w. refl;
    retrieved = λ id w. refl;
    committed = λ rec rand w. refl;
    completed = λ id w. refl;
    counted = λ id w. refl;
  }

  -- Whatever the record, the stages, the sink and the failures of the database, processing a record
  -- leaves `accepted - (normalized + quarantined + pending)` as it was.
  pub process_record-balance :
      (rec : IngestedRecord) (w : World S)
      → balance_of (process_record stages now rec w) ≡ balance_of w
  process_record-balance = process_record-Frame stages now _ (balance-RecordFrame)
