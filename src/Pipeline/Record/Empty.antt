-- ===== src/Pipeline/Record/Empty.antt =====
-- internal/pipeline/pipeline.go: a batch with no children that is taken up again.
use worm.Base.{ℕ, true, List, [], ◌≡◌, arith, ℤ, pos, ◌+ℤ◌}
use worm.Library.{Library}
use worm.Model.{RawEvent, ProcessingStep, RawStatus}
use worm.Store.Action.{◌>>=◌, transact, query}
use worm.Store.Raw.{update_status, set_status}
use worm.Store.Normal.{
  count_completed_children, child_outcome_counts, normalized_of, quarantined_of,
}
use worm.Pipeline.World.{World, Stages, admit, run, run_}
use worm.Pipeline.Record.{process_decoded}

add_zero : (a : ℤ) → a +ℤ pos 0 ≡ a
unfolding ◌+ℤ◌
add_zero a = ground arith

module _ ⦃lib : Library⦄ {P S : Type 0} (stages : Stages P S) (now : ℕ) where
  -- With no failure of the database, a raw event that was taken up again, whose payload decodes to
  -- no child and that has no outcome yet, is marked as normalized, with nothing stored for it, and
  -- is counted as pending still.
  pub process_decoded_empty :
      (raw : RawEvent) (history : List ProcessingStep) (w : World S)
      → w.db.faults ≡ []
      → normalized_of raw.raw_id w.db.tables ≡ 0
      → quarantined_of raw.raw_id w.db.tables ≡ 0
      → ((process_decoded stages now raw true history [] w).db.tables
          ≡ set_status raw.raw_id RawStatus.normalized w.db.tables)
        × ((process_decoded stages now raw true history [] w).counters.pending ≡ w.counters.pending)
  unfolding process_decoded count_completed_children child_outcome_counts update_status query run
      run_ transact ◌>>=◌ admit
  process_decoded_empty raw history w f n q =
      (ground (arith, f, n, q), ground (arith, f, n, q, add_zero w.counters.pending))
