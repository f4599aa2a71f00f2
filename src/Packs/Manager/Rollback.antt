-- ===== src/Packs/Manager/Rollback.antt =====
-- `RollbackPack` and `rollbackWithRecord` of internal/packs/manager.go, and `ReadManifest` of
-- internal/packs/manifest.go. The directory is configured.
pub mod Atomic
pub mod Reverts
use worm.Base.{
  Bool, true, false, List, [], ◌∷◌, Option, none, some, Bytes, codes, get, put, del, str_eq, ◌==◌,
  if◌then◌else◌,
}
use worm.Library.{Library, Error, invalid}
use worm.Store.Action.{Result, ok, err}
use worm.Packs.Match.{ParserPack}
use worm.Packs.Snapshot.{Snapshot}
use worm.Packs.Manager.Disk.{
  PackInstall, PackRevision, PackManifest, RollbackRecord, TransactionRecord, Prog, pure, ◌>>=◌,
  attempt, look, set_rollback, set_manifest, set_transaction, or_return, safe_filename,
}
use worm.Packs.Manager.Manifest.{empty_manifest, revisions}
use worm.Packs.Manager.Recovery.{recover_transactions, restore_record, abort_transaction}
use worm.Packs.Manager.Apply.{load_dir, undo_of, committed_of, or_abort, begin_file_transaction}

-- `ReadManifest`, of the file that is there
unfoldable pub read_manifest : Option PackManifest → Result PackManifest
read_manifest none = ok empty_manifest
read_manifest (some m) =
    if m.version == 1
    then ok m
    else err (invalid (codes "unsupported parser pack manifest version"))

-- The last revision and those before it.
unfoldable pub last_revision : List PackRevision → Option (List PackRevision × PackRevision)
last_revision [] = none
last_revision (r ∷ rs) = elim (last_revision rs) [
  | none ↦ some ([], r)
  | some earlier ↦ some (r ∷ earlier.0, earlier.1)
]

unfoldable pub entries_before :
    Bytes → Option PackInstall → List (Bytes × PackInstall) → List (Bytes × PackInstall)
entries_before name none entries = del name entries
entries_before name (some previous) entries = put name previous entries

unfoldable pub revision_record :
    Bytes → PackManifest → Option (List PackRevision × PackRevision) → Result RollbackRecord
unfolding entries_before
revision_record name m none = err (invalid (codes "no previous state for pack"))
revision_record name m (some (earlier, revision)) =
    if str_eq revision.filename []
    then err (invalid (codes "invalid pack history filename"))
    else ok (record {
      filename = revision.filename;
      existed = revision.existed;
      content = revision.content;
      name = name;
      manifest = some (record m {
        history = put name earlier m.history;
        entries = entries_before name revision.previous m.entries;
      });
    })

-- What `RollbackPack` takes from the manifest.
unfoldable pub record_of : Bytes → Result PackManifest → Result RollbackRecord
unfolding revision_record last_revision revisions
record_of name (err e) = err e
record_of name (ok m) = revision_record name m (last_revision (revisions (get name m.history)))

module _ ⦃lib : Library⦄ (load_pack : Bytes → Result ParserPack) (version : Bytes) where
  unfoldable pub commit_rollback :
      TransactionRecord → RollbackRecord → Option PackManifest → Snapshot → Prog (Result Snapshot)
  commit_rollback t undo next snap =
      attempt (set_transaction (some (committed_of t undo next)))
      >>= or_abort t (λ _.
        attempt (set_rollback (some undo))
        >>= or_abort t (λ _. attempt (set_transaction none) >>= or_return (λ _. pure (ok snap))))

  -- The manifest of the committed record is the one that was written.
  rollback_loaded : TransactionRecord → RollbackRecord → Result Snapshot → Prog (Result Snapshot)
  unfolding commit_rollback
  rollback_loaded t saved (err e) = abort_transaction t e
  rollback_loaded t saved (ok snap) =
      attempt look
      >>= or_abort t (λ _ d.
        commit_rollback t (undo_of t.before saved.name t.prior_manifest) d.manifest snap d)

  unfoldable pub rollback_file : RollbackRecord → TransactionRecord → Prog (Result Snapshot)
  unfolding rollback_loaded
  rollback_file saved t =
      attempt (set_transaction (some t))
      >>= or_return (λ _.
        restore_record saved
        >>= or_abort t (λ _.
          attempt (set_manifest saved.manifest)
          >>= or_abort t (λ _.
            attempt look
            >>= or_abort t
                (λ _ d. rollback_loaded t saved (load_dir load_pack version d.packs) d))))

  -- `rollbackWithRecord` of a record that is given.
  unfoldable pub rollback_with_record : RollbackRecord → Prog (Result Snapshot)
  unfolding rollback_file
  rollback_with_record saved =
      recover_transactions
      >>= or_return (λ _.
        if safe_filename saved.filename
        then begin_file_transaction load_pack version saved.filename none
          >>= or_return (rollback_file saved)
        else pure (err (invalid (codes "unsafe pack transaction filename"))))

  roll_back : Result RollbackRecord → Prog (Result Snapshot)
  unfolding rollback_with_record
  roll_back (err e) = pure (err e)
  roll_back (ok saved) = rollback_with_record saved

  -- `RollbackPack`: the manifest is read before an interrupted change is recovered.
  unfoldable pub rollback_pack : Bytes → Prog (Result Snapshot)
  unfolding roll_back record_of read_manifest
  rollback_pack name =
      attempt look >>= or_return (λ _ d. roll_back (record_of name (read_manifest d.manifest)) d)
