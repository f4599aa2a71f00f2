-- ===== src/Packs/Manager/Recovery.antt =====
-- `RecoverTransactions` and `abortTransaction` of internal/packs/manager.go.
pub mod Settle
use worm.Base.{List, put, del, Bool, true, false, Option, none, some, Bytes, codes, if◌then◌else◌}
use worm.Library.{Error, invalid}
use worm.Store.Action.{Result, ok, err}
use worm.Packs.Manager.Disk.{
  RollbackRecord, TransactionRecord, Disk, Prog, pure, ◌>>=◌, attempt, look, PackManifest,
  set_rollback, set_manifest, set_transaction, or_return, safe_filename, finished, crashed,
}

-- The pack files with the recorded one written back, or removed where there was none.
unfoldable pub restored : RollbackRecord → List (Bytes × Bytes) → List (Bytes × Bytes)
restored r packs = elim r.existed [
  | true ↦ put r.filename r.content packs
  | false ↦ del r.filename packs
]

-- `restoreRecord`
unfoldable pub restore_record : RollbackRecord → Prog (Result (Unit {0}))
unfolding restored
restore_record r =
    if safe_filename r.filename
    then attempt (λ d. record d { packs = restored r d.packs })
    else pure (err (invalid (codes "unsafe pack transaction filename")))

-- The manifest is kept where none was recorded.
redo_manifest : Option PackManifest → Prog (Result (Unit {0}))
redo_manifest none = pure (ok tt)
redo_manifest (some m) = attempt (set_manifest (some m))

-- A committed change is completed, and then goes on.
unfoldable pub redo : {A : Type 0} → TransactionRecord → Prog (Result A) → Prog (Result A)
unfolding redo_manifest
redo t k =
    attempt (set_rollback t.undo)
    >>= or_return (λ _. redo_manifest t.next_manifest >>= or_return (λ _. k))

-- What a change began from is put back: the pack file, the rollback record and the manifest.
unfoldable pub undo : {A : Type 0} → TransactionRecord → Prog (Result A) → Prog (Result A)
unfolding restore_record
undo t k =
    restore_record t.before
    >>= or_return (λ _.
      attempt (set_rollback t.prior_undo)
      >>= or_return (λ _. attempt (set_manifest t.prior_manifest) >>= or_return (λ _. k)))

recover_record : TransactionRecord → Prog (Result (Unit {0}))
unfolding redo undo
recover_record t =
    let remove = attempt (set_transaction none) in
    if safe_filename t.before.filename
    then if t.committed then redo t remove else undo t remove
    else pure (err (invalid (codes "unsafe pack transaction filename")))

unfoldable pub recover_found : Option TransactionRecord → Prog (Result (Unit {0}))
unfolding recover_record
recover_found none = pure (ok tt)
recover_found (some t) = recover_record t

-- `RecoverTransactions`
unfoldable pub recover_transactions : Prog (Result (Unit {0}))
unfolding recover_found
recover_transactions = attempt look >>= or_return (λ _ d. recover_found d.transaction d)

-- `abortTransaction`: the error is the cause, or that of the step that failed.
unfoldable pub abort_transaction : {A : Type 0} → TransactionRecord → Error → Prog (Result A)
unfolding undo
abort_transaction t cause =
    undo t (attempt (set_transaction none) >>= or_return (λ _. pure (err cause)))
