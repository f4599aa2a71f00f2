-- ===== src/Packs/Manager/Apply.antt =====
-- `LoadDir`, `ApplyPackFileWithState` and `RemovePackFileExpected` of internal/packs/manager.go, on
-- the disk. The directory is configured, and `version` is the clock's name for the snapshot.
pub mod Change
pub mod Atomic
pub mod Torn
use worm.Base.{
  Bool, true, false, ◌&&◌, not, List, [], ◌∷◌, Option, none, some, Bytes, codes, get, str_eq,
  str_lt, if◌then◌else◌,
}
use worm.Library.{Library, Error, invalid, not_found}
use worm.Store.Action.{Result, ok, err}
use worm.Packs.Match.{ParserPack}
use worm.Packs.Snapshot.{Snapshot, Built, built, nil_pack, duplicate_name, new_snapshot}
use worm.Packs.Manager.Disk.{
  PackManifest, RollbackRecord, TransactionRecord, Disk, Prog, pure, ◌>>=◌, attempt, look,
  write_pack, remove_pack, set_rollback, set_manifest, set_transaction, or_return, safe_filename,
}
use worm.Packs.Manager.Manifest.{next_manifest_for_apply, next_manifest_for_remove}
use worm.Packs.Manager.Recovery.{recover_transactions, abort_transaction}

-- `PackFileExpectation`
pub record Expectation : Type 0 where
  pub exists : Bool
  pub digest : Bytes

-- `sort.Strings` of the file names
place_file : Bytes × Bytes → List (Bytes × Bytes) → List (Bytes × Bytes)
place_file f [] = f ∷ []
place_file f (g ∷ gs) =
    let later = g ∷ place_file f gs in if str_lt g.0 f.0 then later else f ∷ g ∷ gs

sort_files : List (Bytes × Bytes) → List (Bytes × Bytes)
unfolding place_file
sort_files [] = []
sort_files (f ∷ fs) = place_file f (sort_files fs)

module _ (load_pack : Bytes → Result ParserPack) where
  add_pack :
      Result ParserPack → Result (List (Option ParserPack)) → Result (List (Option ParserPack))
  add_pack (err e) rest = err e
  add_pack (ok p) (err e) = err e
  add_pack (ok p) (ok ps) = ok (some p ∷ ps)

  load_files : List (Bytes × Bytes) → Result (List (Option ParserPack))
  unfolding add_pack
  load_files [] = ok []
  load_files ((name, content) ∷ fs) = add_pack (load_pack content) (load_files fs)

  snapshot_of : Built → Result Snapshot
  snapshot_of (built s) = ok s
  snapshot_of nil_pack = err (invalid (codes "nil parser pack"))
  snapshot_of (duplicate_name n) = err (invalid n)

  build_snapshot : Bytes → Result (List (Option ParserPack)) → Result Snapshot
  unfolding snapshot_of
  build_snapshot version (err e) = err e
  build_snapshot version (ok ps) = snapshot_of (new_snapshot version ps)

  -- `LoadDir`
  unfoldable pub load_dir : Bytes → List (Bytes × Bytes) → Result Snapshot
  unfolding build_snapshot load_files sort_files
  load_dir version packs = build_snapshot version (load_files (sort_files packs))

unfoldable pub file_record : Bytes → Option Bytes → RollbackRecord
file_record f none = record {
  filename = f;
  existed = false;
  content = [];
  name = [];
  manifest = none;
}
file_record f (some c) = record {
  filename = f;
  existed = true;
  content = c;
  name = [];
  manifest = none;
}

-- The record before a change is committed.
unfoldable pub pending_of : Bytes → Disk → TransactionRecord
unfolding file_record
pending_of f d = record {
  before = file_record f (get f d.packs);
  undo = none;
  prior_undo = d.rollback;
  prior_manifest = d.manifest;
  next_manifest = none;
  committed = false;
}

unfoldable pub undo_of : RollbackRecord → Bytes → Option PackManifest → RollbackRecord
undo_of before name prior = record before { name = name; manifest = prior }

unfoldable pub committed_of :
    TransactionRecord → RollbackRecord → Option PackManifest → TransactionRecord
committed_of t undo next = record t { undo = some undo; next_manifest = next; committed = true }

-- `if err != nil { return nil, m.abortTransaction(…, err) }`
abbrev pub or_abort :
    {A B : Type 0} → TransactionRecord → (A → Prog (Result B)) → Result A → Prog (Result B)
or_abort t f (ok a) = f a
or_abort t f (err e) = abort_transaction t e

module _ ⦃lib : Library⦄ (load_pack : Bytes → Result ParserPack) (version : Bytes) where
  unfoldable pub is_expected : Option Expectation → RollbackRecord → Bool
  is_expected none before = true
  is_expected (some x) before =
      if x.exists
      then before.existed && str_eq x.digest (lib.sha256_hex before.content)
      else not before.existed

  read_state : Bytes → Option Expectation → Disk → Prog (Result TransactionRecord)
  unfolding is_expected pending_of
  read_state f expected d₀ =
      if is_expected expected (pending_of f d₀).before
      then attempt look
        >>= or_return (λ _. attempt look >>= or_return (λ _ d. pure (ok (pending_of f d)) d))
      else pure (err (invalid (codes "pack changed since the operation began")))

  -- `beginFileTransaction`: the record of what is there.
  unfoldable pub begin_file_transaction :
      Bytes → Option Expectation → Prog (Result TransactionRecord)
  unfolding read_state
  begin_file_transaction f expected =
      if safe_filename f
      then recover_transactions
        >>= or_return (λ _. attempt look >>= or_return (λ _ d. read_state f expected d d))
      else pure (err (invalid (codes "invalid pack filename")))

  -- From the committed record to its removal, whose error is dropped.
  unfoldable pub commit_change :
      TransactionRecord → RollbackRecord → PackManifest → Snapshot → Prog (Result Snapshot)
  commit_change t undo next snap =
      attempt (set_transaction (some (committed_of t undo (some next))))
      >>= or_abort t (λ _.
        attempt (set_rollback (some undo))
        >>= or_abort t (λ _.
          attempt (set_manifest (some next))
          >>= or_abort t (λ _. attempt (set_transaction none) >>= λ _. pure (ok snap))))

  manifest_then :
      TransactionRecord → Bytes → Snapshot → Result PackManifest → Prog (Result Snapshot)
  unfolding commit_change
  manifest_then t name snap (err e) = abort_transaction t e
  manifest_then t name snap (ok next) =
      commit_change t (undo_of t.before name t.prior_manifest) next snap

  loaded_then :
      TransactionRecord → Bytes → Result PackManifest → Result Snapshot → Prog (Result Snapshot)
  unfolding manifest_then
  loaded_then t name next (err e) = abort_transaction t e
  loaded_then t name next (ok snap) = manifest_then t name snap next

  -- The change of the pack file, between the pending record and the committed one.
  unfoldable pub change_file :
      TransactionRecord → (Disk → Disk) → Bytes → Result PackManifest → Prog (Result Snapshot)
  unfolding loaded_then
  change_file t f name next =
      attempt (set_transaction (some t))
      >>= or_return (λ _.
        attempt f
        >>= or_abort t (λ _.
          attempt look
          >>= or_abort t (λ _ d. loaded_then t name next (load_dir load_pack version d.packs) d)))

  apply_pack :
      Bytes → Bytes → Option Expectation → Bytes → Bool → Result ParserPack → Prog (Result Snapshot)
  unfolding change_file begin_file_transaction
  apply_pack f content expected origin pinned (err e) = pure (err e)
  apply_pack f content expected origin pinned (ok pack) =
      begin_file_transaction f expected
      >>= or_return (λ t. change_file t (write_pack f content) pack.name (
          next_manifest_for_apply load_pack t.prior_manifest pack.name f content origin pinned
            t.before))

  -- `ApplyPackFileWithState`
  unfoldable pub apply_pack_file :
      Bytes → Bytes → Option Expectation → Bytes → Bool → Prog (Result Snapshot)
  unfolding apply_pack
  apply_pack_file f content expected origin pinned =
      apply_pack f content expected origin pinned (load_pack content)

  remove_loaded : TransactionRecord → Result ParserPack → Prog (Result Snapshot)
  unfolding change_file
  remove_loaded t (err e) = pure (err e)
  remove_loaded t (ok pack) =
      change_file t (remove_pack t.before.filename) pack.name
        (ok (next_manifest_for_remove t.prior_manifest pack.name t.before))

  -- `RemovePackFileExpected`
  unfoldable pub remove_pack_file : Bytes → Option Expectation → Prog (Result Snapshot)
  unfolding remove_loaded begin_file_transaction
  remove_pack_file f expected =
      begin_file_transaction f expected
      >>= or_return (λ t.
        if t.before.existed
        then remove_loaded t (load_pack t.before.content)
        else pure (err not_found))
