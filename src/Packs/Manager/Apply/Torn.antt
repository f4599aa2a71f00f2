-- ===== src/Packs/Manager/Apply/Torn.antt =====
-- `ApplyPackFileWithState`, `abortTransaction` and `RecoverTransactions` of
-- internal/packs/manager.go, where one write is refused and the process stops in the abort.
use worm.Base.{Bool, true, ◌≡◌, refl, ◌∙◌, List, [], ◌∷◌, Option, none, some, Bytes, get, put}
use worm.Library.{Library}
use worm.Store.Action.{Result, ok}
use worm.Packs.Match.{ParserPack}
use worm.Packs.Snapshot.{Snapshot}
use worm.Packs.Manager.Disk.{
  PackManifest, RollbackRecord, Disk, Fate, proceed, refuse, crash, crashed, safe_filename, attempt,
}
use worm.Packs.Manager.Manifest.{next_manifest_for_apply}
use worm.Packs.Manager.Recovery.{
  recover_transactions, restored, restore_record, recover_found, undo, abort_transaction,
}
use worm.Packs.Manager.Recovery.Settle.{Files, at, Recovers, recovers, committed-Recovers, put-Only}
use worm.Packs.Manager.Apply.{
  Expectation, load_dir, pending_of, undo_of, committed_of, commit_change, change_file,
  begin_file_transaction, is_expected, apply_pack_file, manifest_then, loaded_then, apply_pack,
  read_state,
}
use worm.Packs.Manager.Apply.Change.{pending-Undoes, filename_of}

-- Every access up to the committed record is done, the write of rollback.json is refused, and the
-- abort writes the pack file back before the process stops.
abbrev pub torn_fates : List Fate
torn_fates =
    proceed ∷ proceed ∷ proceed ∷ proceed ∷ proceed ∷ proceed ∷ proceed ∷ proceed ∷ refuse ∷ proceed
    ∷ crash ∷ []

module _ ⦃lib : Library⦄ (load_pack : Bytes → Result ParserPack) (version f : Bytes) (p : Files)
    (r : Option RollbackRecord) (m : Option PackManifest) where
  abbrev clean : Disk
  clean = at p r m none

  abbrev before : RollbackRecord
  before = (pending_of f clean).before

  same_files :
      (d : Disk) (q : Files) (x : Option RollbackRecord) (n : Option PackManifest)
      → ((k : Bytes) → get k q ≡ get k p)
      → Recovers d (at q x n none)
      → Recovers d (at p x n none)
  same_files d q x n e (recovers e' run same) = recovers e' run (record {
    files = λ k. same.files k ∙ e k;
    undo = same.undo;
    manifest = same.manifest;
    transaction = same.transaction;
  })

  torn :
      (content : Bytes) (expected : Option Expectation) (origin : Bytes) (pinned : Bool)
      (pack : ParserPack) (n : PackManifest) (snap : Snapshot)
      → safe_filename f ≡ true
      → is_expected load_pack version expected before ≡ true
      → load_pack content ≡ ok pack
      → next_manifest_for_apply load_pack m pack.name f content origin pinned before ≡ ok n
      → load_dir load_pack version (put f content p) ≡ ok snap
      → apply_pack_file load_pack version f content expected origin pinned clean torn_fates
        ≡ crashed (
            at
              (restored before (put f content p))
              r
              m
              (some (committed_of (pending_of f clean) (undo_of before pack.name m) (some n))))
  unfolding apply_pack_file apply_pack begin_file_transaction recover_transactions recover_found
      read_state change_file loaded_then manifest_then commit_change abort_transaction undo
      restore_record attempt pending_of
  torn content expected origin pinned pack n snap safe e l ne s =
      rw (l, safe, e, ne, s, filename_of f p r m (get f p), safe) refl

  -- Two disturbances of an apply tear the directory: for a pack and a directory that are valid,
  -- where the write of rollback.json is refused behind the committed transaction record and the
  -- process stops once the abort has written the pack file back, the recovery that follows leaves
  -- the pack files as they were, with the rollback record and the manifest of the change.
  pub apply_pack_file-crashed :
      (content : Bytes) (expected : Option Expectation) (origin : Bytes) (pinned : Bool)
      (pack : ParserPack) (n : PackManifest) (snap : Snapshot)
      → safe_filename f ≡ true
      → is_expected load_pack version expected before ≡ true
      → load_pack content ≡ ok pack
      → next_manifest_for_apply load_pack m pack.name f content origin pinned before ≡ ok n
      → load_dir load_pack version (put f content p) ≡ ok snap
      → (d : Disk) × (apply_pack_file load_pack version f content expected origin pinned clean
            torn_fates
          ≡ crashed d)
        × Recovers d (at p (some (undo_of before pack.name m)) (some n) none)
  unfolding committed_of
  apply_pack_file-crashed content expected origin pinned pack n snap safe e l ne s =
      let t = pending_of f clean in
      let u = pending-Undoes f p r m in
      let q = restored before (put f content p) in
      let x = undo_of before pack.name m in
      let whole = committed-Recovers f safe p r m t u q r m x n in
      (
        _,
        torn content expected origin pinned pack n snap safe e l ne s,
        same_files _ q (some x) (some n) (λ k. u.file_is _ k (put-Only f content p)) whole,
      )
