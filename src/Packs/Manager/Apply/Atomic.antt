-- ===== src/Packs/Manager/Apply/Atomic.antt =====
-- `ApplyPackFileWithState` and `RemovePackFileExpected` of internal/packs/manager.go, where one
-- access at most is refused or the process stops once.
use worm.Base.{
  Bool, true, ◌≡◌, refl, sym, List, [], Option, none, Bytes, get, put, del, Bool-cases, inl, inr,
}
use mathlib.Core.Path.{subst}
use worm.Library.{Library}
use worm.Store.Action.{Result, ok, err}
use worm.Packs.Match.{ParserPack}
use worm.Packs.Snapshot.{Snapshot}
use worm.Packs.Manager.Disk.{
  PackManifest, RollbackRecord, TransactionRecord, Disk, Fate, Ran, finished, crashed, Prog,
  safe_filename, or_return, go_on, remove_pack,
}
use worm.Packs.Manager.Manifest.{next_manifest_for_apply, next_manifest_for_remove}
use worm.Packs.Manager.Rules.{Single, attempt-Single}
use worm.Packs.Manager.Recovery.Settle.{Files, at, recovery-Single, put-Only, del-Only}
use worm.Packs.Manager.Apply.{
  Expectation, pending_of, undo_of, change_file, begin_file_transaction, read_state, is_expected,
  apply_pack_file, apply_pack, remove_pack_file, remove_loaded,
}
use worm.Packs.Manager.Apply.Change.{
  Ends, changed, clean-Recovers, change_file-Ends, pending-Undoes, filename_of,
}

-- What begins every change: it reads, on a disk with no record of an interrupted one.
module _ ⦃lib : Library⦄ (load_pack : Bytes → Result ParserPack) (version f : Bytes) (p : Files)
    (r : Option RollbackRecord) (m : Option PackManifest) where
  abbrev clean : Disk
  clean = at p r m none

  abbrev pub Reads : Ran (Result TransactionRecord) → Type 0
  Reads (finished (ok t) d fs) =
      (safe_filename f ≡ true) × (t ≡ pending_of f clean) × (d ≡ clean) × Single fs
  Reads (finished (err e) d fs) = d ≡ clean
  Reads (crashed d) = d ≡ clean

  read_state-Reads :
      (expected : Option Expectation) (fs : List Fate)
      → safe_filename f ≡ true
      → Single fs
      → Reads (read_state load_pack version f expected clean clean fs)
  unfolding read_state
  read_state-Reads expected fs safe s =
      elim (Bool-cases (is_expected load_pack version expected (pending_of f clean).before)) [
        | inr e ↦ rw e refl
        | inl e ↦ rw e (
            attempt-Single Reads _ _ _ fs s
              (λ fs1 s1.
                attempt-Single Reads _ _ _ fs1 s1 (λ fs2 s2. (safe, refl, refl, s2)) (λ fs2 c. refl)
                  (λ fs2 c. refl) refl)
              (λ fs1 c. refl) (λ fs1 c. refl) refl)
      ]

  pub begin-Reads :
      (expected : Option Expectation) (fs : List Fate)
      → Single fs
      → Reads (begin_file_transaction load_pack version f expected clean fs)
  unfolding begin_file_transaction
  begin-Reads expected fs s = elim (Bool-cases (safe_filename f)) [
    | inr e ↦ rw e refl
    | inl e ↦ rw e (
        recovery-Single Reads _ p r m fs s
          (λ fs1 s1.
            attempt-Single Reads _ _ _ fs1 s1 (λ fs2 s2. read_state-Reads expected fs2 e s2)
              (λ fs2 c. refl) (λ fs2 c. refl) refl)
          (λ fs1 c. refl) refl)
  ]

  -- The change that follows a beginning.
  follow-Ends :
      (A : Type 0) (new : Disk) (k : TransactionRecord → Prog (Result A))
      (x : Ran (Result TransactionRecord))
      → Reads x
      → (safe_filename f ≡ true
          → (fs : List Fate) → Single fs
          → Ends clean new (k (pending_of f clean) clean fs))
      → Ends clean new (go_on (or_return k) x)
  follow-Ends A new k (finished (ok t) d fs) (safe, t_is, d_is, s) next =
      rw (t_is, d_is) (next safe fs s)
  follow-Ends A new k (finished (err e) d fs) d_is next = rw d_is (clean-Recovers p r m)
  follow-Ends A new k (crashed d) d_is next = rw d_is (inl (clean-Recovers p r m))

  -- The manifest that goes with the content, if both are valid.
  abbrev pub next_manifest : Bytes → Bytes → Bool → Result ParserPack → Result PackManifest
  next_manifest content origin pinned (err e) = err e
  next_manifest content origin pinned (ok pack) =
      next_manifest_for_apply load_pack m pack.name f content origin pinned
        (pending_of f clean).before

  abbrev pub name_in : Result ParserPack → Bytes
  name_in (err e) = []
  name_in (ok pack) = pack.name

  -- The disk behind an apply.
  abbrev pub applied : Bytes → Result PackManifest → Bytes → Disk
  applied content next name =
      changed clean (put f content p) (undo_of (pending_of f clean).before name m) next

  apply_pack-Ends :
      (content : Bytes) (expected : Option Expectation) (origin : Bytes) (pinned : Bool)
      (pack : Result ParserPack) (fs : List Fate)
      → Single fs
      → Ends clean
          (applied content (next_manifest content origin pinned pack) (name_in pack))
          (apply_pack load_pack version f content expected origin pinned pack clean fs)
  unfolding apply_pack
  apply_pack-Ends content expected origin pinned (err e) fs s = clean-Recovers p r m
  apply_pack-Ends content expected origin pinned (ok pack) fs s =
      follow-Ends Snapshot _ _ _ (begin-Reads expected fs s) (λ safe fs' s'.
        change_file-Ends load_pack version f safe p r m (pending_of f clean)
          (pending-Undoes f p r m) (put f content) (put-Only f content p) pack.name
          (next_manifest_for_apply load_pack m pack.name f content origin pinned
            (pending_of f clean).before)
          fs' s')

  -- A change of one pack file leaves the directory whole, where one access at most is refused or
  -- reported as an error or the process stops once, and no record of an interrupted change was
  -- there: what a recovery that nothing disturbs makes of the files is the changed content with its
  -- rollback record and its manifest where success was reported, what was there before where an
  -- error was, and one of the two where the process stopped.
  pub apply_pack_file-Ends :
      (content : Bytes) (expected : Option Expectation) (origin : Bytes) (pinned : Bool)
      (fs : List Fate)
      → Single fs
      → Ends clean
          (applied content
            (next_manifest content origin pinned (load_pack content))
            (name_in (load_pack content)))
          (apply_pack_file load_pack version f content expected origin pinned clean fs)
  unfolding apply_pack_file
  apply_pack_file-Ends content expected origin pinned fs s =
      apply_pack-Ends content expected origin pinned (load_pack content) fs s

  abbrev before : RollbackRecord
  before = (pending_of f clean).before

  -- The disk behind a removal.
  abbrev pub removed : Bytes → Disk
  removed name =
      changed clean (del f p) (undo_of before name m) (ok (next_manifest_for_remove m name before))

  remove_loaded-Ends :
      (pack : Result ParserPack) (fs : List Fate)
      → safe_filename f ≡ true
      → Single fs
      → Ends clean
          (removed (name_in pack))
          (remove_loaded load_pack version (pending_of f clean) pack clean fs)
  unfolding remove_loaded pending_of
  remove_loaded-Ends (err e) fs safe s = clean-Recovers p r m
  remove_loaded-Ends (ok pack) fs safe s =
      subst
        (λ g. Ends clean (removed pack.name) (
          change_file load_pack version (pending_of f clean) (remove_pack g) pack.name
            (ok (next_manifest_for_remove m pack.name before)) clean fs))
        (sym (filename_of f p r m (get f p)))
        (change_file-Ends load_pack version f safe p r m (pending_of f clean)
          (pending-Undoes f p r m) (del f) (del-Only f p) pack.name
          (ok (next_manifest_for_remove m pack.name before)) fs s)

  -- A removal of one pack file leaves the directory whole, where one access at most is refused or
  -- reported as an error or the process stops once, and no record of an interrupted change was
  -- there: what a recovery that nothing disturbs makes of the files is the directory without the
  -- pack file, with its rollback record and its manifest, where success was reported, what was there
  -- before where an error was, and one of the two where the process stopped.
  pub remove_pack_file-Ends :
      (expected : Option Expectation) (fs : List Fate)
      → Single fs
      → Ends clean
          (removed (name_in (load_pack before.content)))
          (remove_pack_file load_pack version f expected clean fs)
  unfolding remove_pack_file
  remove_pack_file-Ends expected fs s =
      follow-Ends Snapshot _ _ _ (begin-Reads expected fs s) (λ safe fs' s'.
        elim (Bool-cases before.existed) [
          | inr e ↦ rw e (clean-Recovers p r m)
          | inl e ↦ rw e (remove_loaded-Ends (load_pack before.content) fs' safe s')
        ])
