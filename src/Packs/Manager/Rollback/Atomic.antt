-- ===== src/Packs/Manager/Rollback/Atomic.antt =====
-- `rollbackWithRecord` and `RollbackPack` of internal/packs/manager.go, where one access at most is
-- refused or the process stops once.
use worm.Base.{
  true, false, ◌≡◌, refl, List, ◌⊎◌, Option, none, some, Bytes, str_eq, Bool-cases, inl, inr,
}
use worm.Library.{Library, Error}
use worm.Store.Action.{Result, ok, err}
use worm.Packs.Match.{ParserPack}
use worm.Packs.Snapshot.{Snapshot}
use worm.Packs.Manager.Disk.{
  PackManifest, RollbackRecord, TransactionRecord, Disk, Fate, Ran, finished, crashed,
  safe_filename, or_return, go_on,
}
use worm.Packs.Manager.Recovery.{restored, restore_record}
use worm.Packs.Manager.Rules.{Calm, Single, attempt-Single}
use worm.Packs.Manager.Recovery.Settle.{
  Files, at, Recovers, Only, Undoes, Aborted, pending-Recovers, recovery-Single, kept-Recovers,
  abort-pending, abort-Calm, put-Only, del-Only,
}
use worm.Packs.Manager.Apply.{load_dir, pending_of, undo_of, committed_of}
use worm.Packs.Manager.Apply.Change.{clean-Recovers, pending-Undoes}
use worm.Packs.Manager.Apply.Atomic.{Reads, begin-Reads}
use worm.Packs.Manager.Rollback.{
  commit_rollback, rollback_loaded, rollback_file, rollback_with_record, rollback_pack, roll_back,
  record_of, read_manifest,
}

-- An error may be reported of a rollback that is done, where its last step is.
abbrev pub Settles : {A : Type 0} → Disk → Disk → Ran (Result A) → Type 0
Settles old new (finished (ok a) d fs) = Recovers d new
Settles old new (finished (err e) d fs) = Recovers d old ⊎ Recovers d new
Settles old new (crashed d) = Recovers d old ⊎ Recovers d new

restored-Only : (saved : RollbackRecord) (p : Files) → Only saved.filename (restored saved p) p
unfolding restored
restored-Only saved p = elim (Bool-cases saved.existed) [
  | inl e ↦ rw e (put-Only saved.filename saved.content p)
  | inr e ↦ rw e (del-Only saved.filename p)
]

module _ ⦃lib : Library⦄ (load_pack : Bytes → Result ParserPack) (version : Bytes)
    (saved : RollbackRecord) (safe : safe_filename saved.filename ≡ true) (p : Files)
    (r : Option RollbackRecord) (m : Option PackManifest) (t : TransactionRecord)
    (u : Undoes t saved.filename p r m) where
  abbrev f : Bytes
  f = saved.filename

  abbrev q : Files
  q = restored saved p

  abbrev n : Option PackManifest
  n = saved.manifest

  abbrev old : Disk
  old = at p r m none

  abbrev undo : RollbackRecord
  undo = undo_of t.before saved.name t.prior_manifest

  abbrev new : Disk
  new = at q (some undo) n none

  only : Only f q p
  only = restored-Only saved p

  abort-Settles :
      (A : Type 0) (d : Disk) (x : Ran (Result A)) → Aborted f safe p r m t u x → Settles old d x
  abort-Settles A d (finished (ok a) d' fs) h = absurd h
  abort-Settles A d (finished (err e) d' fs) h = inl h
  abort-Settles A d (crashed d') h = inl h

  commit_rollback-Settles :
      (snap : Snapshot) (fs : List Fate)
      → Single fs
      → Settles old new (commit_rollback load_pack version t undo n snap (at q r n (some t)) fs)
  unfolding commit_rollback committed_of
  commit_rollback-Settles snap fs s =
      let E = Settles {A = Snapshot} old new in
      let done = λ (r' : Option RollbackRecord). kept-Recovers f safe p r m t u q r' undo n in
      let calm =
        λ (r' : Option RollbackRecord) (t' : Option TransactionRecord) (e : Error) (fs' : List Fate)
            (c : Calm fs').
          abort-Settles Snapshot new _
            (abort-Calm f safe p r m t u Snapshot q r' n t' e fs' only c) in
      attempt-Single E _ _ _ fs s
        (λ fs1 s1.
          attempt-Single E _ _ _ fs1 s1
            (λ fs2 s2.
              attempt-Single E _ _ _ fs2 s2 (λ fs3 s3. clean-Recovers q (some undo) n)
                (λ fs3 c. inr (done _)) (λ fs3 c. inr (clean-Recovers q (some undo) n))
                (inr (done _)))
            (λ fs2 c. calm _ _ _ fs2 c) (λ fs2 c. calm _ _ _ fs2 c) (inr (done _)))
        (λ fs1 c. calm _ _ _ fs1 c) (λ fs1 c. calm _ _ _ fs1 c)
        (inl (pending-Recovers f safe p r m t u q r n only))

  rollback_loaded-Settles :
      (snap : Result Snapshot) (fs : List Fate)
      → Single fs
      → Settles old new (rollback_loaded load_pack version t saved snap (at q r n (some t)) fs)
  unfolding rollback_loaded
  rollback_loaded-Settles (err e) fs s =
      abort-Settles Snapshot new _ (abort-pending f safe p r m t u Snapshot q r n e fs only s)
  rollback_loaded-Settles (ok snap) fs s =
      let calm = λ (e : Error) (fs' : List Fate) (c : Calm fs').
        abort-Settles Snapshot new _
          (abort-Calm f safe p r m t u Snapshot q r n (some t) e fs' only c) in
      attempt-Single (Settles {A = Snapshot} old new) _ _ _ fs s
        (λ fs1 s1. commit_rollback-Settles snap fs1 s1) (λ fs1 c. calm _ fs1 c)
        (λ fs1 c. calm _ fs1 c) (inl (pending-Recovers f safe p r m t u q r n only))

  rollback_file-Settles :
      (fs : List Fate)
      → Single fs
      → Settles old new (rollback_file load_pack version saved t old fs)
  unfolding rollback_file restore_record
  rollback_file-Settles fs s =
      let E = Settles {A = Snapshot} old new in
      let pending = λ (q' : Files) (m' : Option PackManifest) (o : Only f q' p).
        pending-Recovers f safe p r m t u q' r m' o in
      let calm =
        λ (q' : Files) (m' : Option PackManifest) (e : Error) (fs' : List Fate) (o : Only f q' p)
            (c : Calm fs').
          abort-Settles Snapshot new _
            (abort-Calm f safe p r m t u Snapshot q' r m' (some t) e fs' o c) in
      let same = λ (k : Bytes) (o : str_eq f k ≡ false). refl in
      rw safe (
        attempt-Single E _ _ _ fs s
          (λ fs1 s1.
            attempt-Single E _ _ _ fs1 s1
              (λ fs2 s2.
                attempt-Single E _ _ _ fs2 s2
                  (λ fs3 s3.
                    attempt-Single E _ _ _ fs3 s3
                      (λ fs4 s4. rollback_loaded-Settles (load_dir load_pack version q) fs4 s4)
                      (λ fs4 c. calm q n _ fs4 only c) (λ fs4 c. calm q n _ fs4 only c)
                      (inl (pending q n only)))
                  (λ fs3 c. calm q m _ fs3 only c) (λ fs3 c. calm q n _ fs3 only c)
                  (inl (pending q m only)))
              (λ fs2 c. calm p m _ fs2 same c) (λ fs2 c. calm q m _ fs2 only c)
              (inl (pending p m same)))
          (λ fs1 c. inl (clean-Recovers p r m)) (λ fs1 c. inl (pending p m same))
          (inl (clean-Recovers p r m)))

module _ ⦃lib : Library⦄ (load_pack : Bytes → Result ParserPack) (version : Bytes) (p : Files)
    (r : Option RollbackRecord) (m : Option PackManifest) where
  abbrev clean : Disk
  clean = at p r m none

  -- The disk behind a rollback to a record.
  abbrev pub rolled_back : RollbackRecord → Disk
  rolled_back saved =
      at (restored saved p) (some (undo_of (pending_of saved.filename clean).before saved.name m))
        saved.manifest none

  follow-Settles :
      (saved : RollbackRecord) (x : Ran (Result TransactionRecord))
      → safe_filename saved.filename ≡ true
      → Reads load_pack version saved.filename p r m x
      → Settles clean
          (rolled_back saved)
          (go_on (or_return (rollback_file load_pack version saved)) x)
  unfolding pending_of
  follow-Settles saved (finished (ok t) d fs) safe (_, t_is, d_is, s) =
      rw (t_is, d_is)
        (rollback_file-Settles load_pack version saved safe p r m _
          (pending-Undoes saved.filename p r m) fs s)
  follow-Settles saved (finished (err e) d fs) safe d_is = rw d_is (inl (clean-Recovers p r m))
  follow-Settles saved (crashed d) safe d_is = rw d_is (inl (clean-Recovers p r m))

  rollback_with_record-Settles :
      (saved : RollbackRecord) (fs : List Fate)
      → Single fs
      → Settles clean (rolled_back saved) (rollback_with_record load_pack version saved clean fs)
  unfolding rollback_with_record
  rollback_with_record-Settles saved fs s =
      let unchanged = clean-Recovers p r m in
      recovery-Single (Settles {A = Snapshot} clean (rolled_back saved)) _ p r m fs s
        (λ fs1 s1. elim (Bool-cases (safe_filename saved.filename)) [
          | inr e ↦ rw e (inl unchanged)
          | inl e ↦ rw e (
              follow-Settles saved _ e
                (begin-Reads load_pack version saved.filename p r m none fs1 s1))
        ])
        (λ fs1 c. inl unchanged) (inl unchanged)

  -- The disk behind a rollback of a pack by its history, if it has one.
  abbrev pub reverted : Result RollbackRecord → Disk
  reverted (err e) = clean
  reverted (ok saved) = rolled_back saved

  roll_back-Settles :
      (saved : Result RollbackRecord) (fs : List Fate)
      → Single fs
      → Settles clean (reverted saved) (roll_back load_pack version saved clean fs)
  unfolding roll_back
  roll_back-Settles (err e) fs s = inl (clean-Recovers p r m)
  roll_back-Settles (ok saved) fs s = rollback_with_record-Settles saved fs s

  -- A rollback of one pack leaves the directory whole, where one access at most is refused or
  -- reported as an error or the process stops once, and no record of an interrupted change was
  -- there: what a recovery that nothing disturbs makes of the files is the state before the pack's
  -- last change where success was reported, and that state or the one that the rollback began from
  -- where an error was or the process stopped.
  pub rollback_pack-Settles :
      (name : Bytes) (fs : List Fate)
      → Single fs
      → Settles clean
          (reverted (record_of name (read_manifest m)))
          (rollback_pack load_pack version name clean fs)
  unfolding rollback_pack
  rollback_pack-Settles name fs s =
      let saved = record_of name (read_manifest m) in
      attempt-Single (Settles {A = Snapshot} clean (reverted saved)) _ _ _ fs s
        (λ fs1 s1. roll_back-Settles saved fs1 s1) (λ fs1 c. inl (clean-Recovers p r m))
        (λ fs1 c. inl (clean-Recovers p r m)) (inl (clean-Recovers p r m))
