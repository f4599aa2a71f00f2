-- ===== src/Packs/Manager/Apply/Change.antt =====
-- internal/packs/manager.go: a change of one pack file that one refused access or one stop of the
-- process disturbs.
use worm.Base.{
  true, ◌≡◌, refl, sym, ◌∙◌, ap, List, ◌⊎◌, Option, none, some, Bytes, get, get-put, get-del,
  str_eq, str_eq_iff, Bool-cases, inl, inr,
}
use worm.Library.{Library, Error}
use worm.Store.Action.{Result, ok, err}
use worm.Packs.Match.{ParserPack}
use worm.Packs.Snapshot.{Snapshot}
use worm.Packs.Manager.Disk.{
  PackManifest, RollbackRecord, TransactionRecord, Disk, Fate, Ran, finished, crashed, attempt,
  safe_filename,
}
use worm.Packs.Manager.Recovery.{recover_transactions, restored}
use worm.Packs.Manager.Rules.{Calm, Single, attempt-Single}
use worm.Packs.Manager.Recovery.Settle.{
  Files, at, Recovers, recovers, Only, Undoes, Aborted, pending-Recovers, committed-Recovers,
  abort-pending, abort-Calm,
}
use worm.Packs.Manager.Apply.{
  load_dir, pending_of, file_record, undo_of, committed_of, commit_change, manifest_then,
  loaded_then, change_file,
}

module _ (f : Bytes) (p : Files) (r : Option RollbackRecord) (m : Option PackManifest) where
  -- The record made of the disk undoes a change of its file.
  recorded :
      (o : Option Bytes)
      → get f p ≡ o
      → (q : Files) (k : Bytes) → Only f q p
      → get k (restored (file_record f o) q) ≡ get k p
  unfolding restored file_record
  recorded none h q k o = elim (Bool-cases (str_eq f k)) [
    | inl e ↦ get-del f k q ∙ rw e (sym h ∙ ap (λ x. get x p) ((str_eq_iff f k).0 e))
    | inr e ↦ get-del f k q ∙ rw e (o k e)
  ]
  recorded (some c) h q k o = elim (Bool-cases (str_eq f k)) [
    | inl e ↦ get-put f k c q ∙ rw e (sym h ∙ ap (λ x. get x p) ((str_eq_iff f k).0 e))
    | inr e ↦ get-put f k c q ∙ rw e (o k e)
  ]

  pub filename_of : (o : Option Bytes) → (file_record f o).filename ≡ f
  unfolding file_record
  filename_of none = refl
  filename_of (some c) = refl

  pub pending-Undoes : Undoes (pending_of f (at p r m none)) f p r m
  unfolding pending_of
  pending-Undoes = record {
    filename_is = filename_of (get f p);
    undo_is = refl;
    manifest_is = refl;
    pending = refl;
    file_is = recorded (get f p) refl;
  }

-- The disk behind a recovery that followed: the change is there wholly, or not at all. It is there
-- where success was reported, and it is not there where an error was.
abbrev pub Ends : {A : Type 0} → Disk → Disk → Ran (Result A) → Type 0
Ends old new (finished (ok a) d fs) = Recovers d new
Ends old new (finished (err e) d fs) = Recovers d old
Ends old new (crashed d) = Recovers d old ⊎ Recovers d new

-- What a change leaves, if there is a manifest to go with it.
abbrev pub changed : Disk → Files → RollbackRecord → Result PackManifest → Disk
changed old q undo (ok n) = at q (some undo) (some n) none
changed old q undo (err e) = old

pub clean-Recovers :
    (p : Files) (r : Option RollbackRecord) (m : Option PackManifest)
    → Recovers (at p r m none) (at p r m none)
unfolding recover_transactions attempt
clean-Recovers p r m =
    recovers _ refl (record { files = λ k. refl; undo = refl; manifest = refl; transaction = refl })

module _ ⦃lib : Library⦄ (load_pack : Bytes → Result ParserPack) (version f : Bytes)
    (safe : safe_filename f ≡ true) (p : Files) (r : Option RollbackRecord)
    (m : Option PackManifest) (t : TransactionRecord) (u : Undoes t f p r m) (h : Files → Files)
    (only : Only f (h p) p) (name : Bytes) where
  abbrev old : Disk
  old = at p r m none

  abbrev undo : RollbackRecord
  undo = undo_of t.before name t.prior_manifest

  abbrev new : Result PackManifest → Disk
  new = changed old (h p) undo

  abort-Ends :
      (A : Type 0) (d : Disk) (x : Ran (Result A)) → Aborted f safe p r m t u x → Ends old d x
  abort-Ends A d (finished (ok a) d' fs) h = absurd h
  abort-Ends A d (finished (err e) d' fs) h = h
  abort-Ends A d (crashed d') h = inl h

  commit_change-Ends :
      (n : PackManifest) (snap : Snapshot) (fs : List Fate)
      → Single fs
      → Ends old
          (new (ok n))
          (commit_change load_pack version t undo n snap (at (h p) r m (some t)) fs)
  unfolding commit_change committed_of
  commit_change-Ends n snap fs s =
      let done = λ (r' : Option RollbackRecord) (m' : Option PackManifest).
        committed-Recovers f safe p r m t u (h p) r' m' undo n in
      let calm =
        λ (r' : Option RollbackRecord) (m' : Option PackManifest) (t' : Option TransactionRecord)
            (e : Error) (fs' : List Fate) (c : Calm fs').
          abort-Ends Snapshot (new (ok n)) _
            (abort-Calm f safe p r m t u Snapshot (h p) r' m' t' e fs' only c) in
      attempt-Single (Ends {A = Snapshot} old (new (ok n))) _ _ _ fs s
        (λ fs1 s1.
          attempt-Single (Ends {A = Snapshot} old (new (ok n))) _ _ _ fs1 s1
            (λ fs2 s2.
              attempt-Single (Ends {A = Snapshot} old (new (ok n))) _ _ _ fs2 s2
                (λ fs3 s3.
                  attempt-Single (Ends {A = Snapshot} old (new (ok n))) _ _ _ fs3 s3
                    (λ fs4 s4. clean-Recovers (h p) (some undo) (some n)) (λ fs4 c. done _ _)
                    (λ fs4 c. clean-Recovers (h p) (some undo) (some n)) (inr (done _ _)))
                (λ fs3 c. calm _ _ _ _ fs3 c) (λ fs3 c. calm _ _ _ _ fs3 c) (inr (done _ _)))
            (λ fs2 c. calm _ _ _ _ fs2 c) (λ fs2 c. calm _ _ _ _ fs2 c) (inr (done _ _)))
        (λ fs1 c. calm _ _ _ _ fs1 c) (λ fs1 c. calm _ _ _ _ fs1 c)
        (inl (pending-Recovers f safe p r m t u (h p) r m only))

  loaded_then-Ends :
      (next : Result PackManifest) (snap : Result Snapshot) (fs : List Fate)
      → Single fs
      → Ends old
          (new next)
          (loaded_then load_pack version t name next snap (at (h p) r m (some t)) fs)
  unfolding loaded_then manifest_then
  loaded_then-Ends next (err e) fs s =
      abort-Ends Snapshot (new next) _
        (abort-pending f safe p r m t u Snapshot (h p) r m e fs only s)
  loaded_then-Ends (err e) (ok snap) fs s =
      abort-Ends Snapshot old _ (abort-pending f safe p r m t u Snapshot (h p) r m e fs only s)
  loaded_then-Ends (ok n) (ok snap) fs s = commit_change-Ends n snap fs s

  pub change_file-Ends :
      (next : Result PackManifest) (fs : List Fate)
      → Single fs
      → Ends old
          (new next)
          (change_file load_pack version t (λ d. record d { packs = h d.packs }) name next old fs)
  unfolding change_file
  change_file-Ends next fs s =
      let E = Ends {A = Snapshot} old (new next) in
      let untouched = pending-Recovers f safe p r m t u p r m (λ k o. refl) in
      let changed = pending-Recovers f safe p r m t u (h p) r m only in
      let calm = λ (q : Files) (e : Error) (fs' : List Fate) (o : Only f q p) (c : Calm fs').
        abort-Ends Snapshot (new next) _
          (abort-Calm f safe p r m t u Snapshot q r m (some t) e fs' o c) in
      attempt-Single E _ _ _ fs s
        (λ fs1 s1.
          attempt-Single E _ _ _ fs1 s1
            (λ fs2 s2.
              attempt-Single E _ _ _ fs2 s2
                (λ fs3 s3. loaded_then-Ends next (load_dir load_pack version (h p)) fs3 s3)
                (λ fs3 c. calm (h p) _ fs3 only c) (λ fs3 c. calm (h p) _ fs3 only c) (inl changed))
            (λ fs2 c. calm p _ fs2 (λ k o. refl) c) (λ fs2 c. calm (h p) _ fs2 only c)
            (inl untouched))
        (λ fs1 c. clean-Recovers p r m) (λ fs1 c. untouched) (inl (clean-Recovers p r m))
