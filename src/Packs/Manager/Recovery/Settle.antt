-- ===== src/Packs/Manager/Recovery/Settle.antt =====
-- internal/packs/manager.go: the disk that a recovery leaves behind an interrupted change.
use worm.Base.{
  true, false, ◌≡◌, refl, ◌∙◌, ap, List, [], ◌∷◌, Option, none, some, Bytes, get, put, del, get-put,
  get-del, str_eq,
}
use worm.Library.{Error, driver}
use worm.Store.Action.{Result, ok, err}
use worm.Packs.Manager.Disk.{
  PackManifest, RollbackRecord, TransactionRecord, Disk, Fate, proceed, refuse, report, crash, Ran,
  finished, crashed, Prog, attempt, safe_filename, ◌>>=◌,
}
use worm.Packs.Manager.Recovery.{
  recover_transactions, recover_record, restored, restore_record, undo, redo, abort_transaction,
}
use worm.Packs.Manager.Rules.{Calm, Single, attempt-Calm, attempt-Single}

abbrev pub Files : Type 0
Files = List (Bytes × Bytes)

abbrev pub at :
    Files → Option RollbackRecord → Option PackManifest → Option TransactionRecord → Disk
at p r m t = record { packs = p; rollback = r; manifest = m; transaction = t }

-- The same files with the same contents.
pub record SameDisk (a b : Disk) : Type 0 where
  pub files : (k : Bytes) → get k a.packs ≡ get k b.packs
  pub undo : a.rollback ≡ b.rollback
  pub manifest : a.manifest ≡ b.manifest
  pub transaction : a.transaction ≡ b.transaction

-- A recovery that nothing disturbs succeeds and leaves these files.
pub data Recovers (d e : Disk) : Type 0 where
  recovers :
      (e' : Disk)
      → recover_transactions d [] ≡ finished (ok tt) e' []
      → SameDisk e' e
      → Recovers d e

-- Files that differ at one name at most.
abbrev pub Only : Bytes → Files → Files → Type 0
Only f p q = (k : Bytes) → str_eq f k ≡ false → get k p ≡ get k q

pub put-Only : (f c : Bytes) (p : Files) → Only f (put f c p) p
put-Only f c p k h = get-put f k c p ∙ rw h refl

pub del-Only : (f : Bytes) (p : Files) → Only f (del f p) p
del-Only f p k h = get-del f k p ∙ rw h refl

-- What a transaction record that is not committed undoes: a change of one file of `p`.
pub record Undoes (t : TransactionRecord) (f : Bytes) (p : Files) (r : Option RollbackRecord)
    (m : Option PackManifest) : Type 0 where
  pub filename_is : t.before.filename ≡ f
  pub undo_is : t.prior_undo ≡ r
  pub manifest_is : t.prior_manifest ≡ m
  pub pending : t.committed ≡ false
  pub file_is : (q : Files) (k : Bytes) → Only f q p → get k (restored t.before q) ≡ get k p

module _ (f : Bytes) (safe : safe_filename f ≡ true) (p : Files) (r : Option RollbackRecord)
    (m : Option PackManifest) (t : TransactionRecord) (u : Undoes t f p r m) where
  safe_before : safe_filename t.before.filename ≡ true
  safe_before = ap safe_filename u.filename_is ∙ safe

  pub pending-Recovers :
      (q : Files) (r' : Option RollbackRecord) (m' : Option PackManifest)
      → Only f q p
      → Recovers (at q r' m' (some t)) (at p r m none)
  unfolding recover_transactions recover_record undo attempt restore_record
  pending-Recovers q r' m' o =
      recovers _ (rw (safe_before, recover_record, u.pending) refl) (record {
        files = λ k. u.file_is q k o;
        undo = u.undo_is;
        manifest = u.manifest_is;
        transaction = refl;
      })

  -- A committed record completes the change, whatever of it is on the disk.
  pub committed-Recovers :
      (q : Files) (r' : Option RollbackRecord) (m' : Option PackManifest) (x : RollbackRecord)
      (n : PackManifest)
      → Recovers
          (at q r' m' (some (record t { undo = some x; next_manifest = some n; committed = true })))
          (at q (some x) (some n) none)
  unfolding recover_transactions recover_record redo attempt
  committed-Recovers q r' m' x n =
      recovers _ (rw (safe_before, recover_record) refl)
        (record { files = λ k. refl; undo = refl; manifest = refl; transaction = refl })

  -- The same where the recorded manifest is already there.
  pub kept-Recovers :
      (q : Files) (r' : Option RollbackRecord) (x : RollbackRecord) (n : Option PackManifest)
      → Recovers
          (at q r' n (some (record t { undo = some x; next_manifest = n; committed = true })))
          (at q (some x) n none)
  unfolding recover_transactions recover_record redo attempt
  kept-Recovers q r' x (some n) = committed-Recovers q r' (some n) x n
  kept-Recovers q r' x none =
      recovers _ (rw (safe_before, recover_record) refl)
        (record { files = λ k. refl; undo = refl; manifest = refl; transaction = refl })

  -- How an aborted change may end, in a run that nothing else or one thing at most disturbs.
  abbrev pub Aborted : {A : Type 0} → Ran (Result A) → Type 0
  Aborted (finished (ok _) d fs) = ⊥
  Aborted (finished (err e) d fs) = Recovers d (at p r m none)
  Aborted (crashed d) = Recovers d (at p r m none)

  back-Only : (q : Files) → Only f q p → Only f (restored t.before q) p
  back-Only q o k h = u.file_is q k o

  -- Behind the whole of the abort.
  aborted :
      (q : Files)
      → Only f q p
      → Recovers (at (restored t.before q) t.prior_undo t.prior_manifest none) (at p r m none)
  unfolding recover_transactions attempt
  aborted q o = recovers _ refl (record {
    files = λ k. u.file_is q k o;
    undo = u.undo_is;
    manifest = u.manifest_is;
    transaction = refl;
  })

  -- Where the change was not committed, each step of the abort leaves a record that undoes it.
  pub abort-pending :
      (A : Type 0) (q : Files) (r' : Option RollbackRecord) (m' : Option PackManifest) (e : Error)
      (fs : List Fate)
      → Only f q p
      → Single fs
      → Aborted (abort_transaction {A = A} t e (at q r' m' (some t)) fs)
  unfolding abort_transaction undo restore_record
  abort-pending A q r' m' e fs o s =
      let o' = back-Only q o in
      let halfway = λ (r : Option RollbackRecord) (m : Option PackManifest).
        pending-Recovers (restored t.before q) r m o' in
      rw safe_before (
        attempt-Single (Aborted {A = A}) _ _ _ fs s
          (λ fs1 s1.
            attempt-Single (Aborted {A = A}) _ _ _ fs1 s1
              (λ fs2 s2.
                attempt-Single (Aborted {A = A}) _ _ _ fs2 s2
                  (λ fs3 s3.
                    attempt-Single (Aborted {A = A}) _ _ _ fs3 s3 (λ fs4 s4. aborted q o)
                      (λ fs4 c. halfway _ _) (λ fs4 c. aborted q o) (halfway _ _))
                  (λ fs3 c. halfway _ _) (λ fs3 c. halfway _ _) (halfway _ _))
              (λ fs2 c. halfway _ _) (λ fs2 c. halfway _ _) (halfway _ _))
          (λ fs1 c. pending-Recovers q r' m' o) (λ fs1 c. halfway _ _) (pending-Recovers q r' m' o))

  -- An abort that nothing disturbs undoes the change, whatever record is there.
  pub abort-Calm :
      (A : Type 0) (q : Files) (r' : Option RollbackRecord) (m' : Option PackManifest)
      (t' : Option TransactionRecord) (e : Error) (fs : List Fate)
      → Only f q p
      → Calm fs
      → Aborted (abort_transaction {A = A} t e (at q r' m' t') fs)
  unfolding abort_transaction undo restore_record
  abort-Calm A q r' m' t' e fs o c = rw safe_before (
      attempt-Calm (Aborted {A = A}) _ _ _ fs c (λ fs1 c1.
        attempt-Calm (Aborted {A = A}) _ _ _ fs1 c1 (λ fs2 c2.
          attempt-Calm (Aborted {A = A}) _ _ _ fs2 c2
            (λ fs3 c3. attempt-Calm (Aborted {A = A}) _ _ _ fs3 c3 (λ fs4 c4. aborted q o)))))

-- What runs behind the recovery of files with no record of an interrupted change.
pub recovery-Single :
    {A : Type 0} (E : Ran A → Type 0) (k : Result (Unit {0}) → Prog A) (p : Files)
    (r : Option RollbackRecord) (m : Option PackManifest) (fs : List Fate)
    → Single fs
    → ((fs' : List Fate) → Single fs' → E (k (ok tt) (at p r m none) fs'))
    → ((fs' : List Fate) → Calm fs' → E (k (err driver) (at p r m none) fs'))
    → E (crashed (at p r m none))
    → E ((recover_transactions >>= k) (at p r m none) fs)
unfolding recover_transactions attempt
recovery-Single E k p r m [] s done refused stopped = done [] tt
recovery-Single E k p r m (proceed ∷ fs) s done refused stopped = done fs s
recovery-Single E k p r m (refuse ∷ fs) s done refused stopped = refused fs s
recovery-Single E k p r m (report ∷ fs) s done refused stopped = refused fs s
recovery-Single E k p r m (crash ∷ fs) s done refused stopped = stopped
