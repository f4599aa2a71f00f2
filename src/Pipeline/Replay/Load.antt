-- ===== src/Pipeline/Replay/Load.antt =====
-- internal/pipeline/pipeline.go: what `Replay` reads, and the transaction that it commits.
use worm.Base.{◌≡◌, refl, ◌∙◌, Bool, true, false, inl, inr, Bytes, Bool-cases}
use worm.Library.{Library, Error}
use worm.Model.{RawEvent, QuarantineEntry}
use worm.Store.Action.{Result, ok, err, Tables, Db, transact, commit, next_fault}
use worm.Store.Raw.{retrieve, verify}
use worm.Store.Dead.{get_quarantine_by_id}
use worm.Store.Keeps.{
  Keeps, Preorder, Keeps-pure, Keeps-raise, Keeps-found, Keeps-with_metadata, Keeps-query,
  Keeps-bind,
}
use worm.Pipeline.Replay.{load_quarantined, check_digest}

abbrev pub Same : Tables → Tables → Type 0
Same t u = u ≡ t

Same-preorder : Preorder Same
Same-preorder = record { here = λ t. refl; trans = λ t u v p q. q ∙ p }

-- What a transaction returned, and the tables behind it.
pub data Settled {A : Type 0} (body : Tables → Result (A × Tables)) (t : Tables)
    : Result A → Tables → Type 0 where
  nothing : {e : Error} {u : Tables} → u ≡ t → Settled body t (err e) u
  all_of : {a : A} {u : Tables} → body t ≡ ok (a, u) → Settled body t (ok a) u

commit-Settled :
    {A : Type 0} (body : Tables → Result (A × Tables)) (db : Db) (r : Result (A × Tables))
    → body db.tables ≡ r
    → Settled body db.tables (commit db r).0 (commit db r).1.tables
unfolding commit
commit-Settled body db (ok (a, u)) q = all_of q
commit-Settled body db (err e) q = nothing refl

pub transact-Settled :
    {A : Type 0} (body : Tables → Result (A × Tables)) (db : Db)
    → Settled body db.tables (transact body db).0 (transact body db).1.tables
unfolding transact
transact-Settled body db = elim (Bool-cases (next_fault db.faults)) [
  | inl e ↦ rw e (unfold commit in nothing refl)
  | inr e ↦ rw e (commit-Settled body db (body db.tables) refl)
]

module _ ⦃lib : Library⦄ where
  check_digest-Same :
      (entry : QuarantineEntry) (raw : RawEvent) (c : Bool × Bytes)
      → Keeps Same (check_digest entry raw c)
  unfolding check_digest
  check_digest-Same entry raw (true, d) = Keeps-pure Same Same-preorder _
  check_digest-Same entry raw (false, d) = Keeps-raise Same Same-preorder _

  retrieve-Same : (id : Bytes) → Keeps Same (retrieve id)
  unfolding retrieve
  retrieve-Same id = Keeps-bind Same Same-preorder _ _ (Keeps-query Same Same-preorder _) λ row.
      Keeps-bind Same Same-preorder _ _ (Keeps-found Same Same-preorder row)
        (λ e. Keeps-with_metadata Same Same-preorder _ _ e)

  pub load_quarantined-Same : (id : Bytes) → Keeps Same (load_quarantined id)
  unfolding load_quarantined get_quarantine_by_id verify
  load_quarantined-Same id =
      Keeps-bind Same Same-preorder _ _
        (Keeps-bind Same Same-preorder _ _ (Keeps-query Same Same-preorder _)
          (Keeps-found Same Same-preorder))
        λ entry. Keeps-bind Same Same-preorder _ _ (retrieve-Same entry.raw_id) λ raw.
          Keeps-bind Same Same-preorder _ _
            (Keeps-bind Same Same-preorder _ _ (retrieve-Same entry.raw_id)
              (λ e. Keeps-pure Same Same-preorder _))
            (check_digest-Same entry raw)
