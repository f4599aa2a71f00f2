-- ===== src/Store/Committed.antt =====
-- internal/rawstore/store.go: what a transaction leaves where its commit succeeds.
use worm.Base.{Bool, true, false, if◌then◌else◌, Bool-cases, inl, inr}
use worm.Library.{Error, driver}
use worm.Store.Action.{Result, ok, err, Tables, Db, next_fault, commit, transact}

-- What holds of a result and the tables where there is no error.
abbrev pub Post : {A : Type 0} → (A → Tables → Type 0) → Result (A × Tables) → Type 0
Post Q (ok (a, t)) = Q a t
Post Q (err e) = Unit

abbrev pub PostDb : {A : Type 0} → (A → Tables → Type 0) → Result A × Db → Type 0
PostDb Q (ok a, db) = Q a db.tables
PostDb Q (err e, db) = Unit

pub Post-map :
    {A : Type 0} (Q Q' : A → Tables → Type 0)
    → ((a : A) (t : Tables) → Q a t → Q' a t)
    → (r : Result (A × Tables)) → Post Q r
    → Post Q' r
Post-map Q Q' f (ok (a, t)) h = f a t h
Post-map Q Q' f (err e) h = tt

pub guarded-Post :
    {A : Type 0} (Q : A → Tables → Type 0) (b : Bool) (x : A × Tables) (e : Error)
    → Q x.0 x.1
    → Post Q (if b then ok x else err e)
guarded-Post Q true x e h = h
guarded-Post Q false x e h = tt

commit-PostDb :
    {A : Type 0} (Q : A → Tables → Type 0) (db : Db) (r : Result (A × Tables))
    → Post Q r
    → PostDb Q (commit db r)
unfolding commit
commit-PostDb Q db (ok (a, t)) h = h
commit-PostDb Q db (err e) h = tt

pub transact-PostDb :
    {A : Type 0} (Q : A → Tables → Type 0) (body : Tables → Result (A × Tables)) (db : Db)
    → Post Q (body db.tables)
    → PostDb Q (transact body db)
unfolding transact
transact-PostDb Q body db h = elim (Bool-cases (next_fault db.faults)) [
  | inl e ↦ rw (transact, e) (commit-PostDb Q db (err driver) tt)
  | inr e ↦ rw (transact, e) (commit-PostDb Q db (body db.tables) h)
]
