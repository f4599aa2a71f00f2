-- ===== src/Store/Keeps.antt =====
-- Relations between the tables before and after an action, one rule for each way to build one.
use worm.Model.{RawEvent, ReceiveMetadata}
use worm.Base.{ℕ, Bool, true, false, ◌≡◌, refl, Option, none, some, if◌then◌else◌}
use worm.Library.{Error}
use worm.Store.Action.{
  Result, ok, err, Tables, Db, Action, pure, raise, commit, after, ◌>>=◌, transact, query,
  next_fault,
}
use worm.Store.Raw.{found, with_metadata}

pub record Preorder (R : Tables → Tables → Type 0) : Type 0 where
  pub here : (t : Tables) → R t t
  pub trans : (t u v : Tables) → R t u → R u v → R t v

module _ (R : Tables → Tables → Type 0) where
  -- The action relates the tables, whether it succeeds or fails.
  pub record Keeps {A : Type 0} (m : Action A) : Type 0 where
    pub at : (db : Db) → R db.tables (m db).1.tables

-- A transaction that is refused, or whose tables are related to those before.
pub data Within (R : Tables → Tables → Type 0) {A : Type 0} (t : Tables)
    : Result (A × Tables) → Type 0 where
  committed : {a : A} {u : Tables} → R t u → Within R t (ok (a, u))
  refused : {e : Error} → Within R t (err e)

module _ (R : Tables → Tables → Type 0) where
  pub Within-if :
      {A : Type 0} (t : Tables) (b : Bool) (x y : Result (A × Tables))
      → Within R t x
      → Within R t y
      → Within R t (if b then x else y)
  Within-if t true x y h k = h
  Within-if t false x y h k = k

  pub Related-if : (t : Tables) (b : Bool) (x y : Tables) → R t x → R t y → R t (if b then x else y)
  Related-if t true x y h k = h
  Related-if t false x y h k = k

module _ (R : Tables → Tables → Type 0) (p : Preorder R) where
  pub Keeps-with_metadata :
      (o : Option ReceiveMetadata) (at : ℕ) (e : RawEvent) → Keeps R (with_metadata o at e)
  unfolding with_metadata
  Keeps-with_metadata none at e = record { at = λ db. p.here db.tables }
  Keeps-with_metadata (some m) at e = record { at = λ db. p.here db.tables }

module _ (R : Tables → Tables → Type 0) (p : Preorder R) {A : Type 0} where
  pub Keeps-pure : (a : A) → Keeps R (pure a)
  Keeps-pure a = record { at = λ db. p.here db.tables }

  pub Keeps-raise : (e : Error) → Keeps R (raise {A = A} e)
  Keeps-raise e = record { at = λ db. p.here db.tables }

  pub Keeps-found : (o : Option A) → Keeps R (found o)
  unfolding found
  Keeps-found none = record { at = λ db. p.here db.tables }
  Keeps-found (some a) = record { at = λ db. p.here db.tables }

  commit-lem :
      (db : Db) (r : Result (A × Tables))
      → Within R db.tables r
      → R db.tables (commit db r).1.tables
  unfolding commit
  commit-lem db r (committed h) = h
  commit-lem db r refused = p.here db.tables

  transact-lem :
      (body : Tables → Result (A × Tables)) (db : Db) (b : Bool)
      → next_fault db.faults ≡ b
      → Within R db.tables (body db.tables)
      → R db.tables (transact body db).1.tables
  unfolding transact
  transact-lem body db true e h = rw e (p.here db.tables)
  transact-lem body db false e h = rw e (commit-lem db (body db.tables) h)

  pub Keeps-transact :
      (body : Tables → Result (A × Tables))
      → ((t : Tables) → Within R t (body t))
      → Keeps R (transact body)
  Keeps-transact body h = record {
    at = λ db. transact-lem body db (next_fault db.faults) refl (h db.tables);
  }

  pub Keeps-query : (f : Tables → A) → Keeps R (query f)
  unfolding query
  Keeps-query f = Keeps-transact _ (λ t. committed (p.here t))

  pub Keeps-if : (b : Bool) (m n : Action A) → Keeps R m → Keeps R n → Keeps R (if b then m else n)
  Keeps-if true m n h k = h
  Keeps-if false m n h k = k

module _ (R : Tables → Tables → Type 0) (p : Preorder R) {A B : Type 0} where
  after-lem :
      (f : A → Action B)
      → ((a : A) → Keeps R (f a))
      → (r : Result A) (db : Db) → R db.tables (after f r db).1.tables
  unfolding after
  after-lem f h (ok a) db = (h a).at db
  after-lem f h (err e) db = p.here db.tables

  pub Keeps-bind :
      (m : Action A) (f : A → Action B) → Keeps R m → ((a : A) → Keeps R (f a)) → Keeps R (m >>= f)
  unfolding ◌>>=◌
  Keeps-bind m f h k = record {
    at = λ db. p.trans _ _ _ (h.at db) (after-lem f k (m db).0 (m db).1);
  }
