-- ===== src/Connections/Manager/Undo.antt =====
-- internal/connections/manager.go: an `ApplyFile` that fails, and a `Rollback` behind one that does
-- not.
use worm.Base.{
  Bool, ◌≡◌, refl, sym, ◌∙◌, ap, List, Option, none, some, Bytes, get, put, get-put, get-del,
  str_eq, str_eq_iff, Bool-cases, inl, inr,
}
use worm.Library.{Error}
use worm.Store.Action.{Result, ok, err}
use worm.Connections.Manager.{Manager, Site, put_back, commit_file}

abbrev pub Files : Type 0
Files = List (Bytes × Bytes)

module _ {Conn Run : Type 0} where
  abbrev pub at : Manager Conn → Files → Run → List Bool → Site Conn Run
  at m fs r bs = record { manager = m; files = fs; runtime = r; faults = bs }

  -- The same connections, their paths, and the files.
  pub record Same (w w' : Site Conn Run) : Type 0 where
    pub connections_are : w'.manager.connections ≡ w.manager.connections
    pub paths_are : w'.manager.file_paths ≡ w.manager.file_paths
    pub files_are : (k : Bytes) → get k w'.files ≡ get k w.files

  abbrev pub OnError : Site Conn Run → Result Conn × Site Conn Run → Type 0
  OnError w (ok c, w') = Unit
  OnError w (err e, w') = Same w w'

-- What was at a path is put back.
pub put_back-put :
    (path content : Bytes) (fs : Files) (o : Option Bytes) (k : Bytes)
    → get path fs ≡ o
    → get k (put_back path o (put path content fs)) ≡ get k fs
unfolding put_back
put_back-put path content fs none k h = elim (Bool-cases (str_eq path k)) [
  | inl e ↦ get-del path k _ ∙ rw e (sym h ∙ ap (λ x. get x fs) ((str_eq_iff path k).0 e))
  | inr e ↦ get-del path k _ ∙ rw e (get-put path k content fs ∙ rw e refl)
]
put_back-put path content fs (some c) k h = elim (Bool-cases (str_eq path k)) [
  | inl e ↦ get-put path k c _ ∙ rw e (sym h ∙ ap (λ x. get x fs) ((str_eq_iff path k).0 e))
  | inr e ↦ get-put path k c _ ∙ rw e (get-put path k content fs ∙ rw e refl)
]

module _ {Conn Run : Type 0} (name_of kind_of : Conn → Bytes) (load : Bytes → Result Conn)
    (join : Bytes → Bytes → Bytes) (readable : Bytes → Bool)
    (reconcile : Option (List (Bytes × Conn) → Run → Option Error × Run)) where
  module _ (conn : Conn) (content path : Bytes) (m : Manager Conn) (fs : Files) (r : Run)
      (bs : List Bool) where
    abbrev before : Site Conn Run
    before = at m fs r bs

  module _ (conn : Conn) (content path : Bytes) (m : Manager Conn) (fs : Files) (r : Run) where
    abbrev file_committed : List Bool → Result Conn × Site Conn Run
    file_committed bs =
        commit_file name_of kind_of load join readable reconcile conn content path (get path fs)
          (at m fs r bs)
