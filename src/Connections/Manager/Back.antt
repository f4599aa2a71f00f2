-- ===== src/Connections/Manager/Back.antt =====
-- internal/connections/manager.go: a `Rollback` behind an `ApplyFile`.
use worm.Base.{Bool, true, false, ◌≡◌, List, [], Option, Bytes, put, str_eq}
use worm.Library.{Error}
use worm.Store.Action.{Result, ok, err}
use worm.Connections.Manager.{Manager, Site, with_connection}
use worm.Connections.Manager.Revert.{rollback}
use worm.Connections.Manager.Undo.{Files, at, Same}

module _ {Conn Run : Type 0} (name_of kind_of : Conn → Bytes) (load : Bytes → Result Conn)
    (join : Bytes → Bytes → Bytes) (readable : Bytes → Bool)
    (all_readable : (path : Bytes) → readable path ≡ true)
    (named : (dir filename : Bytes) → str_eq (join dir filename) [] ≡ false)
    (reconcile : Option (List (Bytes × Conn) → Run → Option Error × Run)) where
  abbrev undone : Site Conn Run → Site Conn Run
  undone w = (rollback name_of kind_of load join readable reconcile w).1

  -- Where it succeeds, a rollback leads back.
  abbrev OnSuccess : Site Conn Run → Result Conn × Site Conn Run → Type 0
  OnSuccess w (ok c, w') = Same w (undone w')
  OnSuccess w (err e, w') = Unit

  module _ (conn : Conn) (content path : Bytes) (path_named : str_eq path [] ≡ false)
      (m : Manager Conn) (fs : Files) (r : Run) where
    abbrev before : Site Conn Run
    before = at m fs r []

    abbrev applied : Option Bytes → Run → Site Conn Run
    applied o r' =
        at (with_connection name_of kind_of load join readable reconcile conn path o m)
          (put path content fs) r' []
