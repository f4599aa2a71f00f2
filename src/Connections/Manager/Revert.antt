-- ===== src/Connections/Manager/Revert.antt =====
-- `Rollback` of internal/connections/manager.go.
use worm.Base.{Bool, List, [], Option, none, some, Bytes, codes, put, del, str_eq, if◌then◌else◌}
use worm.Library.{Error, invalid}
use worm.Store.Action.{Result}
use worm.Connections.Manager.{Manager, Site, write_files, list_locked}

module _ {Conn Run : Type 0} (name_of kind_of : Conn → Bytes) (load : Bytes → Result Conn)
    (join : Bytes → Bytes → Bytes) (readable : Bytes → Bool)
    (reconcile : Option (List (Bytes × Conn) → Run → Option Error × Run)) where
  -- The file that an apply added is removed, or the one that it replaced is written back.
  unfoldable pub files_reverted : Manager Conn → Site Conn Run → Site Conn Run
  unfolding write_files
  files_reverted m w =
      let removed =
        (if str_eq m.added_file []
          then w
          else (write_files name_of kind_of load join readable reconcile (del m.added_file) w).1) in
      elim m.backup_content [
        | none ↦ removed
        | some content ↦
            if str_eq m.backup_file []
            then removed
            else (write_files name_of kind_of load join readable reconcile
                (put m.backup_file content) removed).1
      ]

  unfoldable pub backup_after : Manager Conn → Option Bytes → Bytes × Option Bytes
  backup_after m none = (m.backup_file, none)
  backup_after m (some content) =
      if str_eq m.backup_file [] then (m.backup_file, some content) else ([], none)

  unfoldable pub notified :
      Option (List (Bytes × Conn) → Run → Option Error × Run)
      → Site Conn Run
      → Option Error × Site Conn Run
  unfolding list_locked
  notified none w = (none, w)
  notified (some change) w =
      let answer =
        change (list_locked name_of kind_of load join readable reconcile w.manager.connections)
          w.runtime in
      (answer.0, record w { runtime = answer.1 })

  unfoldable pub rolled_back_to :
      Option (List (Bytes × Conn) × List (Bytes × Bytes))
      → Site Conn Run
      → Option Error × Site Conn Run
  unfolding files_reverted backup_after notified
  rolled_back_to none w =
      (some (invalid (codes "no previous connection state available to rollback")), w)
  rolled_back_to (some old) w =
      let files_back = files_reverted w.manager w in
      let backup = backup_after w.manager w.manager.backup_content in
      notified reconcile (record files_back {
        manager = record w.manager {
          connections = old.0;
          file_paths = old.1;
          previous = none;
          added_file = [];
          backup_file = backup.0;
          backup_content = backup.1;
        };
      })

  -- `Rollback`; the error of the runtime, if there is one.
  unfoldable pub rollback : Site Conn Run → Option Error × Site Conn Run
  unfolding rolled_back_to
  rollback w = rolled_back_to w.manager.previous w
