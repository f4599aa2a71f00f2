-- ===== src/Connections/Manager.antt =====
-- `ApplyFile` and `Rollback` of internal/connections/manager.go. A connection is a value with a name
-- and a kind; `load` is LoadConnection, `join` filepath.Join, and `reconcile` the callback that
-- SetReconciler installs, over a runtime of any type. Failures of writes to the disk are an input, and
-- `readable` says whether the file at a path can be read. A staging file that a failed write leaves
-- behind is not among the files.
pub mod Revert
pub mod Undo
pub mod Back
use worm.Base.{
  Bool, true, false, ◌&&◌, ◌||◌, not, List, [], ◌∷◌, Option, none, some, Bytes, codes, get, put,
  del, str_eq, str_lt, contains, if◌then◌else◌,
}
use worm.Library.{Error, driver, invalid}
use worm.Store.Action.{Result, ok, err}

-- `Manager`; the saved state is one of connections and paths, and a nil slice is `none`.
pub record Manager (Conn : Type 0) : Type 0 where
  pub dir : Bytes
  pub sources_dir : Bytes
  pub sinks_dir : Bytes
  pub connections : List (Bytes × Conn)
  pub file_paths : List (Bytes × Bytes)
  pub previous : Option (List (Bytes × Conn) × List (Bytes × Bytes))
  pub added_file : Bytes
  pub backup_file : Bytes
  pub backup_content : Option Bytes

-- The manager, the files by their paths, the runtime, and which of the next writes fail.
pub record Site (Conn Run : Type 0) : Type 0 where
  pub manager : Manager Conn
  pub files : List (Bytes × Bytes)
  pub runtime : Run
  pub faults : List Bool

-- The files with what was at a path, or without it.
unfoldable pub put_back : Bytes → Option Bytes → List (Bytes × Bytes) → List (Bytes × Bytes)
put_back path none files = del path files
put_back path (some content) files = put path content files

module _ {Conn Run : Type 0} (name_of kind_of : Conn → Bytes) (load : Bytes → Result Conn)
    (join : Bytes → Bytes → Bytes) (readable : Bytes → Bool)
    (reconcile : Option (List (Bytes × Conn) → Run → Option Error × Run)) where
  -- `sort.Slice` by name
  place_connection : Bytes × Conn → List (Bytes × Conn) → List (Bytes × Conn)
  place_connection c [] = c ∷ []
  place_connection c (d ∷ ds) =
      let later = d ∷ place_connection c ds in if str_lt d.0 c.0 then later else c ∷ d ∷ ds

  unfoldable pub list_locked : List (Bytes × Conn) → List (Bytes × Conn)
  unfolding place_connection
  list_locked [] = []
  list_locked (c ∷ cs) = place_connection c (list_locked cs)

  written :
      List Bool
      → (List (Bytes × Bytes) → List (Bytes × Bytes))
      → Site Conn Run
      → Bool × Site Conn Run
  written [] f w = (true, record w { files = f w.files })
  written (true ∷ bs) f w = (false, record w { faults = bs })
  written (false ∷ bs) f w = (true, record w { files = f w.files; faults = bs })

  -- A write to the disk, and whether it is done.
  unfoldable pub write_files :
      (List (Bytes × Bytes) → List (Bytes × Bytes)) → Site Conn Run → Bool × Site Conn Run
  unfolding written
  write_files f w = written w.faults f w

  answered :
      Error
      → List (Bytes × Conn) × List (Bytes × Bytes)
      → Site Conn Run
      → Option Error × Run
      → Result Conn × Site Conn Run
  answered e old w (none, runtime) = (err e, record w { runtime = runtime })
  answered e old w (some e', runtime) = (err e', record w { runtime = runtime })

  -- The runtime has refused the change. An error of the write is dropped.
  unfoldable pub undo_apply :
      Error
      → Bytes
      → Option Bytes
      → List (Bytes × Conn)
      → List (Bytes × Bytes)
      → (List (Bytes × Conn) → Run → Option Error × Run)
      → Site Conn Run
      → Result Conn × Site Conn Run
  unfolding write_files put_back answered list_locked
  undo_apply e path existing connections paths change w₀ =
      let w = (write_files (put_back path existing) w₀).1 in
      let undone = record w {
        manager = record w.manager {
          connections = connections;
          file_paths = paths;
          previous = none;
        };
      } in
      answered e (connections, paths) undone (change (list_locked connections) undone.runtime)

  reconciled :
      Conn
      → Bytes
      → Option Bytes
      → Manager Conn
      → (List (Bytes × Conn) → Run → Option Error × Run)
      → Site Conn Run
      → Option Error × Run
      → Result Conn × Site Conn Run
  unfolding undo_apply
  reconciled conn path existing old change w (none, runtime) =
      (ok conn, record w { runtime = runtime })
  reconciled conn path existing old change w (some e, runtime) =
      undo_apply e path existing old.connections old.file_paths change
        (record w { runtime = runtime })

  reconcile_with :
      Conn
      → Bytes
      → Option Bytes
      → Manager Conn
      → Option (List (Bytes × Conn) → Run → Option Error × Run)
      → Site Conn Run
      → Result Conn × Site Conn Run
  unfolding reconciled list_locked
  reconcile_with conn path existing old none w = (ok conn, w)
  reconcile_with conn path existing old (some change) w =
      reconciled conn path existing old change w
        (change (list_locked w.manager.connections) w.runtime)

  -- The name of the connection that was in the file, if it can be read and is another one.
  replaced_name : Conn → Result Conn → Option Bytes
  replaced_name conn (err e) = none
  replaced_name conn (ok c) =
      if not (str_eq (name_of c) []) && not (str_eq (name_of c) (name_of conn))
      then some (name_of c)
      else none

  replaced_in : Conn → Option Bytes → Option Bytes
  unfolding replaced_name
  replaced_in conn none = none
  replaced_in conn (some content) = replaced_name conn (load content)

  without : {A : Type 0} → Option Bytes → List (Bytes × A) → List (Bytes × A)
  without none m = m
  without (some name) m = del name m

  saved_added : Bytes → Option Bytes → Bytes
  saved_added path none = path
  saved_added path (some content) = []

  saved_backup : Bytes → Option Bytes → Bytes
  saved_backup path none = []
  saved_backup path (some content) = path

  -- The manager with the new connection, and what it replaces saved.
  unfoldable pub with_connection : Conn → Bytes → Option Bytes → Manager Conn → Manager Conn
  unfolding replaced_in without saved_added saved_backup
  with_connection conn path existing m = record m {
    connections = put (name_of conn) conn (without (replaced_in conn existing) m.connections);
    file_paths = put (name_of conn) path (without (replaced_in conn existing) m.file_paths);
    previous = some (m.connections, m.file_paths);
    added_file = saved_added path existing;
    backup_file = saved_backup path existing;
    backup_content = existing;
  }

  -- The directory is made and the staging file written, which leaves the files of the model, and then
  -- renamed.
  unfoldable pub commit_file :
      Conn → Bytes → Bytes → Option Bytes → Site Conn Run → Result Conn × Site Conn Run
  unfolding write_files reconcile_with with_connection
  commit_file conn content path existing w =
      let made = write_files (λ files. files) w in
      let staged = write_files (λ files. files) made.1 in
      let renamed = write_files (put path content) staged.1 in
      if not made.0
      then (err driver, made.1)
      else if not staged.0
      then (err driver, staged.1)
      else if not renamed.0
      then (err driver, renamed.1)
      else reconcile_with conn path existing w.manager reconcile
          (record renamed.1 { manager = with_connection conn path existing w.manager })

  clashes : Option Bytes → Bytes → Bool
  clashes none path = false
  clashes (some prior) path = not (str_eq prior path)

  target_dir : Bytes → Manager Conn → Bytes
  target_dir kind m =
      if str_eq kind (codes "Source") && not (str_eq m.sources_dir [])
      then m.sources_dir
      else if str_eq kind (codes "Sink") && not (str_eq m.sinks_dir [])
      then m.sinks_dir
      else m.dir

  -- Any error of `os.ReadFile` counts as a file that is not there.
  read_target : Bytes → List (Bytes × Bytes) → Option Bytes
  read_target path files = if readable path then get path files else none

  apply_at_path : Conn → Bytes → Bytes → Site Conn Run → Result Conn × Site Conn Run
  unfolding commit_file clashes read_target
  apply_at_path conn content path w =
      if clashes (get (name_of conn) w.manager.file_paths) path
      then (err (invalid (codes "duplicate connection identity")), w)
      else commit_file conn content path (read_target path w.files) w

  apply_loaded : Bytes → Bytes → Result Conn → Site Conn Run → Result Conn × Site Conn Run
  unfolding apply_at_path target_dir
  apply_loaded filename content (err e) w = (err e, w)
  apply_loaded filename content (ok conn) w =
      if str_eq (target_dir (kind_of conn) w.manager) []
      then (err (invalid (codes "connection directory not configured")), w)
      else if contains filename (codes "/")
          || contains filename (codes "\\")
          || contains filename (codes "..")
      then (err (invalid (codes "invalid filename")), w)
      else apply_at_path conn content (join (target_dir (kind_of conn) w.manager) filename) w

  -- `ApplyFile`
  unfoldable pub apply_file : Bytes → Bytes → Site Conn Run → Result Conn × Site Conn Run
  unfolding apply_loaded
  apply_file filename content w = apply_loaded filename content (load content) w
