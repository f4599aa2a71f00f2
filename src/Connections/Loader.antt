-- ===== src/Connections/Loader.antt =====
-- `LoadDir` of internal/connections/manager.go, over the files of a directory in the order of its
-- listing. `load` is LoadConnection and `join` filepath.Join; the files are read without an error.
-- What an error leaves of the files before it is not kept.
pub mod Paths
use worm.Base.{
  Bool, true, false, ◌&&◌, ◌||◌, not, List, [], ◌∷◌, Option, none, some, Bytes, codes, get, put,
  str_eq, ends_with, if◌then◌else◌,
}
use worm.Library.{Error, invalid}
use worm.Store.Action.{Result, ok, err}

-- The maps `connections` and `filePaths`.
pub record Loaded (Conn : Type 0) : Type 0 where
  pub active : List (Bytes × Conn)
  pub paths : List (Bytes × Bytes)

unfoldable pub is_manifest : Bytes → Bool
is_manifest name = ends_with name (codes ".yaml") || ends_with name (codes ".yml")

module _ {Conn : Type 0} (name_of : Conn → Bytes) (load : Bytes → Result Conn)
    (join : Bytes → Bytes → Bytes) (dir : Bytes) where
  unfoldable pub taken_elsewhere : Bytes → Option Bytes → Bool
  taken_elsewhere path none = false
  taken_elsewhere path (some prior) = not (str_eq prior path)

  unfoldable pub add_loaded : Bytes → Loaded Conn → Result Conn → Result (Loaded Conn)
  add_loaded path m (err e) = err e
  add_loaded path m (ok conn) =
      if taken_elsewhere path (get (name_of conn) m.paths)
      then err (invalid (codes "duplicate connection identity"))
      else ok (record {
        active = put (name_of conn) conn m.active;
        paths = put (name_of conn) path m.paths;
      })

  -- One file; the flag is `is_manifest`.
  unfoldable pub load_entry : Bytes → Bytes → Loaded Conn → Bool → Result (Loaded Conn)
  unfolding add_loaded
  load_entry name content m true = add_loaded (join dir name) m (load content)
  load_entry name content m false = ok m

  -- The loop over the files.
  unfoldable pub load_entries : Result (Loaded Conn) → List (Bytes × Bytes) → Result (Loaded Conn)
  unfolding load_entry
  load_entries (err e) files = err e
  load_entries (ok m) [] = ok m
  load_entries (ok m) ((name, content) ∷ files) =
      load_entries (load_entry name content m (is_manifest name)) files
