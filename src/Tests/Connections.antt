-- ===== src/Tests/Connections.antt =====
-- A manager with one connection, whose runtime refuses or takes a second one.
use worm.Base.{Bool, true, List, [], ◌∷◌, ◌++◌, Option, none, some, Bytes, codes}
use worm.Library.{Error, driver}
use worm.Store.Action.{Result, ok}
use worm.Connections.Manager.{Manager, Site, apply_file}
use worm.Connections.Manager.Undo.{at}

-- A connection is its name.
abbrev name_of : Bytes → Bytes
name_of c = c

abbrev kind_of : Bytes → Bytes
kind_of c = codes "Connection"

abbrev load : Bytes → Result Bytes
load content = ok content

abbrev join : Bytes → Bytes → Bytes
join dir filename = b'/' ∷ (dir ++ filename)

abbrev every : Bytes → Bool
every path = true

abbrev refuses :
    Option (List (Bytes × Bytes) → List (Bytes × Bytes) → Option Error × List (Bytes × Bytes))
refuses = some (λ cs running. (some driver, running))

abbrev takes :
    Option (List (Bytes × Bytes) → List (Bytes × Bytes) → Option Error × List (Bytes × Bytes))
takes = some (λ cs running. (none, cs))

abbrev manager : Manager Bytes
manager = record {
  dir = codes "c";
  sources_dir = [];
  sinks_dir = [];
  connections = (codes "a", codes "a") ∷ [];
  file_paths = (codes "a", codes "/ca.yaml") ∷ [];
  previous = none;
  added_file = [];
  backup_file = [];
  backup_content = none;
}

abbrev world : Site Bytes (List (Bytes × Bytes))
world = at manager ((codes "/ca.yaml", codes "a") ∷ []) [] []

abbrev refused : Result Bytes × Site Bytes (List (Bytes × Bytes))
refused = apply_file name_of kind_of load join every refuses (codes "b.yaml") (codes "b") world

abbrev taken : Result Bytes × Site Bytes (List (Bytes × Bytes))
taken = apply_file name_of kind_of load join every takes (codes "b.yaml") (codes "b") world
