-- ===== src/Packs/Manager/Disk.antt =====
-- The directory of packs and its folder .marketplace, as internal/packs/manager.go uses them. A
-- file is written or removed at once, by a rename or an unlink. What is written as JSON is kept as
-- the value itself. There are no symbolic links.
use worm.Base.{
  ℕ, Bool, ◌&&◌, ◌||◌, not, List, [], ◌∷◌, Option, Bytes, codes, put, del, if◌then◌else◌, str_eq,
  contains, map, leb, ends_with, ◌+◌,
}
use worm.Library.{driver}
use worm.Store.Action.{Result, ok, err}

pub record PackInstall : Type 0 where
  pub name : Bytes
  pub filename : Bytes
  pub version : Bytes
  pub digest : Bytes
  pub origin : Bytes
  pub pinned : Bool

pub record PackRevision : Type 0 where
  pub filename : Bytes
  pub existed : Bool
  pub content : Bytes
  pub previous : Option PackInstall

pub record PackManifest : Type 0 where
  pub version : ℕ
  pub entries : List (Bytes × PackInstall)
  pub history : List (Bytes × List PackRevision)

pub record RollbackRecord : Type 0 where
  pub filename : Bytes
  pub existed : Bool
  pub content : Bytes
  pub name : Bytes
  pub manifest : Option PackManifest

pub record TransactionRecord : Type 0 where
  pub before : RollbackRecord
  pub undo : Option RollbackRecord
  pub prior_undo : Option RollbackRecord
  pub prior_manifest : Option PackManifest
  pub next_manifest : Option PackManifest
  pub committed : Bool

-- The pack files by name, and the files rollback.json, manifest.json and transaction.json.
pub record Disk : Type 0 where
  pub packs : List (Bytes × Bytes)
  pub rollback : Option RollbackRecord
  pub manifest : Option PackManifest
  pub transaction : Option TransactionRecord

-- What becomes of an access to the disk: it is done, it is refused with an error, it is done and
-- an error is reported (the directory was not synchronised), or the process stops before it.
pub data Fate : Type 0 where
  proceed refuse report crash : Fate

pub data Ran (A : Type 0) : Type 0 where
  finished : A → Disk → List Fate → Ran A
  crashed : Disk → Ran A

abbrev pub Prog : Type 0 → Type 0
Prog A = Disk → List Fate → Ran A

abbrev pub pure : {A : Type 0} → A → Prog A
pure a d fs = finished a d fs

-- What runs behind a program, unless the process has stopped.
abbrev pub go_on : {A B : Type 0} → (A → Prog B) → Ran A → Ran B
go_on f (finished a d fs) = f a d fs
go_on f (crashed d) = crashed d

infixl 5 ◌>>=◌
abbrev pub ◌>>=◌ : {A B : Type 0} → Prog A → (A → Prog B) → Prog B
◌>>=◌ m f d fs = go_on f (m d fs)

-- One access. Behind the end of the fates all goes well.
unfoldable pub attempt : (Disk → Disk) → Prog (Result (Unit {0}))
attempt f d [] = finished (ok tt) (f d) []
attempt f d (proceed ∷ fs) = finished (ok tt) (f d) fs
attempt f d (refuse ∷ fs) = finished (err driver) d fs
attempt f d (report ∷ fs) = finished (err driver) (f d) fs
attempt f d (crash ∷ fs) = crashed d

abbrev pub look : Disk → Disk
look d = d

abbrev pub write_pack : Bytes → Bytes → Disk → Disk
write_pack filename content d = record d { packs = put filename content d.packs }

abbrev pub remove_pack : Bytes → Disk → Disk
remove_pack filename d = record d { packs = del filename d.packs }

-- `restoreUndo` and `restoreManifest`: nothing is left of a file where there was none.
abbrev pub set_rollback : Option RollbackRecord → Disk → Disk
set_rollback r d = record d { rollback = r }

abbrev pub set_manifest : Option PackManifest → Disk → Disk
set_manifest m d = record d { manifest = m }

abbrev pub set_transaction : Option TransactionRecord → Disk → Disk
set_transaction t d = record d { transaction = t }

-- `if err != nil { return …, err }`
abbrev pub or_return : {A B : Type 0} → (A → Prog (Result B)) → Result A → Prog (Result B)
or_return f (ok a) = f a
or_return f (err e) = pure (err e)

unfoldable pub to_lower : ℕ → ℕ
to_lower c = if leb b'A' c && leb c b'Z' then c + 32 else c

-- The checks of a file name that `beginFileTransaction` and `validateRecord` make.
unfoldable pub safe_filename : Bytes → Bool
unfolding ends_with to_lower
safe_filename f =
    not (str_eq f [])
    && not (contains f (codes "/"))
    && not (contains f (codes "\\"))
    && not (contains f (codes ".."))
    && (ends_with (map to_lower f) (codes ".yaml") || ends_with (map to_lower f) (codes ".yml"))
