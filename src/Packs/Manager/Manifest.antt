-- ===== src/Packs/Manager/Manifest.antt =====
-- internal/packs/manifest.go, and the manifests that internal/packs/manager.go writes next.
use worm.Base.{
  ends_with, Bool, true, false, List, [], ◌∷◌, ◌++◌, Option, none, some, Bytes, codes, get, put,
  del, str_eq, map, if◌then◌else◌, take, length, ◌-◌, not,
}
use worm.Library.{Library, invalid}
use worm.Store.Action.{Result, ok, err}
use worm.Packs.Match.{ParserPack}
use worm.Packs.Manager.Disk.{PackRevision, PackManifest, RollbackRecord, to_lower}

abbrev pub empty_manifest : PackManifest
empty_manifest = record { version = 1; entries = []; history = [] }

unfoldable pub manifest_or_empty : Option PackManifest → PackManifest
manifest_or_empty none = empty_manifest
manifest_or_empty (some m) = m

unfoldable pub revisions : Option (List PackRevision) → List PackRevision
revisions none = []
revisions (some rs) = rs

-- `m.History[name] = append(m.History[name], rev)`
unfoldable pub remember : Bytes → PackRevision → PackManifest → PackManifest
unfolding revisions
remember name rev m = record m {
  history = put name (revisions (get name m.history) ++ (rev ∷ [])) m.history;
}

-- `strings.TrimSuffix(filename, filepath.Ext(filename))`, for a name that ends in `.yaml` or `.yml`
unfoldable pub stem : Bytes → Bytes
stem f =
    if ends_with (map to_lower f) (codes ".yaml")
    then take (length f - 5) f
    else take (length f - 4) f

module _ ⦃lib : Library⦄ (load_pack : Bytes → Result ParserPack) where
  -- The revision that a replaced file leaves, if it held the same pack.
  unfoldable pub replaced :
      Bytes → RollbackRecord → PackManifest → Result ParserPack → Result PackManifest
  replaced name before m (err e) = err e
  replaced name before m (ok old) =
      if not (str_eq old.name name)
      then err (invalid (codes "pack identity differs"))
      else ok (
          remember name
            (record {
              filename = before.filename;
              existed = true;
              content = before.content;
              previous = get name m.entries;
            })
            m)

  unfoldable pub revised : Bytes → RollbackRecord → Bool → PackManifest → Result PackManifest
  unfolding replaced stem
  revised name before true m = replaced name before m (load_pack before.content)
  revised name before false m =
      if not (str_eq (stem before.filename) name)
      then err (invalid (codes "new pack filename must match pack metadata name"))
      else ok (
          remember name
            (record { filename = before.filename; existed = false; content = []; previous = none })
            m)

  unfoldable pub install :
      Bytes → Bytes → Bytes → Bytes → Bool → Result ParserPack → PackManifest → Result PackManifest
  install name filename content origin pinned (err e) m = err e
  install name filename content origin pinned (ok pack) m = ok (record m {
    entries =
        put name
          (record {
            name = name;
            filename = filename;
            version = pack.version;
            digest = lib.sha256_hex content;
            origin = origin;
            pinned = pinned;
          })
          m.entries;
  })

  unfoldable pub after_revised :
      Bytes → Bytes → Bytes → Bytes → Bool → Result PackManifest → Result PackManifest
  unfolding install
  after_revised name filename content origin pinned (err e) = err e
  after_revised name filename content origin pinned (ok m) =
      install name filename content origin pinned (load_pack content) m

  -- `nextManifestForApply`
  unfoldable pub next_manifest_for_apply :
      Option PackManifest
      → Bytes
      → Bytes
      → Bytes
      → Bytes
      → Bool
      → RollbackRecord
      → Result PackManifest
  unfolding revised after_revised manifest_or_empty
  next_manifest_for_apply prior name filename content origin pinned before =
      after_revised name filename content origin pinned
        (revised name before before.existed (manifest_or_empty prior))

-- `nextManifestForRemove`
unfoldable pub next_manifest_for_remove :
    Option PackManifest → Bytes → RollbackRecord → PackManifest
unfolding manifest_or_empty
next_manifest_for_remove prior name before =
    let m = manifest_or_empty prior in
    let remembered =
      remember name
        (record {
          filename = before.filename;
          existed = true;
          content = before.content;
          previous = get name m.entries;
        })
        m in
    record remembered { entries = del name remembered.entries }
