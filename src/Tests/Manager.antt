-- ===== src/Tests/Manager.antt =====
-- A directory of parser packs that gets a second pack and loses it again.
use worm.Base.{
  ends_with, true, false, ◌≡◌, refl, List, [], ◌∷◌, none, some, Bytes, codes, str_eq, str_lt, get,
  put, contains, ◌==◌,
}
use worm.Store.Action.{Result, ok}
use worm.Packs.Match.{ParserPack}
use worm.Packs.Snapshot.{Snapshot, new_snapshot}
use worm.Packs.Manager.Disk.{
  PackManifest, Disk, Fate, proceed, refuse, report, crashed, safe_filename, to_lower, PackInstall,
}
use worm.Packs.Manager.Manifest.{next_manifest_for_apply, manifest_or_empty, remember}
use worm.Packs.Manager.Recovery.Settle.{Files, at, Recovers}
use worm.Packs.Manager.Apply.{
  apply_pack_file, pending_of, undo_of, file_record, load_dir, is_expected,
}
use worm.Packs.Manager.Apply.Change.{Ends}
use worm.Packs.Manager.Apply.Atomic.{applied, next_manifest, apply_pack_file-Ends}
use worm.Packs.Manager.Apply.Torn.{torn_fates, apply_pack_file-crashed}
use worm.Packs.Manager.Rollback.{rollback_pack, record_of, read_manifest}
use worm.Packs.Manager.Rollback.Atomic.{Settles, reverted, rollback_pack-Settles}
use worm.Packs.Manager.Rollback.Reverts.{Undone, next_manifest_for_apply-Undone}
use worm.Tests.Setup.{toy_library}
use worm.Tests.Packs.{pack}

-- A pack file that holds the name of its pack.
abbrev load : Bytes → Result ParserPack
load content = ok (pack content (codes "json"))

abbrev files : Files
files = (codes "linux.yaml", codes "linux") ∷ []

abbrev web : Bytes
web = codes "web.yaml"

abbrev ninth_refused : List Fate
ninth_refused =
    proceed ∷ proceed ∷ proceed ∷ proceed ∷ proceed ∷ proceed ∷ proceed ∷ proceed ∷ refuse ∷ []

apply_pack_file-Ends_example :
    Ends
      (at files none none none)
      (applied load
        (codes "snap-1")
        web
        files
        none
        none
        (codes "web")
        (next_manifest load
          (codes "snap-1")
          web
          files
          none
          none
          (codes "web")
          (codes "custom")
          false
          (load (codes "web")))
        (codes "web"))
      (apply_pack_file load
        (codes "snap-1")
        web
        (codes "web")
        none
        (codes "custom")
        false
        (at files none none none)
        ninth_refused)
apply_pack_file-Ends_example =
    apply_pack_file-Ends load (codes "snap-1") web files none none (codes "web") none
      (codes "custom") false ninth_refused tt

abbrev installed : PackInstall
installed = record {
  name = codes "web";
  filename = web;
  version = codes "1.0.0";
  digest = toy_library.sha256_hex (codes "web");
  origin = codes "custom";
  pinned = false;
}

-- The manifest behind the apply.
abbrev with_web : PackManifest
with_web = record {
  version = 1;
  entries = (codes "web", installed) ∷ [];
  history =
      (codes "web", record { filename = web; existed = false; content = []; previous = none } ∷ [])
      ∷ [];
}

with_web_is :
    next_manifest_for_apply load none
      (codes "web")
      web
      (codes "web")
      (codes "custom")
      false
      (file_record web none)
    ≡ ok with_web
unfolding next_manifest_for_apply remember file_record str_eq put get manifest_or_empty ends_with
    to_lower
with_web_is = refl

named : str_eq web [] ≡ false
unfolding str_eq
named = refl

version_is : ((manifest_or_empty none).version == 1) ≡ true
unfolding manifest_or_empty
version_is = refl

next_manifest_for_apply-Undone_example :
    Undone (manifest_or_empty none) (codes "web") (file_record web none) with_web
next_manifest_for_apply-Undone_example =
    next_manifest_for_apply-Undone load none (codes "web") web (codes "web") (codes "custom") false
      none with_web named version_is with_web_is

abbrev both : Files
both = put web (codes "web") files

rollback_pack-Settles_example :
    Settles
      (at both none (some with_web) none)
      (reverted load
        (codes "snap-2")
        both
        none
        (some with_web)
        (record_of (codes "web") (read_manifest (some with_web))))
      (rollback_pack load
        (codes "snap-2")
        (codes "web")
        (at both none (some with_web) none)
        (proceed ∷ report ∷ []))
rollback_pack-Settles_example =
    rollback_pack-Settles load (codes "snap-2") both none (some with_web) (codes "web")
      (proceed ∷ report ∷ []) tt

abbrev two : Snapshot
two = record {
  version = codes "snap-1";
  packs =
      (codes "linux", pack (codes "linux") (codes "json"))
      ∷ (codes "web", pack (codes "web") (codes "json"))
      ∷ [];
  ordered = pack (codes "linux") (codes "json") ∷ pack (codes "web") (codes "json") ∷ [];
}

both_loaded : load_dir load (codes "snap-1") (put web (codes "web") files) ≡ ok two
unfolding load_dir put str_eq new_snapshot str_lt
both_loaded = refl

web_safe : safe_filename web ≡ true
unfolding safe_filename ends_with to_lower str_eq contains
web_safe = refl

apply_pack_file-crashed_example :
    (d : Disk) × (apply_pack_file load
        (codes "snap-1")
        web
        (codes "web")
        none
        (codes "custom")
        false
        (at files none none none)
        torn_fates
      ≡ crashed d)
    × Recovers d
        (at files (some (undo_of (file_record web none) (codes "web") none)) (some with_web) none)
unfolding file_record get str_eq pending_of is_expected
apply_pack_file-crashed_example =
    apply_pack_file-crashed load (codes "snap-1") web files none none (codes "web") none
      (codes "custom") false (pack (codes "web") (codes "json")) with_web two web_safe refl refl
      with_web_is both_loaded
