-- ===== src/Packs/Manager/Rollback/Reverts.antt =====
-- `nextManifestForApply` and the record that `RollbackPack` takes from the manifest, of
-- internal/packs/manager.go.
use worm.Base.{
  Bool, true, false, ◌≡◌, refl, ap, sym, ◌∙◌, List, [], ◌∷◌, ◌++◌, Option, none, some, Bytes, get,
  put, del, get-put, get-del, str_eq, str_eq_iff, ◌==◌, Bool-cases, inl, inr,
}
use mathlib.Core.Path.{subst}
use worm.Library.{Library}
use worm.Store.Action.{Result, ok, err}
use worm.Packs.Match.{ParserPack}
use worm.Packs.Manager.Disk.{PackInstall, PackRevision, PackManifest, RollbackRecord}
use worm.Packs.Manager.Manifest.{
  next_manifest_for_apply, manifest_or_empty, remember, revisions, revised, replaced, after_revised,
  install, stem,
}
use worm.Packs.Manager.Apply.{file_record}
use worm.Packs.Manager.Rollback.{
  read_manifest, last_revision, record_of, revision_record, entries_before,
}

abbrev OnOk : {A : Type 0} → (A → Type 0) → Result A → Type 0
OnOk P (ok a) = P a
OnOk P (err e) = Unit

last_revision_append :
    (rs : List PackRevision) (r : PackRevision) → last_revision (rs ++ (r ∷ [])) ≡ some (rs, r)
unfolding last_revision
last_revision_append [] r = refl
last_revision_append (x ∷ rs) r = rw (last_revision_append rs r) refl

-- The entries before a change: those of a pack that had no file are gone.
abbrev entries_left : Bool → Bytes → PackManifest → List (Bytes × PackInstall)
entries_left true name m = m.entries
entries_left false name m = del name m.entries

-- The record that undoes the last change of a pack: the file and the manifest before it.
pub record Undone (m : PackManifest) (name : Bytes) (before : RollbackRecord) (n : PackManifest)
    : Type 0 where
  pub back : PackManifest
  pub taken :
      record_of name (read_manifest (some n))
      ≡ ok (record before { name = name; manifest = some back })
  pub version : back.version ≡ m.version
  pub history : (k : Bytes) → revisions (get k back.history) ≡ revisions (get k m.history)
  pub entries : (k : Bytes) → get k back.entries ≡ get k (entries_left before.existed name m)

abbrev revision : RollbackRecord → Option PackInstall → PackRevision
revision before previous = record {
  filename = before.filename;
  existed = before.existed;
  content = before.content;
  previous = previous;
}

module _ (name : Bytes) (m : PackManifest) (inst : PackInstall) where
  same_entries :
      (k : Bytes) (o : Option PackInstall)
      → get name m.entries ≡ o
      → get k (entries_before name o (put name inst m.entries)) ≡ get k m.entries
  unfolding entries_before
  same_entries k none h = elim (Bool-cases (str_eq name k)) [
    | inl e ↦ get-del name k _ ∙ rw e (sym h ∙ ap (λ x. get x m.entries) ((str_eq_iff name k).0 e))
    | inr e ↦ get-del name k _ ∙ rw e (get-put name k inst m.entries ∙ rw e refl)
  ]
  same_entries k (some x) h = elim (Bool-cases (str_eq name k)) [
    | inl e ↦
        get-put name k x _ ∙ rw e (sym h ∙ ap (λ x. get x m.entries) ((str_eq_iff name k).0 e))
    | inr e ↦ get-put name k x _ ∙ rw e (get-put name k inst m.entries ∙ rw e refl)
  ]

  -- The manifest with one revision more.
  abbrev next : PackRevision → PackManifest
  next rev = record (remember name rev m) { entries = put name inst m.entries }

  abbrev back : PackRevision → PackManifest
  back rev = record (next rev) {
    history = put name (revisions (get name m.history)) (next rev).history;
    entries = entries_before name rev.previous (put name inst m.entries);
  }

  same_history :
      (rev : PackRevision) (k : Bytes)
      → revisions (get k (back rev).history) ≡ revisions (get k m.history)
  unfolding remember revisions
  same_history rev k = elim (Bool-cases (str_eq name k)) [
    | inl e ↦
        rw (get-put name k (revisions (get name m.history)) (next rev).history, e)
          (ap (λ x. revisions (get x m.history)) ((str_eq_iff name k).0 e))
    | inr e ↦
        rw
          (
            get-put name k (revisions (get name m.history)) (next rev).history,
            e,
            get-put name k (revisions (get name m.history) ++ (rev ∷ [])) m.history,
            e,
          )
          refl
  ]

  taken :
      (rev : PackRevision)
      → (m.version == 1) ≡ true
      → str_eq rev.filename [] ≡ false
      → record_of name (read_manifest (some (next rev)))
        ≡ ok (record {
          filename = rev.filename;
          existed = rev.existed;
          content = rev.content;
          name = name;
          manifest = some (back rev);
        })
  unfolding record_of read_manifest remember revision_record revisions
  taken rev v f =
      rw
        (
          v,
          get-put name name (revisions (get name m.history) ++ (rev ∷ [])) m.history,
          (str_eq_iff name name).1 refl,
          last_revision_append (revisions (get name m.history)) rev,
          f,
        )
        refl

  same_removed :
      (k : Bytes)
      → get k (entries_before name none (put name inst m.entries)) ≡ get k (del name m.entries)
  unfolding entries_before
  same_removed k = elim (Bool-cases (str_eq name k)) [
    | inl e ↦ get-del name k _ ∙ rw e (sym (get-del name k m.entries ∙ rw e refl))
    | inr e ↦
        get-del name k _
        ∙ rw e (get-put name k inst m.entries ∙ rw e (sym (get-del name k m.entries ∙ rw e refl)))
  ]

  undone :
      (before : RollbackRecord) (previous : Option PackInstall)
      → (m.version == 1) ≡ true
      → str_eq before.filename [] ≡ false
      → ((k : Bytes)
          → get k (entries_before name previous (put name inst m.entries))
            ≡ get k (entries_left before.existed name m))
      → Undone m name before (next (revision before previous))
  unfolding remember
  undone before previous v f h = record {
    back = back (revision before previous);
    taken = taken (revision before previous) v f;
    version = refl;
    history = same_history (revision before previous);
    entries = h;
  }

module _ ⦃lib : Library⦄ (load_pack : Bytes → Result ParserPack) (name f content origin : Bytes)
    (pinned : Bool) (m : PackManifest) (v : (m.version == 1) ≡ true)
    (named : str_eq f [] ≡ false) where
  installed :
      (before : RollbackRecord) (previous : Option PackInstall) (pack : Result ParserPack)
      → str_eq before.filename [] ≡ false
      → ((inst : PackInstall) (k : Bytes)
          → get k (entries_before name previous (put name inst m.entries))
            ≡ get k (entries_left before.existed name m))
      → OnOk (Undone m name before) (
          install load_pack name f content origin pinned pack
            (remember name (revision before previous) m))
  unfolding install remember
  installed before previous (err e) i h = tt
  installed before previous (ok pack) i h = undone name m _ before previous v i (h _)

  replaced-Undone :
      (c : Bytes) (old : Result ParserPack)
      → OnOk (Undone m name (file_record f (some c))) (
          after_revised load_pack name f content origin pinned
            (replaced load_pack name (file_record f (some c)) m old))
  unfolding after_revised replaced file_record
  replaced-Undone c (err e) = tt
  replaced-Undone c (ok old) = elim (Bool-cases (str_eq old.name name)) [
    | inr e ↦ rw e tt
    | inl e ↦ rw e (
        installed (file_record f (some c)) (get name m.entries) (load_pack content) named
          (λ inst k. same_entries name m inst k (get name m.entries) refl))
  ]

  revised-Undone :
      (o : Option Bytes)
      → OnOk (Undone m name (file_record f o)) (
          after_revised load_pack name f content origin pinned
            (revised load_pack name (file_record f o) (file_record f o).existed m))
  unfolding after_revised revised file_record
  revised-Undone none = elim (Bool-cases (str_eq (stem f) name)) [
    | inr e ↦ rw e tt
    | inl e ↦
        rw e (installed (file_record f none) none (load_pack content) named (same_removed name m))
  ]
  revised-Undone (some c) = replaced-Undone c (load_pack c)

-- The manifest that an apply writes lets `RollbackPack` undo it: for a manifest of version 1 and a
-- file name that is not empty, the record that it takes for the pack is the pack file as it was
-- before the apply, with a manifest of the same version that has for every pack the revisions it
-- had before, and the entries too, less that of the pack where there was no file.
pub next_manifest_for_apply-Undone :
    ⦃lib : Library⦄ (load_pack : Bytes → Result ParserPack) (prior : Option PackManifest)
    (name f content origin : Bytes) (pinned : Bool) (o : Option Bytes) (n : PackManifest)
    → str_eq f [] ≡ false
    → ((manifest_or_empty prior).version == 1) ≡ true
    → next_manifest_for_apply load_pack prior name f content origin pinned (file_record f o) ≡ ok n
    → Undone (manifest_or_empty prior) name (file_record f o) n
unfolding next_manifest_for_apply
next_manifest_for_apply-Undone load_pack prior name f content origin pinned o n named v h =
    subst (OnOk (Undone (manifest_or_empty prior) name (file_record f o))) h
      (revised-Undone load_pack name f content origin pinned (manifest_or_empty prior) v named o)
