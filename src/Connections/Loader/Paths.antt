-- ===== src/Connections/Loader/Paths.antt =====
-- `LoadDir` of internal/connections/manager.go: where the connections of the directory's files are.
use worm.Base.{
  Bool, true, false, ◌≡◌, refl, sym, ◌∙◌, ap, not, List, [], ◌∷◌, Option, none, some, Bytes, get,
  get-put, str_eq, str_eq_iff, Bool-cases, inl, inr,
}
use mathlib.Core.Path.{subst}
use worm.Store.Action.{Result, ok, err}
use worm.Connections.Loader.{
  Loaded, is_manifest, taken_elsewhere, add_loaded, load_entry, load_entries,
}

module _ {Conn : Type 0} (name_of : Conn → Bytes) (load : Bytes → Result Conn)
    (join : Bytes → Bytes → Bytes) (dir : Bytes) where
  -- The connection that is read from the content stands at the path.
  abbrev pub Stands : Loaded Conn → Bytes → Result Conn → Type 0
  Stands m path (err e) = ⊥
  Stands m path (ok conn) = get (name_of conn) m.paths ≡ some path

  abbrev pub StandsIfManifest : Loaded Conn → Bytes → Bytes → Bool → Type 0
  StandsIfManifest m name content true = Stands m (join dir name) (load content)
  StandsIfManifest m name content false = Unit

  abbrev pub AllStand : Loaded Conn → List (Bytes × Bytes) → Type 0
  AllStand m [] = Unit
  AllStand m ((name, content) ∷ files) =
      StandsIfManifest m name content (is_manifest name) × AllStand m files

  abbrev OnOk : (Loaded Conn → Type 0) → Result (Loaded Conn) → Type 0
  OnOk P (ok m) = P m
  OnOk P (err e) = Unit

  same_path :
      (p path : Bytes) (o : Option Bytes)
      → o ≡ some p
      → taken_elsewhere name_of load join dir path o ≡ false
      → some path ≡ some p
  unfolding taken_elsewhere
  same_path p path none h e = cc
  same_path p path (some prior) h e = elim (Bool-cases (str_eq prior path)) [
    | inl q ↦ ap some (sym ((str_eq_iff prior path).0 q)) ∙ h
    | inr q ↦ let z : not (str_eq prior path) ≡ true = rw q refl in cc
  ]

  -- A path that is there stays.
  add_loaded_keeps :
      (k p path : Bytes) (m : Loaded Conn) (c : Result Conn)
      → get k m.paths ≡ some p
      → OnOk (λ m'. get k m'.paths ≡ some p) (add_loaded name_of load join dir path m c)
  unfolding add_loaded
  add_loaded_keeps k p path m (err e) h = tt
  add_loaded_keeps k p path m (ok conn) h =
      elim (Bool-cases (taken_elsewhere name_of load join dir path (get (name_of conn) m.paths))) [
        | inl e ↦ rw (OnOk, e) tt
        | inr e ↦
            rw (OnOk, e)
              (elim (Bool-cases (str_eq (name_of conn) k)) [
                | inr n ↦ get-put (name_of conn) k path m.paths ∙ rw n h
                | inl n ↦
                    get-put (name_of conn) k path m.paths
                    ∙ rw n (
                        same_path p path (get (name_of conn) m.paths)
                          (ap (λ x. get x m.paths) ((str_eq_iff (name_of conn) k).0 n) ∙ h) e)
              ])
      ]

  added_Stands :
      (path : Bytes) (m : Loaded Conn) (c : Result Conn)
      → OnOk (λ m'. Stands m' path c) (add_loaded name_of load join dir path m c)
  unfolding add_loaded
  added_Stands path m (err e) = tt
  added_Stands path m (ok conn) =
      elim (Bool-cases (taken_elsewhere name_of load join dir path (get (name_of conn) m.paths))) [
        | inl e ↦ rw (OnOk, e) tt
        | inr e ↦
            rw (OnOk, e)
              (get-put (name_of conn) (name_of conn) path m.paths
                ∙ rw ((str_eq_iff (name_of conn) (name_of conn)).1 refl) refl)
      ]

  both :
      (P Q : Loaded Conn → Type 0) (r : Result (Loaded Conn))
      → OnOk P r
      → OnOk Q r
      → OnOk (λ m. P m × Q m) r
  both P Q (ok m) p q = (p, q)
  both P Q (err e) p q = tt

  always : (r : Result (Loaded Conn)) → OnOk (λ m. Unit) r
  always (ok m) = tt
  always (err e) = tt

  load_entry_keeps :
      (k p name content : Bytes) (m : Loaded Conn) (b : Bool)
      → get k m.paths ≡ some p
      → OnOk (λ m'. get k m'.paths ≡ some p) (load_entry name_of load join dir name content m b)
  unfolding load_entry
  load_entry_keeps k p name content m true h =
      add_loaded_keeps k p (join dir name) m (load content) h
  load_entry_keeps k p name content m false h = h

  load_entry-Stands :
      (name content : Bytes) (m : Loaded Conn) (b : Bool)
      → OnOk
          (λ m'. StandsIfManifest m' name content b)
          (load_entry name_of load join dir name content m b)
  unfolding load_entry
  load_entry-Stands name content m true = added_Stands (join dir name) m (load content)
  load_entry-Stands name content m false = tt

  load_entries_keeps :
      (k p : Bytes) (files : List (Bytes × Bytes)) (r : Result (Loaded Conn))
      → OnOk (λ m. get k m.paths ≡ some p) r
      → OnOk (λ m. get k m.paths ≡ some p) (load_entries name_of load join dir r files)
  unfolding load_entries
  load_entries_keeps k p files (err e) h = tt
  load_entries_keeps k p [] (ok m) h = h
  load_entries_keeps k p ((name, content) ∷ files) (ok m) h =
      load_entries_keeps k p files
        (load_entry name_of load join dir name content m (is_manifest name))
        (load_entry_keeps k p name content m (is_manifest name) h)

  load_entries-Stands :
      (path : Bytes) (c : Result Conn) (files : List (Bytes × Bytes)) (r : Result (Loaded Conn))
      → OnOk (λ m. Stands m path c) r
      → OnOk (λ m. Stands m path c) (load_entries name_of load join dir r files)
  unfolding load_entries
  load_entries-Stands path c files (err e) h = tt
  load_entries-Stands path (err e) files (ok m) h = absurd h
  load_entries-Stands path (ok conn) files (ok m) h =
      load_entries_keeps (name_of conn) path files (ok m) h

  stands_later :
      (name content : Bytes) (b : Bool) (files : List (Bytes × Bytes)) (r : Result (Loaded Conn))
      → OnOk (λ m. StandsIfManifest m name content b) r
      → OnOk (λ m. StandsIfManifest m name content b) (load_entries name_of load join dir r files)
  stands_later name content true files r h =
      load_entries-Stands (join dir name) (load content) files r h
  stands_later name content false files r h = always _

  load_entries-AllStand :
      (files : List (Bytes × Bytes)) (r : Result (Loaded Conn))
      → OnOk (λ m. AllStand m files) (load_entries name_of load join dir r files)
  unfolding load_entries
  load_entries-AllStand files (err e) = tt
  load_entries-AllStand [] (ok m) = tt
  load_entries-AllStand ((name, content) ∷ files) (ok m) =
      let r = load_entry name_of load join dir name content m (is_manifest name) in
      both (λ m'. StandsIfManifest m' name content (is_manifest name)) (λ m'. AllStand m' files)
        (load_entries name_of load join dir r files)
        (stands_later name content (is_manifest name) files r
          (load_entry-Stands name content m (is_manifest name)))
        (load_entries-AllStand files r)

  -- A LoadDir that succeeds has read every file of the directory that ends in .yaml or .yml, and
  -- each of their connections stands under its name with the path of its file: no two of the files
  -- hold a connection of the same name, and none has one that was there with another path.
  pub load_entries_stand :
      (m m' : Loaded Conn) (files : List (Bytes × Bytes))
      → load_entries name_of load join dir (ok m) files ≡ ok m'
      → AllStand m' files
  load_entries_stand m m' files h =
      subst (OnOk (λ x. AllStand x files)) h (load_entries-AllStand files (ok m))
