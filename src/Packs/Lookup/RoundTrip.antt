-- ===== src/Packs/Lookup/RoundTrip.antt =====
-- internal/packs/pack.go and internal/normalize/normalizer.go: writes and lookups at one path.
use worm.Base.{
  List, [], ◌∷◌, ◌++◌, ◌≡◌, ◌≢◌, refl, ◌∙◌, ap, none, some, Bytes, arith, str_eq_refl, ◌==◌,
  Bool-cases, ◌⊎◌, inl, inr, length, length-append, append-nil, append_assoc, ◌<◌,
}
use worm.Model.Value.{Value, Fields, obj, lookup, insert, lookup-insert, lookup-insert_ne}
use worm.Packs.Lookup.{
  split_from, split_dots, traverse, or_traverse, lookup_nested, sub_map, set_path, set_nested_value,
}

lookup-insert_self : (k : Bytes) (v : Value) (m : Fields) → lookup k (insert k v m) ≡ some v
lookup-insert_self k v m = simp (lookup-insert, str_eq_refl)

traverse-set_path :
    (key : Bytes) (keys : List Bytes) (v : Value) (m : Fields)
    → traverse (key ∷ keys) (some (obj (set_path (key ∷ keys) v m))) ≡ some v
unfolding traverse set_path
traverse-set_path key [] v m = ap (traverse []) (lookup-insert_self key v m)
traverse-set_path key (next ∷ keys) v m =
    ap (traverse (next ∷ keys))
      (lookup-insert_self key (obj (set_path (next ∷ keys) v (sub_map (lookup key m)))) m)
    ∙ traverse-set_path next keys v (sub_map (lookup key m))

-- A path is one key, or its first key is shorter than it.
data Split (path : Bytes) : List Bytes → Type 0 where
  whole : Split path (path ∷ [])
  parted : {k : Bytes} {ks : List Bytes} → length k < length path → Split path (k ∷ ks)

split_from-Split : (s cur : Bytes) → Split (cur ++ s) (split_from cur s)
unfolding split_from
split_from-Split [] cur = rw append-nil whole
split_from-Split (c ∷ s) cur = elim (Bool-cases (c == b'.')) [
  | inl e ↦ rw (e, split_from) (parted (omega (arith, length-append cur (c ∷ s))))
  | inr e ↦ rw (e, split_from) (rw append_assoc at (split_from-Split s (cur ++ (c ∷ []))))
]

traverse-Split :
    (path : Bytes) (keys : List Bytes) (v : Value) (m : Fields)
    → Split path keys
    → traverse keys (some (obj (set_path keys v m))) ≡ some v
traverse-Split path keys v m whole = traverse-set_path path [] v m
traverse-Split path keys v m (parted {k} {ks} h) = traverse-set_path k ks v m

-- What stands under the whole path as one key: the value, if the path is one key.
lookup-Split :
    (path : Bytes) (keys : List Bytes) (v : Value) (m : Fields)
    → Split path keys
    → lookup path m ≡ none
    → (lookup path (set_path keys v m) ≡ some v) ⊎ (lookup path (set_path keys v m) ≡ none)
unfolding set_path
lookup-Split path keys v m whole h = inl (lookup-insert_self path v m)
lookup-Split path keys v m (parted {k} {ks = []} lt) h =
    inr (lookup-insert_ne k path v m (λ e. omega (arith, lt, ap length e)) ∙ h)
lookup-Split path keys v m (parted {k} {ks = n ∷ ks} lt) h =
    inr (lookup-insert_ne k path _ m (λ e. omega (arith, lt, ap length e)) ∙ h)

-- What `setNestedValue` writes at a path that is not empty, `LookupNested` finds there, unless the
-- whole path was a key of the map before.
pub lookup_nested-set_nested_value :
    (m : Fields) (path : Bytes) (v : Value)
    → path ≢ []
    → lookup path m ≡ none
    → lookup_nested (set_nested_value m path v) path ≡ some v
unfolding lookup_nested set_nested_value split_dots
lookup_nested-set_nested_value m [] v ne h = absurd (ne refl)
lookup_nested-set_nested_value m (c ∷ path) v ne h =
    let sp : Split (c ∷ path) (split_from [] (c ∷ path)) = split_from-Split (c ∷ path) [] in
    elim (lookup-Split (c ∷ path) _ v m sp h) [
      | inl e ↦ rw (e, or_traverse) refl
      | inr e ↦ rw (e, or_traverse) (traverse-Split (c ∷ path) _ v m sp)
    ]
