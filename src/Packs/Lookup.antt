-- ===== src/Packs/Lookup.antt =====
-- `LookupNested` and `LookupField` of internal/packs/pack.go, and `setNestedValue` of
-- internal/normalize/normalizer.go: dot-separated paths through nested maps.
pub mod RoundTrip
use worm.Base.{
  ℕ, zero, suc, ◌+◌, ◌*◌, ◌-◌, Bool, true, false, ◌&&◌, List, [], ◌∷◌, ◌++◌, Option, none, some,
  ◌==◌, leb, if◌then◌else◌, Bytes, codes, str_eq, trim_prefix, atoi,
}
use worm.Model.{DecodedRecord}
use worm.Model.Value.{Value, Items, Fields, obj, arr, nil, cons, end, field, lookup, insert}

-- `strings.Split(path, ".")`: the parts behind a part that is read so far.
split_from : Bytes → Bytes → List Bytes
split_from cur [] = cur ∷ []
split_from cur (c ∷ s) = elim (c == b'.') [
  | true ↦ cur ∷ split_from [] s
  | false ↦ split_from (cur ++ (c ∷ [])) s
]

unfoldable pub split_dots : Bytes → List Bytes
unfolding split_from
split_dots path = split_from [] path

nth : Items → ℕ → Option Value
nth nil n = none
nth (cons v vs) zero = some v
nth (cons v vs) (suc n) = nth vs n

minus : Option ℕ → Option ℕ
minus (some zero) = some 0
minus _ = none

-- `strconv.Atoi` of a part, where it gives no negative number.
unfoldable pub index_of : Bytes → Option ℕ
unfolding minus atoi
index_of [] = none
index_of (c ∷ s) = if c == b'+' then atoi s else if c == b'-' then minus (atoi s) else atoi (c ∷ s)

at_index : Items → Option ℕ → Option Value
unfolding nth
at_index vs none = none
at_index vs (some n) = nth vs n

-- One step of the traversal: into a map by its key, or into a list by an index.
unfoldable pub enter : Value → Bytes → Option Value
unfolding at_index index_of
enter (obj m) part = lookup part m
enter (arr vs) part = at_index vs (index_of part)
enter _ part = none

unfoldable pub traverse : List Bytes → Option Value → Option Value
unfolding enter
traverse parts none = none
traverse [] (some v) = some v
traverse (part ∷ parts) (some v) = traverse parts (enter v part)

or_traverse : Option Value → Fields → Bytes → Option Value
unfolding traverse split_dots
or_traverse (some v) m path = some v
or_traverse none m path = traverse (split_dots path) (some (obj m))

-- A key that holds dots itself is found first. The map is never nil here.
unfoldable pub lookup_nested : Fields → Bytes → Option Value
unfolding or_traverse
lookup_nested m [] = none
lookup_nested m (c ∷ path) = or_traverse (lookup (c ∷ path) m) m (c ∷ path)

unfoldable pub or_else {ℓ} : {A : Type ℓ} → Option A → Option A → Option A
or_else none o = o
or_else (some a) o = some a

unfoldable pub lookup_field : DecodedRecord → Bytes → Option Value
unfolding lookup_nested or_else
lookup_field rec key =
    let trimmed = trim_prefix key (codes "payload.") in
    or_else (lookup_nested rec.fields key) (
      or_else (lookup_nested rec.fields trimmed)
        (or_else (lookup_nested rec.headers key) (lookup_nested rec.headers trimmed)))

-- The map that a path goes on through: the one that is there, or a new one.
unfoldable pub sub_map : Option Value → Fields
sub_map (some (obj m)) = m
sub_map _ = end

unfoldable pub set_path : List Bytes → Value → Fields → Fields
unfolding sub_map
set_path [] v m = m
set_path (key ∷ []) v m = insert key v m
set_path (key ∷ next ∷ keys) v m =
    insert key (obj (set_path (next ∷ keys) v (sub_map (lookup key m)))) m

-- `setNestedValue`; Go's write through the shared inner map is a write of the changed map here.
unfoldable pub set_nested_value : Fields → Bytes → Value → Fields
unfolding set_path split_dots
set_nested_value m path v = set_path (split_dots path) v m
