-- ===== src/Packs/Snapshot.antt =====
-- internal/packs/snapshot.go: the packs that are active together, and which of them a record
-- matches. The digest is not modelled.
pub mod Unique
use worm.Base.{
  Bool, true, false, ◌||◌, List, [], ◌∷◌, ◌++◌, Option, none, some, if◌then◌else◌, Bytes, str_eq,
  keep_where, find_where, map,
}
use worm.Library.{Library}
use worm.Model.{DecodedRecord}
use worm.Packs.Match.{ParserPack, matches}

-- `ordered` and the map `packs`, which is a list of its entries.
pub record Snapshot : Type 0 where
  pub version : Bytes
  pub packs : List (Bytes × ParserPack)
  pub ordered : List ParserPack

abbrev pub has_name : Bytes → ParserPack → Bool
has_name n p = str_eq p.name n

-- `_, exists := packMap[name]`
unfoldable pub exists_name : Bytes → List ParserPack → Bool
exists_name n [] = false
exists_name n (p ∷ ps) = str_eq p.name n || exists_name n ps

-- A missing pack is nil in the source.
pub data Built : Type 0 where
  built : Snapshot → Built
  nil_pack : Built
  duplicate_name : Bytes → Built

entries : List ParserPack → List (Bytes × ParserPack)
entries [] = []
entries (p ∷ ps) = (p.name, p) ∷ entries ps

-- The loop of `NewSnapshot`; `ordered` holds the packs that were read.
unfoldable pub build : Bytes → List ParserPack → List (Option ParserPack) → Built
unfolding exists_name entries
build version ordered [] =
    built (record { version = version; packs = entries ordered; ordered = ordered })
build version ordered (none ∷ rest) = nil_pack
build version ordered (some p ∷ rest) =
    let more = build version (ordered ++ (p ∷ [])) rest in
    if exists_name p.name ordered then duplicate_name p.name else more

unfoldable pub new_snapshot : Bytes → List (Option ParserPack) → Built
unfolding build
new_snapshot version packs = build version [] packs

pub data Match : Type 0 where
  no_match : Match
  ambiguous : List Bytes → Match
  matched : ParserPack → Match

choose : List ParserPack → Match
choose [] = no_match
choose (p ∷ []) = matched p
choose (p ∷ q ∷ ps) = ambiguous (map (λ (r : ParserPack). r.name) (p ∷ q ∷ ps))

module _ ⦃lib : Library⦄ where
  -- `Snapshot.Match`
  unfoldable pub match : Snapshot → DecodedRecord → Match
  unfolding choose
  match s rec = choose (keep_where (λ p. matches p rec) s.ordered)

lookup_pack : Bytes → List (Bytes × ParserPack) → Option ParserPack
lookup_pack n [] = none
lookup_pack n ((k, p) ∷ ps) = if str_eq k n then some p else lookup_pack n ps

unfoldable pub get_pack : Snapshot → Bytes → Option ParserPack
unfolding lookup_pack
get_pack s n = lookup_pack n s.packs
