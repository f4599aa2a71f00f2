-- ===== src/Tests/Packs.antt =====
-- A snapshot of two packs, and a path that is written into a map.
use worm.Base.{true, [], ◌∷◌, ◌≡◌, ◌≢◌, refl, ◌↔◌, none, some, Bytes, codes, str_eq}
use worm.Model.{DecodedRecord}
use worm.Model.Value.{Fields, end, field, str, obj, lookup}
use worm.Packs.Match.{ParserPack, matches}
use worm.Packs.Snapshot.{Snapshot, match, matched}
use worm.Packs.Snapshot.Unique.{IsSole, match-IsSole}
use worm.Packs.Lookup.{lookup_nested, set_nested_value}
use worm.Packs.Lookup.RoundTrip.{lookup_nested-set_nested_value}
use worm.Tests.Setup.{toy_library}

abbrev pub pack : Bytes → Bytes → ParserPack
pack name format = record {
  api_version = codes "worm.io/v1";
  kind = codes "ParserPack";
  name = name;
  version = codes "1.0.0";
  source_category = codes "os";
  format = format;
  match_contains = [];
  match_regex = [];
  field_equals = [];
  fields = [];
  map_rules = [];
  preserve_unmapped = true;
  compiled_regex = none;
}

abbrev login : DecodedRecord
login = record {
  record_ordinal = 0;
  format = codes "json";
  headers = end;
  fields = field (codes "message") (str (codes "m")) end;
  raw_payload = codes "m";
}

abbrev two_packs : Snapshot
two_packs = record {
  version = codes "v1";
  packs =
      (codes "linux", pack (codes "linux") (codes "json"))
      ∷ (codes "windows", pack (codes "windows") (codes "xml"))
      ∷ [];
  ordered = pack (codes "linux") (codes "json") ∷ pack (codes "windows") (codes "xml") ∷ [];
}

match-IsSole_example :
    (match two_packs login ≡ matched (pack (codes "linux") (codes "json")))
    ↔ IsSole (λ q. matches q login) two_packs.ordered (pack (codes "linux") (codes "json"))
match-IsSole_example = match-IsSole two_packs login (pack (codes "linux") (codes "json"))

abbrev user : Fields
user = field (codes "actor") (obj (field (codes "uid") (str (codes "7")) end)) end

no_dotted_key : lookup (codes "actor.user.name") user ≡ none
unfolding lookup str_eq
no_dotted_key = refl

path_is : codes "actor.user.name" ≢ []
path_is = λ e. cc

lookup_nested-set_nested_value_example :
    lookup_nested
      (set_nested_value user (codes "actor.user.name") (str (codes "eve")))
      (codes "actor.user.name")
    ≡ some (str (codes "eve"))
lookup_nested-set_nested_value_example =
    lookup_nested-set_nested_value user (codes "actor.user.name") (str (codes "eve")) path_is
      no_dotted_key
