-- ===== src/Packs/Match.antt =====
-- `ParserPack` and `Matches` of internal/packs/pack.go.
use worm.Base.{
  Bool, true, false, ◌&&◌, ◌||◌, List, [], ◌∷◌, Option, none, some, if◌then◌else◌, Bytes, codes,
  str_eq, has_prefix, contains,
}
use worm.Library.{Library}
use worm.Model.{DecodedRecord}
use worm.Model.Value.{Value, Fields, end, field, str, lookup}
use worm.Packs.Lookup.{lookup_field}

pub record FieldRule : Type 0 where
  pub from : Bytes
  pub type : Bytes
  pub required : Bool
  pub layout : Bytes

-- A pack, flattened: `Metadata`, `Spec` and `Spec.Match` are its own fields. `compiled_regex` is
-- the compiled `match.regex`, a test on the text that it is matched against.
pub record ParserPack : Type 0 where
  pub api_version : Bytes
  pub kind : Bytes
  pub name : Bytes
  pub version : Bytes
  pub source_category : Bytes
  pub format : Bytes
  pub match_contains : Bytes
  pub match_regex : Bytes
  pub field_equals : List (Bytes × Bytes)
  pub fields : List (Bytes × FieldRule)
  pub map_rules : List (Bytes × Bytes)
  pub preserve_unmapped : Bool
  pub compiled_regex : Option (Bytes → Bool)

unfoldable pub format_matches : Bytes → Bytes → Bool
format_matches pack rec =
    if str_eq pack rec
    then true
    else if str_eq pack (codes "syslog")
    then has_prefix rec (codes "syslog")
    else if str_eq pack (codes "text")
    then has_prefix rec (codes "text")
    else if str_eq pack (codes "json")
    then has_prefix rec (codes "json") || str_eq rec (codes "ndjson")
    else if str_eq pack (codes "csv")
    then has_prefix rec (codes "csv")
    else if str_eq pack (codes "cef")
    then has_prefix rec (codes "cef")
    else if str_eq pack (codes "xml")
    then has_prefix rec (codes "xml")
    else if str_eq pack (codes "leef")
    then has_prefix rec (codes "leef")
    else false

-- `Spec.Format`, where it is not empty and not `*`
unfoldable pub format_ok : ParserPack → DecodedRecord → Bool
unfolding format_matches
format_ok p rec =
    str_eq p.format [] || str_eq p.format (codes "*") || format_matches p.format rec.format

unfoldable pub regex_target : DecodedRecord → Option Value → Bytes
regex_target rec (some (str [])) = rec.raw_payload
regex_target rec (some (str (c ∷ s))) = c ∷ s
regex_target rec _ = rec.raw_payload

regex_ok : DecodedRecord → Option (Bytes → Bool) → Bool
unfolding regex_target
regex_ok rec none = true
regex_ok rec (some test) = test (regex_target rec (lookup (codes "message") rec.fields))

module _ ⦃lib : Library⦄ where
  any_contains : Bytes → Fields → Bool
  any_contains needle end = false
  any_contains needle (field k v m) = contains (lib.sprint v) needle || any_contains needle m

  unfoldable pub contains_ok : ParserPack → DecodedRecord → Bool
  unfolding any_contains
  contains_ok p rec =
      str_eq p.match_contains []
      || contains rec.raw_payload p.match_contains
      || any_contains p.match_contains rec.fields

  is_value : Bytes → Option Value → Bool
  is_value expected none = false
  is_value expected (some v) = str_eq (lib.sprint v) expected

  unfoldable pub fields_ok : DecodedRecord → List (Bytes × Bytes) → Bool
  unfolding is_value lookup_field
  fields_ok rec [] = true
  fields_ok rec ((k, expected) ∷ rules) =
      is_value expected (lookup_field rec k) && fields_ok rec rules

  unfoldable pub matches : ParserPack → DecodedRecord → Bool
  unfolding format_ok contains_ok fields_ok regex_ok
  matches p rec =
      format_ok p rec
      && contains_ok p rec
      && fields_ok rec p.field_equals
      && regex_ok rec p.compiled_regex
