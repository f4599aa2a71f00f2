-- ===== src/Packs/Validate.antt =====
-- `Validate` of internal/packs/pack.go, and the table of target paths of internal/ocsf/schema.go.
-- The regular expressions of Go's standard library are an instance, but for that of the names.
use worm.Base.{
  ℕ, Bool, true, false, ◌&&◌, ◌||◌, List, [], ◌∷◌, Option, none, some, Bytes, codes, str_eq, leb,
  ◌==◌, is_digit, has_prefix, trim_prefix, if◌then◌else◌,
}
use worm.Packs.Match.{FieldRule, ParserPack}
use worm.Packs.Extract.{is_among}
use worm.Normalize.Taxonomy.{known_category}

pub record Expressions : Type 0 where
  -- `semverRegex.MatchString`
  pub is_semver : Bytes → Bool
  -- `regexp.Compile`
  pub compile : Bytes → Option (Bytes → Bool)

-- The keys of the map `targets`.
abbrev pub targets : List Bytes
targets =
    codes "time"
    ∷ codes "category_name"
    ∷ codes "class_name"
    ∷ codes "message"
    ∷ codes "action"
    ∷ codes "activity_name"
    ∷ codes "status"
    ∷ codes "severity_id"
    ∷ codes "src_endpoint.ip"
    ∷ codes "src_endpoint.port"
    ∷ codes "dst_endpoint.ip"
    ∷ codes "dst_endpoint.port"
    ∷ codes "actor.user.name"
    ∷ codes "actor.user.uid"
    ∷ codes "device.hostname"
    ∷ codes "finding_info.title"
    ∷ codes "http_request.http_method"
    ∷ codes "http_request.url.path"
    ∷ codes "http_request.user_agent"
    ∷ codes "http_request.version"
    ∷ codes "http_response.status_code"
    ∷ codes "service.name"
    ∷ codes "traffic.bytes_in"
    ∷ codes "traffic.bytes_out"
    ∷ codes "dst_endpoint.hostname"
    ∷ codes "transaction.id"
    ∷ codes "transaction.amount"
    ∷ codes "transaction.currency"
    ∷ []

-- `ocsf.TargetAllowed`
unfoldable pub target_allowed : Bytes → Bool
target_allowed path = is_among path targets

-- `KnownFormats`
abbrev pub known_formats : List Bytes
known_formats =
    codes "syslog"
    ∷ codes "json"
    ∷ codes "csv"
    ∷ codes "cef"
    ∷ codes "xml"
    ∷ codes "leef"
    ∷ codes "text"
    ∷ codes "*"
    ∷ []

abbrev name_byte : ℕ → Bool
name_byte c = leb b'a' c && leb c b'z' || is_digit c

name_bytes : Bytes → Bool
name_bytes [] = true
name_bytes (c ∷ s) = (name_byte c || c == b'-') && name_bytes s

-- `packNameRegex.MatchString`
unfoldable pub is_pack_name : Bytes → Bool
unfolding name_bytes
is_pack_name [] = false
is_pack_name (c ∷ s) = name_byte c && name_bytes s

abbrev pub field_types : List Bytes
field_types =
    codes "ip"
    ∷ codes "integer"
    ∷ codes "float"
    ∷ codes "timestamp"
    ∷ codes "string"
    ∷ codes "boolean"
    ∷ []

abbrev pub is_nonempty : Bytes → Bool
is_nonempty [] = false
is_nonempty (c ∷ s) = true

-- The loop over the fields.
unfoldable pub fields_valid : List (Bytes × FieldRule) → Bool
fields_valid [] = true
fields_valid ((name, rule) ∷ rules) =
    is_nonempty rule.from && is_among rule.type field_types && fields_valid rules

unfoldable pub has_field : Bytes → List (Bytes × FieldRule) → Bool
has_field k [] = false
has_field k ((name, rule) ∷ rules) = str_eq name k || has_field k rules

-- The loop over the map of a pack.
unfoldable pub rules_valid : List (Bytes × FieldRule) → List (Bytes × Bytes) → Bool
unfolding target_allowed has_field
rules_valid fields [] = true
rules_valid fields ((source, target) ∷ rules) =
    has_prefix target (codes "event.")
    && target_allowed (trim_prefix target (codes "event."))
    && has_field source fields
    && rules_valid fields rules

abbrev pub has_rules : List (Bytes × Bytes) → Bool
has_rules [] = false
has_rules (r ∷ rs) = true

-- The checks in front of the regular expression.
unfoldable pub heading_valid : ⦃exprs : Expressions⦄ → ParserPack → Bool
unfolding is_pack_name known_category
heading_valid ⦃exprs⦄ p =
    str_eq p.api_version (codes "worm.io/v1")
    && str_eq p.kind (codes "LogSource")
    && is_pack_name p.name
    && is_nonempty p.version
    && exprs.is_semver p.version
    && known_category p.source_category
    && is_among p.format known_formats
    && (is_nonempty p.match_contains || is_nonempty p.match_regex || has_rules p.field_equals)

abbrev pub with_test : ParserPack → Option (Bytes → Bool) → Option ParserPack
with_test p none = none
with_test p (some test) = some (record p { compiled_regex = some test })

unfoldable pub with_regex : ⦃exprs : Expressions⦄ → ParserPack → Bytes → Option ParserPack
with_regex p [] = some p
with_regex ⦃exprs⦄ p (c ∷ s) = with_test p (exprs.compile (c ∷ s))

-- `Validate`, with the pack whose expression it has compiled; `none` is an error.
unfoldable pub validate_pack : ⦃exprs : Expressions⦄ → ParserPack → Option ParserPack
unfolding heading_valid with_regex fields_valid rules_valid
validate_pack p =
    if heading_valid p
    then (if fields_valid p.fields && rules_valid p.fields p.map_rules
        then with_regex p p.match_regex
        else none)
    else none
