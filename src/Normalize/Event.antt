-- ===== src/Normalize/Event.antt =====
-- `Normalize` of internal/normalize/normalizer.go, with the signature that the pipeline's stages ask
-- of it.
pub mod Spared
pub mod Governed
use worm.Base.{
  ℕ, ◌+◌, ◌*◌, Bool, true, false, ◌&&◌, ◌||◌, not, List, [], ◌∷◌, ◌++◌, Option, none, some, Bytes,
  codes, str_eq, ltb, trim_prefix, pos, ◌==◌, if◌then◌else◌,
}
use worm.Library.{Library}
use worm.Store.Action.{Result, ok, err}
use worm.Model.{RawEvent, DecodedRecord, ProcessingStep, NormalizedEvent}
use worm.Model.Value.{Value, null, str, int, obj, Fields, end, lookup, insert, size}
use worm.Packs.Lookup.{set_nested_value}
use worm.Packs.Match.{ParserPack}
use worm.Packs.Extract.{Conversions, Extracted, not_null, extract_and_convert}
use worm.Normalize.Taxonomy.{enrich_taxonomy_defaults}

unfoldable pub set_mapped : Bytes → Fields → Option Value → Fields
unfolding set_nested_value
set_mapped target event none = event
set_mapped target event (some v) = set_nested_value event (trim_prefix target (codes "event.")) v

-- The loop over `pack.Spec.Map`, in the order in which Go ranges over it.
unfoldable pub map_fields : List (Bytes × Bytes) → Fields → Fields → Fields
unfolding set_mapped
map_fields [] extracted event = event
map_fields ((key, target) ∷ rules) extracted event =
    map_fields rules extracted (set_mapped target event (not_null (lookup key extracted)))

abbrev time_or : ℕ → ℕ → Fields → Option Value → Fields
time_or now received event (some v) = event
time_or now received event none =
    insert (codes "time") (int (pos (if received == 0 then now else received))) event

-- `event.time`, where the source gives none.
unfoldable pub default_time : ℕ → ℕ → Fields → Fields
default_time now received event =
    time_or now received event (not_null (lookup (codes "time") event))

unfoldable pub with_unmapped_fields : ParserPack → Fields → Fields → Fields
with_unmapped_fields pack unmapped event =
    if pack.preserve_unmapped && ltb 0 (size unmapped)
    then insert (codes "unmapped") (obj unmapped) event
    else event

-- The steps that build the event.
unfoldable pub ocsf_event : ℕ → RawEvent → ParserPack → Extracted → Fields
unfolding map_fields default_time with_unmapped_fields enrich_taxonomy_defaults
ocsf_event now raw pack x =
    enrich_taxonomy_defaults
      (with_unmapped_fields pack x.unmapped
        (default_time now raw.received_at (map_fields pack.map_rules x.fields end)))
      pack.source_category

-- A host name that is given, and is not the dash of syslog.
abbrev given : Option Value → Option Bytes
given (some (str (c ∷ s))) = some (c ∷ s)
given _ = none

abbrev given_host : Option Value → Option Bytes
given_host o = elim (given o) [
  | none ↦ none
  | some host ↦ if str_eq host (codes "-") then none else some host
]

abbrev first_of : List (Option Bytes) → Bytes → Bytes
first_of [] default = default
first_of (some host ∷ hosts) default = host
first_of (none ∷ hosts) default = first_of hosts default

abbrev or_unknown : Bytes → Bytes
or_unknown [] = codes "unknown"
or_unknown (c ∷ s) = c ∷ s

unfoldable pub source_id_of : RawEvent → DecodedRecord → Bytes
source_id_of raw rec = or_unknown (
    first_of
      (given_host (lookup (codes "syslog_host") rec.headers)
        ∷ given_host (lookup (codes "syslog_host") rec.fields)
        ∷ given (lookup (codes "host") rec.fields)
        ∷ given (lookup (codes "server") rec.fields)
        ∷ [])
      raw.source_ip)

abbrev pub core_version : Bytes
core_version = codes "0.1.0"

-- `schemaVersion` of the normalizer
abbrev pub schema_version : Bytes
schema_version = codes "1.3.0"

abbrev pub stage_step : Bytes → ℕ → ProcessingStep
stage_step stage now = record { stage = stage; timestamp = now; result = codes "ok" }

module _ ⦃lib : Library⦄ ⦃conv : Conversions⦄ where
  unfoldable pub normalized_of :
      ℕ
      → Bytes
      → ℕ
      → RawEvent
      → DecodedRecord
      → ParserPack
      → List ProcessingStep
      → Extracted
      → NormalizedEvent
  unfolding ocsf_event source_id_of
  normalized_of now random seq raw decoded pack history x = record {
    envelope = record {
      event_id = lib.event_id now seq random;
      raw_id = raw.raw_id;
      raw_sha256 = raw.raw_sha256;
      raw_bytes = raw.byte_count;
      record_ordinal = decoded.record_ordinal;
      source_category = pack.source_category;
      source_id = source_id_of raw decoded;
      parser_pack = pack.name;
      parser_version = pack.version;
      core_version = core_version;
      schema_version = schema_version;
      received_time = raw.received_at;
      status = codes "normalized";
      warnings = x.notes;
      processing_history = history ++ (stage_step (codes "normalize") now ∷ []);
    };
    ocsf = ocsf_event now raw pack x;
  }

  unfoldable pub normalize_extracted :
      ℕ
      → Bytes
      → ℕ
      → RawEvent
      → DecodedRecord
      → ParserPack
      → List ProcessingStep
      → Result Extracted
      → Result NormalizedEvent × ℕ
  unfolding normalized_of
  normalize_extracted now random seq raw decoded pack history (err e) = (err e, seq)
  normalize_extracted now random seq raw decoded pack history (ok x) =
      (ok (normalized_of now random (seq + 1) raw decoded pack history x), seq + 1)

  -- `Normalize`, whose arguments are never nil here, with the sequence number that it counts up.
  unfoldable pub normalize :
      ℕ
      → Bytes
      → ℕ
      → RawEvent
      → DecodedRecord
      → ParserPack
      → List ProcessingStep
      → Result NormalizedEvent × ℕ
  unfolding extract_and_convert normalize_extracted
  normalize seq random now raw decoded pack history =
      normalize_extracted now random seq raw decoded pack history (extract_and_convert pack decoded)
