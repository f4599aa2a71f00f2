-- ===== src/Library.antt =====
-- What the program calls outside its own code: hashing, JSON, formatting and text conversions of
-- Go's standard library. They are the fields of a record that the definitions take as an instance.
use worm.Base.{ℕ, Bool, List, Option, Bytes, ℤ}
use worm.Model.Value.{Value}
use worm.Model.{NormalizedEvent, ReceiveMetadata}

-- The errors of the store and of the pipeline's stages, one for each place that makes one.
pub data Error : Type 0 where
  driver : Error
  constraint : Error
  not_found : Error
  identity_conflict : Error
  marshal_failed : Error
  not_resolved : Error
  unrecognized : Error
  ambiguous_format : Error
  decode_failed : Bytes → Error
  invalid : Bytes → Error

pub record Library : Type 0 where
  -- `hex.EncodeToString` of `sha256.Sum256`
  pub sha256_hex : Bytes → Bytes
  -- `json.Marshal` and `json.Unmarshal` of an event
  pub marshal : NormalizedEvent → Option Bytes
  pub unmarshal : Bytes → Option NormalizedEvent
  -- `json.Marshal` and `json.Unmarshal` of receive metadata, and `json_extract` of its fields
  pub metadata_json : ReceiveMetadata → Bytes
  pub read_metadata : Bytes → Option ReceiveMetadata
  pub json_file_id : Bytes → Option Bytes
  pub json_file_offset : Bytes → ℕ
  -- `Format` and `Parse` of a time in the layout RFC3339Nano
  pub time_text : ℕ → Bytes
  pub read_time : Bytes → ℕ
  -- `fmt.Sprint`, and `fmt.Sprintf("%v", …)`
  pub sprint : Value → Bytes
  -- the identifiers made of a date, a sequence number and random bytes
  pub raw_id : ℕ → ℕ → Bytes → Bytes
  pub quarantine_id : ℕ → Bytes → Bytes
  pub event_id : ℕ → ℕ → Bytes → Bytes
  pub generic_event_id : ℕ → Bytes → Bytes
  -- `err.Error()`
  pub error_text : Error → Bytes
  -- `utf8.Valid`, `[]rune(s)` as the encodings of its characters, `hex.EncodeToString`
  pub valid_utf8 : Bytes → Bool
  pub runes : Bytes → List Bytes
  pub hex_encode : Bytes → Bytes
  -- `int64(f)` of a float64
  pub float_to_int : ℕ → ℤ
