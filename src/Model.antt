-- ===== src/Model.antt =====
-- internal/model/model.go: the records that the components hand to one another.
-- Times are milliseconds since the epoch, and 0 is Go's zero time.
pub mod Value
use worm.Base.{ℕ, Bool, List, Option, Bytes, ℤ, ◌+ℤ◌, ltb_ℤ, not, ◌||◌}
use worm.Model.Value.{Fields}

pub data RawStatus : Type 0 where
  accepted normalized quarantined pending partial : RawStatus

pub record ReceiveMetadata : Type 0 where
  pub connection_id : Bytes
  pub listener : Bytes
  pub request_id : Bytes
  pub file_path : Bytes
  pub file_id : Bytes
  pub file_offset : ℕ
  pub object_key : Bytes
  pub watermark : Bytes
  pub kafka_topic : Bytes
  pub kafka_partition : ℕ
  pub kafka_offset : ℕ
  pub kafka_key : Bytes

-- `ack` says whether the sender waits for the commit on a channel.
pub record IngestedRecord : Type 0 where
  pub transport : Bytes
  pub source_ip : Bytes
  pub source_port : ℕ
  pub raw_bytes : Bytes
  pub received_at : ℕ
  pub metadata : ReceiveMetadata
  pub ack : Bool
  pub existing_raw_id : Bytes

pub record RawEvent : Type 0 where
  pub raw_id : Bytes
  pub duplicate : Bool
  pub raw_sha256 : Bytes
  pub byte_count : ℕ
  pub transport : Bytes
  pub source_ip : Bytes
  pub source_port : ℕ
  pub metadata : ReceiveMetadata
  pub received_at : ℕ
  pub payload : Bytes
  pub status : RawStatus

pub record ProcessingStep : Type 0 where
  pub stage : Bytes
  pub timestamp : ℕ
  pub result : Bytes

pub record DecodedRecord : Type 0 where
  pub record_ordinal : ℕ
  pub format : Bytes
  pub headers : Fields
  pub fields : Fields
  pub raw_payload : Bytes

pub record WormEnvelope : Type 0 where
  pub event_id : Bytes
  pub raw_id : Bytes
  pub raw_sha256 : Bytes
  pub raw_bytes : ℕ
  pub record_ordinal : ℕ
  pub source_category : Bytes
  pub source_id : Bytes
  pub parser_pack : Bytes
  pub parser_version : Bytes
  pub core_version : Bytes
  pub schema_version : Bytes
  pub received_time : ℕ
  pub status : Bytes
  pub warnings : List Bytes
  pub processing_history : List ProcessingStep

pub record NormalizedEvent : Type 0 where
  pub envelope : WormEnvelope
  pub ocsf : Fields

pub record QuarantineEntry : Type 0 where
  pub quarantine_id : Bytes
  pub raw_id : Bytes
  pub record_ordinal : ℕ
  pub raw_sha256 : Bytes
  pub stage : Bytes
  pub reason : Bytes
  pub error_details : Bytes
  pub raw_preview : Bytes
  pub candidate_packs : List Bytes
  pub replay_eligible : Bool
  pub quarantined_at : ℕ
  pub replayed_at : Option ℕ

pub record LossAccountingStats : Type 0 where
  pub accepted : ℤ
  pub normalized : ℤ
  pub quarantined : ℤ
  pub pending : ℤ
  pub delivered : ℤ
  pub delivery_pending : ℤ
  pub delivery_failed : ℤ

-- Two integers differ.
abbrev differ : ℤ → ℤ → Bool
differ a b = ltb_ℤ a b || ltb_ℤ b a

-- `VerifyInvariant`, less its message.
unfoldable pub verify_invariant : LossAccountingStats → Bool
verify_invariant s = not (differ s.accepted (s.normalized +ℤ s.quarantined +ℤ s.pending))
