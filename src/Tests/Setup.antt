-- ===== src/Tests/Setup.antt =====
-- A concrete library, stages and records, for the tests and the examples of the theorems.
use worm.Base.{ℕ, zero, suc, Bool, true, List, [], ◌∷◌, ◌++◌, none, some, Bytes, codes, map, pos}
use worm.Library.{Library, unrecognized}
use worm.Model.{ReceiveMetadata, IngestedRecord, DecodedRecord, NormalizedEvent}
use worm.Model.Value.{end, field, str}
use worm.Store.Action.{ok, err, Tables}
use worm.Pipeline.World.{World, Stages, Detection, unknown, decoded}

abbrev decimal : ℕ → Bytes
decimal zero = []
decimal (suc n) = b'i' ∷ decimal n

-- The event that every payload is read as.
abbrev pub toy_event : NormalizedEvent
toy_event = record {
  envelope = record {
    event_id = codes "e";
    raw_id = codes "raw-i";
    raw_sha256 = codes "hx";
    raw_bytes = 1;
    record_ordinal = 0;
    source_category = codes "other";
    source_id = codes "10.0.0.1";
    parser_pack = codes "generic-core";
    parser_version = codes "0.1.0";
    core_version = codes "0.1.0";
    schema_version = codes "1.3.0";
    received_time = 7;
    status = codes "normalized";
    warnings = [];
    processing_history = [];
  };
  ocsf = end;
}

abbrev pub no_metadata : ReceiveMetadata
no_metadata = record {
  connection_id = [];
  listener = [];
  request_id = [];
  file_path = [];
  file_id = [];
  file_offset = 0;
  object_key = [];
  watermark = [];
  kafka_topic = [];
  kafka_partition = 0;
  kafka_offset = 0;
  kafka_key = [];
}

-- The digest is the text behind a mark, and identifiers are tallies.
instance abbrev pub toy_library : Library
toy_library = record {
  sha256_hex = λ b. b'h' ∷ b;
  marshal = λ e. some e.envelope.event_id;
  unmarshal = λ b. some toy_event;
  sprint = λ v. [];
  raw_id = λ at seq rand. codes "raw-" ++ decimal seq;
  quarantine_id = λ at rand. codes "quar-" ++ rand;
  event_id = λ at seq rand. codes "evt-" ++ rand;
  generic_event_id = λ at rand. codes "evt-" ++ rand;
  error_text = λ e. codes "error";
  valid_utf8 = λ b. true;
  runes = map (λ c. c ∷ []);
  hex_encode = λ b. b;
  float_to_int = λ f. pos 0;
  metadata_json = λ m. m.file_id;
  read_metadata = λ b. some no_metadata;
  json_file_id = λ b. some b;
  json_file_offset = λ b. 0;
  time_text = λ at. [];
  read_time = λ b. 7;
}

abbrev pub datagram : Bytes → IngestedRecord
datagram bytes = record {
  transport = codes "syslog-udp";
  source_ip = codes "10.0.0.1";
  source_port = 514;
  raw_bytes = bytes;
  received_at = 7;
  metadata = no_metadata;
  ack = true;
  existing_raw_id = [];
}

abbrev child_of : ℕ → Bytes → DecodedRecord
child_of n format = record {
  record_ordinal = n;
  format = format;
  headers = end;
  fields = field (codes "message") (str (codes "m")) end;
  raw_payload = codes "m";
}

-- A batch of two: a record that passes through, and unclassified text.
abbrev toy_detect : Bytes → Detection
toy_detect [] = unknown unrecognized
toy_detect (c ∷ cs) =
    decoded (codes "toy") (child_of 0 (codes "json") ∷ child_of 1 (codes "text") ∷ [])

abbrev pub toy_stages : Stages (Unit {0}) (List NormalizedEvent)
toy_stages = record {
  detect_and_decode = toy_detect;
  active = none;
  pack_label = λ p. [];
  normalize = λ seq rand now raw dec p history. (err unrecognized, seq);
  validate = λ now e. ok e;
  destinations = none;
  emit = λ e sink. (ok tt, sink ++ (e ∷ []));
  random = decimal;
}

abbrev pub no_tables : Tables
no_tables = record {
  raw_events = [];
  quarantine = [];
  normalized_events = [];
  outbox = [];
  next_outbox_id = 1;
}

-- The world at the start, with these failures of the database to come.
abbrev pub start : List Bool → World (List NormalizedEvent)
start faults = record {
  db = record { tables = no_tables; counter = 0; faults = faults };
  counters = record {
    accepted = pos 1;
    normalized = pos 0;
    quarantined = pos 0;
    pending = pos 1;
    delivered = pos 0;
  };
  sink = [];
  acks = [];
  drawn = 0;
  event_seq = 0;
}
