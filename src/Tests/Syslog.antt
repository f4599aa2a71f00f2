-- ===== src/Tests/Syslog.antt =====
-- A message of RFC 5424, its structured data and its pairs.
use worm.Decode.Syslog.Detect.{syslog_detect}
use worm.Decode.Syslog.Detect.Agrees.{is_ok, syslog_detect-priority}
use worm.Base.{
  false, ltb, leb, length, ◌≡◌, refl, List, [], ◌∷◌, Option, none, some, Bytes, codes, ℤ, pos,
  arith, str_eq, has_prefix, ends_with, count_where, put,
}
use worm.Library.{unrecognized}
use worm.Store.Action.{Result, ok, err}
use worm.Model.{DecodedRecord}
use worm.Model.Value.{Fields, end, field, str, int, insert, insert_all}
use worm.Decode.Syslog.Tokens.{space, Pairs, parse_key_value_tokens, turns, turn, span}
use worm.Decode.Syslog.Tokens.Progress.{parse_key_value_tokens_total}
use worm.Decode.Syslog.Tokens.RoundTrip.{parse_key_value_tokens-write}
use worm.Decode.Syslog.Structured.{split_structured_data, balanced_quotes}
use worm.Decode.Syslog.Structured.RoundTrip.{plain, text, split_structured_data-elements}
use worm.Decode.Syslog.Message.{
  syslog_decode, priority, cut, base_headers, parse_header, inner_records, insert_pairs,
}
use worm.Decode.Syslog.Message.Origin.{Carries, syslog_decode-Carries}
use worm.Decode.Syslog.Message.Bounds.{Found, HasPlainBody, syslog_decode-Found}

parse_key_value_tokens_total_example :
    (r : Result Pairs) × (parse_key_value_tokens (codes "user=root x") ≡ some r)
parse_key_value_tokens_total_example = parse_key_value_tokens_total (codes "user=root x")

abbrev pairs : Pairs
pairs = (codes "user", codes "root") ∷ (codes "cmd", codes "say \"hi\"") ∷ []

parse_key_value_tokens-write_example :
    parse_key_value_tokens (codes " user=\"root\" cmd=\"say \\\"hi\\\"\"") ≡ some (ok pairs)
unfolding put str_eq
parse_key_value_tokens-write_example =
    parse_key_value_tokens-write b'"' refl pairs
      ((refl, (refl, (refl, (refl, tt)))), ((refl, (refl, (refl, tt))), tt))

split_structured_data-elements_example :
    split_structured_data (λ s. s) (codes "[a b=\"\\]\\\"\"] hi")
    ≡ ok (codes "[a b=\"\\]\\\"\"]", codes " hi")
split_structured_data-elements_example =
    split_structured_data-elements (λ s. s)
      (plain b'a' ∷ plain b' ' ∷ plain b'b' ∷ plain b'=' ∷ text (codes "]\"") ∷ []) [] (codes " hi")
      ((refl, (refl, (refl, (refl, tt)))), tt) refl

-- A decoder that finds no record.
abbrev no_records : Bytes → Result (List DecodedRecord)
no_records s = err unrecognized

-- A body in JSON is one record, with a priority of its own.
abbrev some_json : Bytes → Result (List DecodedRecord)
some_json s = ok (
    record {
      record_ordinal = 0;
      format = codes "json";
      headers = end;
      fields = field (codes "syslog_pri") (str (codes "p")) end;
      raw_payload = s;
    }
    ∷ [])

abbrev no_header : Bytes → Option (Bytes × Bytes × Bytes × Bytes × Bytes)
no_header s = none

abbrev atoi : Bytes → Option ℤ
atoi s = some (pos 34)

abbrev same : Bytes → Bytes
same s = s

abbrev message : Bytes
message = codes "<34>hi k=v"

abbrev message_headers : Fields
message_headers = field (codes "syslog_pri") (int (pos 34)) (
    field (codes "syslog_facility") (int (pos 4))
      (field (codes "syslog_severity") (int (pos 2)) end))

abbrev message_record : DecodedRecord
message_record = record {
  record_ordinal = 0;
  format = codes "syslog_rfc3164";
  headers = message_headers;
  fields =
      insert_all message_headers
        (field (codes "message") (str (codes "hi k=v")) (field (codes "k") (str (codes "v")) end));
  raw_payload = message;
}

message_decoded :
    syslog_decode same atoi no_header no_records no_records some_json no_records message
    ≡ ok (message_record ∷ [])
unfolding syslog_decode priority cut parse_header base_headers has_prefix inner_records
    parse_key_value_tokens turns turn span insert_pairs insert str_eq count_where balanced_quotes
    ends_with insert_all put
message_decoded = refl

syslog_decode-Carries_example :
    Carries same atoi no_header no_records no_records some_json no_records message
      (message_record ∷ [])
syslog_decode-Carries_example =
    syslog_decode-Carries same atoi no_header no_records no_records some_json no_records message
      (message_record ∷ []) message_decoded

message_HasPlainBody :
    HasPlainBody same atoi no_header no_records no_records some_json no_records message
unfolding priority cut parse_header base_headers has_prefix inner_records ends_with
message_HasPlainBody n rest p h h' =
    let e : p ≡ record { format = codes "syslog_rfc3164"; headers = base_headers n; body = rest } =
      ground arith in
    ground (arith, h, h')

syslog_decode-Found_example :
    Found same atoi no_header no_records no_records some_json no_records message
      (message_record ∷ [])
syslog_decode-Found_example =
    syslog_decode-Found same atoi no_header no_records no_records some_json no_records message
      (message_record ∷ []) message_HasPlainBody message_decoded

message_long : ltb (length (span space message).1) 4 ≡ false
unfolding span
message_long = refl

message_trimmed : same message ≡ (span space message).1
unfolding span
message_trimmed = refl

syslog_detect-priority_example :
    leb 50 (syslog_detect atoi message)
    ≡ is_ok (priority same atoi no_header no_records no_records some_json no_records message)
syslog_detect-priority_example =
    syslog_detect-priority same atoi no_header no_records no_records some_json no_records message
      message_long message_trimmed
