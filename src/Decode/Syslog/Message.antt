-- ===== src/Decode/Syslog/Message.antt =====
-- `Detect` and `Decode` of internal/decode/syslog.go, and `wrapInnerRecords`. The decoders of the
-- body, the regular expression of RFC 3164 headers and Go's functions on text are parameters.
pub mod Headers
pub mod Missing
pub mod Origin
pub mod Bounds
use worm.Base.{
  ℕ, zero, suc, Bool, true, false, ◌&&◌, ◌||◌, not, List, [], ◌∷◌, ◌++◌, Option, none, some, Bytes,
  codes, ◌==◌, leb, ltb, length, take, drop, ◌-◌, ◌/◌, ◌%◌, is_space, has_prefix, ends_with,
  trim_prefix, str_eq, count_where, map, ℤ, pos, negsuc, if◌then◌else◌,
}
use worm.Library.{Error, invalid}
use worm.Store.Action.{Result, ok, err}
use worm.Model.{DecodedRecord}
use worm.Model.Value.{Value, Fields, end, field, str, int, lookup, insert, insert_all}
use worm.Decode.Syslog.Tokens.{Pairs, span, parse_key_value_tokens}
use worm.Decode.Syslog.Structured.{split_structured_data, balanced_quotes}

abbrev pub max_payload_bytes : ℕ
max_payload_bytes = 10485760

-- The text in front of the first separator and behind it.
unfoldable pub cut : Bytes → Bytes → Option (Bytes × Bytes)
cut sep [] = none
cut sep (c ∷ s) = elim (has_prefix (c ∷ s) sep) [
  | true ↦ some ([], drop (length sep) (c ∷ s))
  | false ↦ elim (cut sep s) [ none ↦ none | some r ↦ some (c ∷ r.0, r.1) ]
]

-- `strings.SplitN(s, sep, n + 1)`
unfoldable pub split_more : ℕ → Bytes → Bytes → List Bytes
split_more zero sep s = s ∷ []
split_more (suc m) sep s = elim (cut sep s) [ none ↦ s ∷ [] | some r ↦ r.0 ∷ split_more m sep r.1 ]

-- The header fields, the variant of the format and the body.
pub record Parsed : Type 0 where
  pub format : Bytes
  pub headers : Fields
  pub body : Bytes

unfoldable pub base_headers : ℕ → Fields
base_headers pri = field (codes "syslog_pri") (int (pos pri)) (
    field (codes "syslog_facility") (int (pos (pri / 8)))
      (field (codes "syslog_severity") (int (pos (pri % 8))) end))

abbrev pub set : Bytes → Bytes → Fields → Fields
set k v m = insert k (str v) m

abbrev pub add_one : Bytes → Value → Fields → Option Value → Fields
add_one k v dst none = insert k v dst
add_one k v dst (some w) = dst

-- `for k, v := range src { if _, exists := dst[k]; !exists { dst[k] = v } }`
unfoldable pub add_missing : Fields → Fields → Fields
add_missing end dst = dst
add_missing (field k v src) dst = add_missing src (add_one k v dst (lookup k dst))

-- `wrapInnerRecords`, for one of the records
unfoldable pub wrap_inner : Bytes → Parsed → DecodedRecord → DecodedRecord
unfolding add_missing
wrap_inner raw p r = record r {
  raw_payload = raw;
  headers = add_missing p.headers (insert (codes "syslog_envelope") (str p.format) r.headers);
  fields = add_missing p.headers r.fields;
}

unfoldable pub insert_pairs : Pairs → Fields → Fields
insert_pairs [] m = m
insert_pairs (kv ∷ kvs) m = insert_pairs kvs (insert kv.0 (str kv.1) m)

module _ (trim_space : Bytes → Bytes) (atoi : Bytes → Option ℤ)
    (rfc3164_header : Bytes → Option (Bytes × Bytes × Bytes × Bytes × Bytes))
    (cef leef json xml : Bytes → Result (List DecodedRecord)) where
  unfoldable pub number : Bytes → Option ℤ → Result (ℕ × Bytes)
  number rest none = err (invalid (codes "malformed syslog: non-numeric priority"))
  number rest (some (negsuc n)) =
      err (invalid (codes "malformed syslog: priority out of valid range"))
  number rest (some (pos n)) =
      if leb n 191
      then ok (n, rest)
      else err (invalid (codes "malformed syslog: priority out of valid range"))

  unfoldable pub tag : Option (Bytes × Bytes) → Result (ℕ × Bytes)
  unfolding number
  tag none = err (invalid (codes "malformed syslog: missing or empty priority"))
  tag (some (front, rest)) =
      if ltb (length front) 2
      then err (invalid (codes "malformed syslog: missing or empty priority"))
      else if ltb 5 (length front)
      then err (invalid (codes "malformed syslog: priority tag exceeds 5 bytes"))
      else number rest (atoi (drop 1 front))

  -- The priority and what is behind it, of the text less its outer spaces.
  unfoldable pub priority : Bytes → Result (ℕ × Bytes)
  unfolding tag
  priority [] = err (invalid (codes "empty syslog message"))
  priority (c ∷ s) =
      if c == b'<'
      then tag (cut (codes ">") (c ∷ s))
      else err (invalid (codes "malformed syslog: missing leading '<'"))

  with_data : Fields → Result (Bytes × Bytes) → Result Parsed
  with_data headers (err e) = err e
  with_data headers (ok (sd, message)) = ok (record {
    format = codes "syslog_rfc5424";
    headers = set (codes "syslog_structured_data") sd headers;
    body = message;
  })

  -- What is behind the sixth space.
  with_message : Fields → Bytes → Result Parsed
  unfolding with_data
  with_message headers s =
      if has_prefix s (codes "- ")
      then with_data headers (ok (codes "-", drop 2 s))
      else if str_eq s (codes "-")
      then with_data headers (ok (codes "-", []))
      else if has_prefix s (codes "[")
      then with_data headers (split_structured_data trim_space s)
      else ok (record { format = codes "syslog_rfc5424"; headers = headers; body = s })

  header_fields : Fields → Bytes → Bytes → Bytes → Bytes → Bytes → Fields
  header_fields headers time host app procid msgid = set (codes "syslog_msgid") msgid (
      set (codes "syslog_procid") procid (
        set (codes "syslog_app") app (
          set (codes "syslog_host") host (
            set (codes "syslog_time") time
              (insert (codes "syslog_version") (int (pos 1)) headers)))))

  unfoldable pub rfc5424 : Fields → List Bytes → Result Parsed
  unfolding with_message header_fields
  rfc5424 headers (version ∷ time ∷ host ∷ app ∷ procid ∷ msgid ∷ []) = ok (record {
    format = codes "syslog_rfc5424";
    headers = header_fields headers time host app procid msgid;
    body = [];
  })
  rfc5424 headers (version ∷ time ∷ host ∷ app ∷ procid ∷ msgid ∷ s ∷ more) =
      with_message (header_fields headers time host app procid msgid) s
  rfc5424 headers parts =
      err (invalid (codes "malformed RFC 5424 syslog: incomplete header elements"))

  -- `TAG[PID]`
  with_tag : Fields → Bytes → Option (Bytes × Bytes) → Fields
  with_tag headers app none = set (codes "syslog_app") app headers
  with_tag headers app (some (name, pid)) =
      if ends_with app (codes "]")
      then set (codes "syslog_pid") (take (length pid - 1) pid)
          (set (codes "syslog_app") name headers)
      else set (codes "syslog_app") app headers

  with_app : Fields → Bytes → Option (Bytes × Bytes) → Parsed
  unfolding with_tag
  with_app headers remaining none = record {
    format = codes "syslog_rfc3164";
    headers = headers;
    body = remaining;
  }
  with_app headers remaining (some (app, message)) = record {
    format = codes "syslog_rfc3164";
    headers = with_tag headers app (cut (codes "[") app);
    body = message;
  }

  unfoldable pub rfc3164 : Fields → Bytes → Option (Bytes × Bytes × Bytes × Bytes × Bytes) → Parsed
  unfolding with_app
  rfc3164 headers rest none = record {
    format = codes "syslog_rfc3164";
    headers = headers;
    body = rest;
  }
  rfc3164 headers rest (some (month, day, time, host, remaining)) =
      let found =
        set (codes "syslog_host") host
          (set (codes "syslog_time") (month ++ (b' ' ∷ (day ++ (b' ' ∷ time)))) headers) in
      if str_eq remaining []
      then record { format = codes "syslog_rfc3164"; headers = found; body = [] }
      else with_app found remaining (cut (codes ": ") remaining)

  unfoldable pub parse_header : ℕ × Bytes → Result Parsed
  unfolding rfc5424 rfc3164 base_headers
  parse_header (pri, rest) =
      if has_prefix rest (codes "1 ")
      then rfc5424 (base_headers pri) (split_more 6 (codes " ") rest)
      else ok (rfc3164 (base_headers pri) rest (rfc3164_header rest))

  records_of : Result (List DecodedRecord) → List DecodedRecord
  records_of (ok rs) = rs
  records_of (err e) = []

  -- The records of a body in a format of its own; none where its decoder fails.
  unfoldable pub inner_records : Bytes → List DecodedRecord
  unfolding records_of
  inner_records b =
      if has_prefix b (codes "CEF:")
      then records_of (cef b)
      else if has_prefix b (codes "LEEF:")
      then records_of (leef b)
      else if has_prefix b (codes "{") && ends_with b (codes "}")
          || has_prefix b (codes "[") && ends_with b (codes "]")
      then records_of (json b)
      else if has_prefix b (codes "<") && ends_with b (codes ">") && not (has_prefix b (codes "<!"))
      then records_of (xml b)
      else []

  -- The fuel of the tokens is always enough.
  pub plain_record : Bytes → Parsed → Option (Result Pairs) → Result (List DecodedRecord)
  plain_record raw p none = err (invalid (codes "malformed key=value payload"))
  plain_record raw p (some (err e)) = err e
  plain_record raw p (some (ok pairs)) = ok (
      record {
        record_ordinal = 0;
        format = p.format;
        headers = p.headers;
        fields =
            insert_all p.headers (insert_pairs pairs (field (codes "message") (str p.body) end));
        raw_payload = raw;
      }
      ∷ [])

  finish : Bytes → Parsed → List DecodedRecord → Result (List DecodedRecord)
  unfolding plain_record
  finish raw p (r ∷ rs) = ok (map (wrap_inner raw p) (r ∷ rs))
  finish raw p [] = plain_record raw p (parse_key_value_tokens p.body)

  decode_parsed : Bytes → Result Parsed → Result (List DecodedRecord)
  unfolding finish inner_records
  decode_parsed raw (err e) = err e
  decode_parsed raw (ok p) =
      if leb 5 (count_where (λ c. c == b',') p.body) && not (balanced_quotes p.body)
      then err (invalid (codes "malformed syslog payload: unbalanced quoted field"))
      else finish raw p (inner_records (trim_space p.body))

  decode_priority : Bytes → Result (ℕ × Bytes) → Result (List DecodedRecord)
  unfolding decode_parsed parse_header
  decode_priority raw (err e) = err e
  decode_priority raw (ok found) = decode_parsed raw (parse_header found)

  -- `Decode`
  unfoldable pub syslog_decode : Bytes → Result (List DecodedRecord)
  unfolding decode_priority priority
  syslog_decode raw =
      if ltb max_payload_bytes (length raw)
      then err (invalid (codes "syslog payload exceeds maximum limit"))
      else decode_priority raw (priority (trim_space raw))
