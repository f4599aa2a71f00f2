-- ===== src/Decode/Syslog/Message/Origin.antt =====
-- `Decode` of internal/decode/syslog.go: what its records carry of the message they were read from.
use worm.Base.{
  ℕ, ◌≡◌, refl, ◌&&◌, not, List, [], ◌∷◌, Option, none, some, Bytes, codes, ◌==◌, leb, ltb, ℤ, pos,
  length, map, Bool-cases, inl, inr, ◌/◌, ◌%◌, count_where,
}
use mathlib.Core.Path.{subst}
use worm.Store.Action.{Result, ok, err}
use worm.Model.{DecodedRecord}
use worm.Model.Value.{int, lookup}
use worm.Decode.Syslog.Tokens.{Pairs, parse_key_value_tokens}
use worm.Decode.Syslog.Structured.{balanced_quotes}
use worm.Decode.Syslog.Message.{
  Parsed, wrap_inner, priority, parse_header, inner_records, plain_record, finish, decode_parsed,
  decode_priority, syslog_decode, max_payload_bytes,
}
use worm.Decode.Syslog.Message.Headers.{
  OnOk, HasPriority, parse_header-HasPriority, lookup-insert_all,
}
use worm.Decode.Syslog.Message.Missing.{value_or, lookup-add_missing}

-- A record of a message, whose fields are those of the header where the body has the same names.
pub record IsMessage (n : ℕ) (raw : Bytes) (r : DecodedRecord) : Type 0 where
  pub payload_is : r.raw_payload ≡ raw
  pub pri_is : lookup (codes "syslog_pri") r.fields ≡ some (int (pos n))
  pub facility_is : lookup (codes "syslog_facility") r.fields ≡ some (int (pos (n / 8)))
  pub severity_is : lookup (codes "syslog_severity") r.fields ≡ some (int (pos (n % 8)))

-- A record that the decoder of the body made, in the message: a key of the priority that the body has
-- keeps the body's value, and any other one has the value of the message.
pub record IsWrapped (n : ℕ) (raw : Bytes) (inner r : DecodedRecord) : Type 0 where
  pub payload_is : r.raw_payload ≡ raw
  pub pri_is :
      lookup (codes "syslog_pri") r.fields
      ≡ some (value_or (lookup (codes "syslog_pri") inner.fields) (int (pos n)))
  pub facility_is :
      lookup (codes "syslog_facility") r.fields
      ≡ some (value_or (lookup (codes "syslog_facility") inner.fields) (int (pos (n / 8))))
  pub severity_is :
      lookup (codes "syslog_severity") r.fields
      ≡ some (value_or (lookup (codes "syslog_severity") inner.fields) (int (pos (n % 8))))

abbrev pub One : (DecodedRecord → Type 0) → List DecodedRecord → Type 0
One P [] = ⊥
One P (r ∷ []) = P r
One P (r ∷ s ∷ rs) = ⊥

abbrev pub AreWrapped : ℕ → Bytes → List DecodedRecord → List DecodedRecord → Type 0
AreWrapped n raw [] [] = Unit
AreWrapped n raw (i ∷ is) (r ∷ rs) = IsWrapped n raw i r × AreWrapped n raw is rs
AreWrapped n raw _ _ = ⊥

-- The records of a message whose body has these records in a format of its own: one for each of
-- them, or the one of the message where there is none.
abbrev pub AreRead : ℕ → Bytes → List DecodedRecord → List DecodedRecord → Type 0
AreRead n raw [] rs = One (IsMessage n raw) rs
AreRead n raw (i ∷ is) rs = AreWrapped n raw (i ∷ is) rs

module _ (trim_space : Bytes → Bytes) (atoi : Bytes → Option ℤ)
    (rfc3164_header : Bytes → Option (Bytes × Bytes × Bytes × Bytes × Bytes))
    (cef leef json xml : Bytes → Result (List DecodedRecord)) where
  pub plain_record-IsMessage :
      (n : ℕ) (raw : Bytes) (p : Parsed) (o : Option (Result Pairs))
      → HasPriority n p
      → OnOk
          (One (IsMessage n raw))
          (plain_record trim_space atoi rfc3164_header cef leef json xml raw p o)
  unfolding plain_record
  plain_record-IsMessage n raw p none h = tt
  plain_record-IsMessage n raw p (some (err e)) h = tt
  plain_record-IsMessage n raw p (some (ok pairs)) h = record {
    payload_is = refl;
    pri_is = lookup-insert_all _ _ p.headers _ h.once h.pri_is;
    facility_is = lookup-insert_all _ _ p.headers _ h.once h.facility_is;
    severity_is = lookup-insert_all _ _ p.headers _ h.once h.severity_is;
  }

  wrap_inner-IsWrapped :
      (n : ℕ) (raw : Bytes) (p : Parsed) (r : DecodedRecord)
      → HasPriority n p
      → IsWrapped n raw r (wrap_inner raw p r)
  unfolding wrap_inner
  wrap_inner-IsWrapped n raw p r h = record {
    payload_is = refl;
    pri_is = lookup-add_missing _ _ p.headers _ h.pri_is;
    facility_is = lookup-add_missing _ _ p.headers _ h.facility_is;
    severity_is = lookup-add_missing _ _ p.headers _ h.severity_is;
  }

  wrapped-AreWrapped :
      (n : ℕ) (raw : Bytes) (p : Parsed) (rs : List DecodedRecord)
      → HasPriority n p
      → AreWrapped n raw rs (map (wrap_inner raw p) rs)
  wrapped-AreWrapped n raw p [] h = tt
  wrapped-AreWrapped n raw p (r ∷ rs) h =
      (wrap_inner-IsWrapped n raw p r h, wrapped-AreWrapped n raw p rs h)

  finish-AreRead :
      (n : ℕ) (raw : Bytes) (p : Parsed) (is : List DecodedRecord)
      → HasPriority n p
      → OnOk (AreRead n raw is) (finish trim_space atoi rfc3164_header cef leef json xml raw p is)
  unfolding finish
  finish-AreRead n raw p [] h = plain_record-IsMessage n raw p (parse_key_value_tokens p.body) h
  finish-AreRead n raw p (i ∷ is) h = wrapped-AreWrapped n raw p (i ∷ is) h

  -- The records that the decoders find in the body.
  abbrev pub in_body : Parsed → List DecodedRecord
  in_body p = inner_records trim_space atoi rfc3164_header cef leef json xml (trim_space p.body)

  -- The message has a priority and a header, and these are the records of its body.
  pub record Carries (raw : Bytes) (rs : List DecodedRecord) : Type 0 where
    pub pri : ℕ
    pub rest : Bytes
    pub parsed : Parsed
    pub pri_found :
        priority trim_space atoi rfc3164_header cef leef json xml (trim_space raw) ≡ ok (pri, rest)
    pub header_found :
        parse_header trim_space atoi rfc3164_header cef leef json xml (pri, rest) ≡ ok parsed
    pub are_read : AreRead pri raw (in_body parsed) rs

  decode_parsed-AreRead :
      (n : ℕ) (raw : Bytes) (p : Parsed)
      → HasPriority n p
      → OnOk
          (AreRead n raw (in_body p))
          (decode_parsed trim_space atoi rfc3164_header cef leef json xml raw (ok p))
  unfolding decode_parsed
  decode_parsed-AreRead n raw p h =
      elim (Bool-cases
        (leb 5 (count_where (λ c. c == b',') p.body) && not (balanced_quotes p.body))) [
          | inl e ↦ rw (OnOk, e) tt
          | inr e ↦ rw (OnOk, e) (finish-AreRead n raw p (in_body p) h)
        ]

  decode_parsed-Carries :
      (n : ℕ) (rest raw : Bytes) (r : Result Parsed)
      → priority trim_space atoi rfc3164_header cef leef json xml (trim_space raw) ≡ ok (n, rest)
      → parse_header trim_space atoi rfc3164_header cef leef json xml (n, rest) ≡ r
      → OnOk (HasPriority n) r
      → OnOk (Carries raw) (decode_parsed trim_space atoi rfc3164_header cef leef json xml raw r)
  decode_parsed-Carries n rest raw (err e) q q' h = unfold decode_parsed in tt
  decode_parsed-Carries n rest raw (ok p) q q' h =
      carried (decode_parsed trim_space atoi rfc3164_header cef leef json xml raw (ok p))
        (decode_parsed-AreRead n raw p h)
    where
      carried :
          (x : Result (List DecodedRecord))
          → OnOk (AreRead n raw (in_body p)) x
          → OnOk (Carries raw) x
      carried (err e) a = tt
      carried (ok rs) a = record {
        pri = n;
        rest = rest;
        parsed = p;
        pri_found = q;
        header_found = q';
        are_read = a;
      }

  decode_priority-Carries :
      (raw : Bytes) (r : Result (ℕ × Bytes))
      → priority trim_space atoi rfc3164_header cef leef json xml (trim_space raw) ≡ r
      → OnOk (Carries raw) (decode_priority trim_space atoi rfc3164_header cef leef json xml raw r)
  unfolding decode_priority
  decode_priority-Carries raw (err e) q = tt
  decode_priority-Carries raw (ok (n, rest)) q =
      decode_parsed-Carries n rest raw _ q refl
        (parse_header-HasPriority trim_space atoi rfc3164_header cef leef json xml n rest)

  -- A Decode that succeeds has read a priority n and a header from the message. Where the decoders of
  -- the body find no records in the body behind that header, it returns one record with the priority
  -- n, the facility n / 8 and the severity n % 8 among its fields; else it returns one for each of
  -- their records in order, with these values of n for the keys that the record from the body has not
  -- got, and the body's value for a key that it has. Every record has the bytes that were received.
  pub syslog_decode-Carries :
      (raw : Bytes) (rs : List DecodedRecord)
      → syslog_decode trim_space atoi rfc3164_header cef leef json xml raw ≡ ok rs
      → Carries raw rs
  unfolding syslog_decode
  syslog_decode-Carries raw rs h =
      subst (OnOk (Carries raw)) h (elim (Bool-cases (ltb max_payload_bytes (length raw))) [
        | inl e ↦ rw (OnOk, e) tt
        | inr e ↦ rw (OnOk, e) (decode_priority-Carries raw _ refl)
      ])
