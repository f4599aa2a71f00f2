-- ===== src/Decode/Syslog/Message/Headers.antt =====
-- The header fields that `Decode` of internal/decode/syslog.go reads in each form of message.
use worm.Base.{
  ℕ, Bool, true, false, ◌≡◌, refl, ◌&&◌, List, [], ◌∷◌, Option, none, some, Bytes, codes, ℤ, pos,
  str_eq, str_eq_iff, has_prefix, ends_with, if◌then◌else◌, Bool-cases, inl, inr, arith, ◌/◌, ◌%◌,
  drop,
}
use worm.Store.Action.{Result, ok, err}
use worm.Model.{DecodedRecord}
use worm.Model.Value.{Value, Fields, end, field, int, lookup, insert, insert_all, lookup-insert}
use worm.Decode.Syslog.Structured.{split_structured_data}
use worm.Decode.Syslog.Message.{
  Parsed, base_headers, set, with_data, with_message, cut, split_more, header_fields, rfc5424,
  with_tag, with_app, rfc3164, parse_header,
}

abbrev pub OnOk : {A : Type 0} → (A → Type 0) → Result A → Type 0
OnOk P (ok a) = P a
OnOk P (err e) = Unit

-- Each key stands once.
abbrev absent : Bytes → Fields → Bool
absent k end = true
absent k (field j v m) = if str_eq j k then false else absent k m

abbrev distinct : Fields → Bool
distinct end = true
distinct (field k v m) = absent k m && distinct m

lookup-overwritten :
    (k : Bytes) (src dst : Fields)
    → distinct src ≡ true
    → lookup k (insert_all src dst) ≡ (if absent k src then lookup k dst else lookup k src)
unfolding lookup insert_all
lookup-overwritten k end dst d = refl
lookup-overwritten k (field j w m) dst d =
    let dm : distinct m ≡ true = ground (arith, d) in
    ground (
      arith,
      d,
      lookup-overwritten k m (insert j w dst) dm,
      lookup-insert j k w dst,
      str_eq_iff j k,
    )

absent-lookup : (k : Bytes) (m : Fields) → absent k m ≡ true → lookup k m ≡ none
unfolding lookup
absent-lookup k end h = refl
absent-lookup k (field j v m) h = ground (arith, h, absent-lookup k m)

-- What the headers say overwrites what the body says.
pub lookup-insert_all :
    (k : Bytes) (v : Value) (src dst : Fields)
    → distinct src ≡ true
    → lookup k src ≡ some v
    → lookup k (insert_all src dst) ≡ some v
lookup-insert_all k v src dst d h =
    ground (arith, h, lookup-overwritten k src dst d, absent-lookup k src)

-- The headers of a message of this priority.
pub record HasPriority (n : ℕ) (p : Parsed) : Type 0 where
  pub pri_is : lookup (codes "syslog_pri") p.headers ≡ some (int (pos n))
  pub facility_is : lookup (codes "syslog_facility") p.headers ≡ some (int (pos (n / 8)))
  pub severity_is : lookup (codes "syslog_severity") p.headers ≡ some (int (pos (n % 8)))
  pub once : distinct p.headers ≡ true

module _ (trim_space : Bytes → Bytes) (atoi : Bytes → Option ℤ)
    (rfc3164_header : Bytes → Option (Bytes × Bytes × Bytes × Bytes × Bytes))
    (cef leef json xml : Bytes → Result (List DecodedRecord)) (n : ℕ) where
  abbrev fields_of : Bytes → Bytes → Bytes → Bytes → Bytes → Fields
  fields_of = header_fields trim_space atoi rfc3164_header cef leef json xml (base_headers n)

  with_data-HasPriority :
      (time host app procid msgid : Bytes) (r : Result (Bytes × Bytes))
      → OnOk (HasPriority n) (
          with_data trim_space atoi rfc3164_header cef leef json xml
            (fields_of time host app procid msgid)
            r)
  unfolding with_data header_fields base_headers insert lookup str_eq
  with_data-HasPriority time host app procid msgid (err e) = tt
  with_data-HasPriority time host app procid msgid (ok (sd, message)) = record {
    pri_is = refl;
    facility_is = refl;
    severity_is = refl;
    once = refl;
  }

  with_message-HasPriority :
      (time host app procid msgid s : Bytes)
      → OnOk (HasPriority n) (
          with_message trim_space atoi rfc3164_header cef leef json xml
            (fields_of time host app procid msgid)
            s)
  unfolding with_message header_fields base_headers insert lookup str_eq
  with_message-HasPriority time host app procid msgid s =
      let found = with_data-HasPriority time host app procid msgid in
      elim (Bool-cases (has_prefix s (codes "- "))) [
        | inl e ↦ rw (OnOk, e) (found (ok (codes "-", drop 2 s)))
        | inr e ↦
            rw (OnOk, e)
              (elim (Bool-cases (str_eq s (codes "-"))) [
                | inl e' ↦ rw (OnOk, e') (found (ok (codes "-", [])))
                | inr e' ↦
                    rw (OnOk, e')
                      (elim (Bool-cases (has_prefix s (codes "["))) [
                        | inl e'' ↦ rw (OnOk, e'') (found (split_structured_data trim_space s))
                        | inr e'' ↦
                            rw (OnOk, e'')
                              (record {
                                pri_is = refl;
                                facility_is = refl;
                                severity_is = refl;
                                once = refl;
                              })
                      ])
              ])
      ]

  rfc5424-HasPriority :
      (parts : List Bytes)
      → OnOk
          (HasPriority n)
          (rfc5424 trim_space atoi rfc3164_header cef leef json xml (base_headers n) parts)
  unfolding rfc5424 header_fields base_headers insert lookup str_eq
  rfc5424-HasPriority [] = tt
  rfc5424-HasPriority (a ∷ []) = tt
  rfc5424-HasPriority (a ∷ b ∷ []) = tt
  rfc5424-HasPriority (a ∷ b ∷ c ∷ []) = tt
  rfc5424-HasPriority (a ∷ b ∷ c ∷ d ∷ []) = tt
  rfc5424-HasPriority (a ∷ b ∷ c ∷ d ∷ e ∷ []) = tt
  rfc5424-HasPriority (version ∷ time ∷ host ∷ app ∷ procid ∷ msgid ∷ []) = record {
    pri_is = refl;
    facility_is = refl;
    severity_is = refl;
    once = refl;
  }
  rfc5424-HasPriority (version ∷ time ∷ host ∷ app ∷ procid ∷ msgid ∷ s ∷ more) =
      with_message-HasPriority time host app procid msgid s

  with_tag-HasPriority :
      (time host app message : Bytes) (o : Option (Bytes × Bytes))
      → HasPriority n (record {
        format = codes "syslog_rfc3164";
        headers =
            with_tag trim_space atoi rfc3164_header cef leef json xml
              (set (codes "syslog_host") host (set (codes "syslog_time") time (base_headers n)))
              app
              o;
        body = message;
      })
  unfolding with_tag base_headers insert lookup str_eq
  with_tag-HasPriority time host app message none = record {
    pri_is = refl;
    facility_is = refl;
    severity_is = refl;
    once = refl;
  }
  with_tag-HasPriority time host app message (some (name, pid)) =
      elim (Bool-cases (ends_with app (codes "]"))) [
        | inl e ↦
            rw e (record { pri_is = refl; facility_is = refl; severity_is = refl; once = refl })
        | inr e ↦
            rw e (record { pri_is = refl; facility_is = refl; severity_is = refl; once = refl })
      ]

  with_app-HasPriority :
      (time host remaining : Bytes) (o : Option (Bytes × Bytes))
      → HasPriority n (
          with_app trim_space atoi rfc3164_header cef leef json xml
            (set (codes "syslog_host") host (set (codes "syslog_time") time (base_headers n)))
            remaining
            o)
  unfolding with_app base_headers insert lookup str_eq
  with_app-HasPriority time host remaining none = record {
    pri_is = refl;
    facility_is = refl;
    severity_is = refl;
    once = refl;
  }
  with_app-HasPriority time host remaining (some (app, message)) =
      with_tag-HasPriority time host app message (cut (codes "[") app)

  rfc3164-HasPriority :
      (rest : Bytes) (o : Option (Bytes × Bytes × Bytes × Bytes × Bytes))
      → HasPriority n
          (rfc3164 trim_space atoi rfc3164_header cef leef json xml (base_headers n) rest o)
  unfolding rfc3164 with_app base_headers insert lookup str_eq
  rfc3164-HasPriority rest none = record {
    pri_is = refl;
    facility_is = refl;
    severity_is = refl;
    once = refl;
  }
  rfc3164-HasPriority rest (some (month, day, time, host, remaining)) =
      elim (Bool-cases (str_eq remaining [])) [
        | inl e ↦
            rw e (record { pri_is = refl; facility_is = refl; severity_is = refl; once = refl })
        | inr e ↦ rw e (with_app-HasPriority _ host remaining (cut (codes ": ") remaining))
      ]

  pub parse_header-HasPriority :
      (rest : Bytes)
      → OnOk
          (HasPriority n)
          (parse_header trim_space atoi rfc3164_header cef leef json xml (n, rest))
  unfolding parse_header
  parse_header-HasPriority rest = elim (Bool-cases (has_prefix rest (codes "1 "))) [
    | inl e ↦ rw (OnOk, e) (rfc5424-HasPriority (split_more 6 (codes " ") rest))
    | inr e ↦ rw (OnOk, e) (rfc3164-HasPriority rest (rfc3164_header rest))
  ]
