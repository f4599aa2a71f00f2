-- ===== src/Decode/Syslog/Message/Bounds.antt =====
-- `Decode` of internal/decode/syslog.go: the priority of a message and where it stands in its record.
use worm.Base.{
  ℕ, ◌≡◌, ◌≤◌, List, [], ◌∷◌, Option, none, some, Bytes, codes, ◌==◌, leb, ltb, ℤ, pos, negsuc,
  length, Bool-cases, inl, inr, arith, ◌/◌, ◌%◌, drop,
}
use mathlib.Core.Path.{subst}
use worm.Store.Action.{Result, ok}
use worm.Model.{DecodedRecord}
use worm.Decode.Syslog.Message.{Parsed, number, tag, priority, cut, parse_header, syslog_decode}
use worm.Decode.Syslog.Message.Headers.{OnOk}
use worm.Decode.Syslog.Message.Origin.{IsMessage, One, AreRead, in_body, syslog_decode-Carries}

module _ (trim_space : Bytes → Bytes) (atoi : Bytes → Option ℤ)
    (rfc3164_header : Bytes → Option (Bytes × Bytes × Bytes × Bytes × Bytes))
    (cef leef json xml : Bytes → Result (List DecodedRecord)) where
  number_bound :
      (rest : Bytes) (o : Option ℤ)
      → OnOk (λ r. r.0 ≤ 191) (number trim_space atoi rfc3164_header cef leef json xml rest o)
  unfolding number
  number_bound rest none = tt
  number_bound rest (some (negsuc n)) = tt
  number_bound rest (some (pos n)) = elim (Bool-cases (leb n 191)) [
    | inl e ↦ rw (OnOk, e) (ground (arith, e))
    | inr e ↦ rw (OnOk, e) tt
  ]

  tag_bound :
      (o : Option (Bytes × Bytes))
      → OnOk (λ r. r.0 ≤ 191) (tag trim_space atoi rfc3164_header cef leef json xml o)
  unfolding tag
  tag_bound none = tt
  tag_bound (some (front, rest)) = elim (Bool-cases (ltb (length front) 2)) [
    | inl e ↦ rw (OnOk, e) tt
    | inr e ↦
        rw (OnOk, e)
          (elim (Bool-cases (ltb 5 (length front))) [
            | inl e' ↦ rw (OnOk, e') tt
            | inr e' ↦ rw (OnOk, e') (number_bound rest (atoi (drop 1 front)))
          ])
  ]

  priority_bound :
      (s : Bytes)
      → OnOk (λ r. r.0 ≤ 191) (priority trim_space atoi rfc3164_header cef leef json xml s)
  unfolding priority
  priority_bound [] = tt
  priority_bound (c ∷ s) = elim (Bool-cases (c == b'<')) [
    | inl e ↦ rw (OnOk, e) (tag_bound (cut (codes ">") (c ∷ s)))
    | inr e ↦ rw (OnOk, e) tt
  ]

  -- A priority in range, and one record that has it among its fields.
  abbrev pub Found : Bytes → List DecodedRecord → Type 0
  Found raw rs = (n : ℕ) × (n ≤ 191) × (n / 8 ≤ 23) × (n % 8 ≤ 7) × One (IsMessage n raw) rs

  -- The body of this message is in no format of its own.
  abbrev pub HasPlainBody : Bytes → Type 0
  HasPlainBody raw =
      (n : ℕ) (rest : Bytes) (p : Parsed)
      → priority trim_space atoi rfc3164_header cef leef json xml (trim_space raw) ≡ ok (n, rest)
      → parse_header trim_space atoi rfc3164_header cef leef json xml (n, rest) ≡ ok p
      → in_body trim_space atoi rfc3164_header cef leef json xml p ≡ []

  -- A Decode that succeeds of a message in whose body, behind its header, the decoders of the body
  -- find no records returns one record with the bytes that were received, and its fields give a
  -- priority of at most 191, the facility of at most 23 that is its quotient by 8, and the severity of
  -- at most 7 that is its remainder: no pair of the message overwrites them.
  pub syslog_decode-Found :
      (raw : Bytes) (rs : List DecodedRecord)
      → HasPlainBody raw
      → syslog_decode trim_space atoi rfc3164_header cef leef json xml raw ≡ ok rs
      → Found raw rs
  syslog_decode-Found raw rs plain h =
      let c = syslog_decode-Carries trim_space atoi rfc3164_header cef leef json xml raw rs h in
      let le : c.pri ≤ 191 =
        subst (OnOk (λ r. r.0 ≤ 191)) c.pri_found (priority_bound (trim_space raw)) in
      (
        c.pri,
        le,
        omega (arith, le),
        omega (arith, le),
        subst (λ is. AreRead c.pri raw is rs)
            (plain c.pri c.rest c.parsed c.pri_found c.header_found) c.are_read,
      )
