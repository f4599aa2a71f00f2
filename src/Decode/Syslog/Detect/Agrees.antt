-- ===== src/Decode/Syslog/Detect/Agrees.antt =====
-- `Detect` and `Decode` of internal/decode/syslog.go: what they take for a priority.
use worm.Base.{
  Bool, true, false, ◌≡◌, refl, List, [], ◌∷◌, Option, none, some, Bytes, codes, ◌==◌, leb, ltb,
  length, drop, ℤ, pos, negsuc, Bool-cases, inl, inr, arith,
}
use worm.Store.Action.{Result, ok, err}
use worm.Model.{DecodedRecord}
use worm.Decode.Syslog.Tokens.{span, space}
use worm.Decode.Syslog.Message.{cut, priority, tag, number}
use worm.Decode.Syslog.Detect.{
  variant_confidence, number_confidence, tag_confidence, start_confidence, trimmed_confidence,
  syslog_detect,
}

abbrev pub is_ok : {A : Type 0} → Result A → Bool
is_ok (ok a) = true
is_ok (err e) = false

variant_claimed : (rest : Bytes) → leb 50 (variant_confidence rest) ≡ true
unfolding variant_confidence
variant_claimed rest = ground arith

module _ (trim_space : Bytes → Bytes) (atoi : Bytes → Option ℤ)
    (rfc3164_header : Bytes → Option (Bytes × Bytes × Bytes × Bytes × Bytes))
    (cef leef json xml : Bytes → Result (List DecodedRecord)) where
  number_agrees :
      (rest : Bytes) (o : Option ℤ)
      → leb 50 (number_confidence atoi rest o)
        ≡ is_ok (number trim_space atoi rfc3164_header cef leef json xml rest o)
  unfolding number_confidence number
  number_agrees rest none = refl
  number_agrees rest (some (negsuc n)) = refl
  number_agrees rest (some (pos n)) = elim (Bool-cases (leb n 191)) [
    | inl e ↦ rw e (variant_claimed rest)
    | inr e ↦ rw e refl
  ]

  tag_agrees :
      (o : Option (Bytes × Bytes))
      → leb 50 (tag_confidence atoi o)
        ≡ is_ok (tag trim_space atoi rfc3164_header cef leef json xml o)
  unfolding tag_confidence tag
  tag_agrees none = refl
  tag_agrees (some (front, rest)) = elim (Bool-cases (ltb (length front) 2)) [
    | inl e ↦ rw e refl
    | inr e ↦ rw e (elim (Bool-cases (ltb 5 (length front))) [
      | inl e' ↦ rw e' refl
      | inr e' ↦ rw e' (number_agrees rest (atoi (drop 1 front)))
    ])
  ]

  start_agrees :
      (s : Bytes)
      → leb 50 (start_confidence atoi s)
        ≡ is_ok (priority trim_space atoi rfc3164_header cef leef json xml s)
  unfolding start_confidence priority
  start_agrees [] = refl
  start_agrees (c ∷ s) = elim (Bool-cases (c == b'<')) [
    | inl e ↦ rw e (tag_agrees (cut (codes ">") (c ∷ s)))
    | inr e ↦ rw e refl
  ]

  -- Of a text that has at least four bytes behind its leading spaces, the confidence of Detect
  -- reaches the 0.50 with which the registry takes a decoder up exactly where Decode accepts the
  -- priority of that text, if nothing but these spaces is trimmed from it.
  pub syslog_detect-priority :
      (raw : Bytes)
      → ltb (length (span space raw).1) 4 ≡ false
      → trim_space raw ≡ (span space raw).1
      → leb 50 (syslog_detect atoi raw)
        ≡ is_ok (priority trim_space atoi rfc3164_header cef leef json xml (trim_space raw))
  unfolding syslog_detect trimmed_confidence
  syslog_detect-priority raw long trimmed = rw (long, trimmed) (start_agrees (span space raw).1)
