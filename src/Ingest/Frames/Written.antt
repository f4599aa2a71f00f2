-- ===== src/Ingest/Frames/Written.antt =====
-- Messages as a sender frames them for syslog over TCP (RFC 6587), and what the functions on text
-- that internal/ingest/syslog.go calls make of them.
use worm.Base.{
  ℕ, ◌+◌, ◌*◌, ◌-◌, ◌≤◌, ◌≡◌, refl, ◌∙◌, ap, Bool, true, false, List, [], ◌∷◌, ◌++◌, none, some,
  Bytes, length, take, drop, is_digit, digits, drop_space, trim_space_right, drop_newline,
  trim_newlines, append-nil, Bool-cases, inl, inr, arith,
}
use worm.Ingest.Frames.{starts_count}
use worm.Ingest.Frames.Lines.{Without}
use worm.Ingest.Frames.Rounds.{IsPayload}

-- A payload behind its length, or in front of a line break.
pub data Message : Type 0 where
  behind_length : Bytes → Bytes → Message
  on_line : Bytes → Bool → Message

abbrev pub payload_of : Message → Bytes
payload_of (behind_length header payload) = payload
payload_of (on_line payload crlf) = payload

abbrev pub line_break : Bool → Bytes
line_break true = b'\r' ∷ []
line_break false = []

abbrev pub framed : Message → Bytes → Bytes
framed (behind_length header payload) rest = header ++ (b' ' ∷ (payload ++ rest))
framed (on_line payload crlf) rest = (payload ++ line_break crlf) ++ (b'\n' ∷ rest)

abbrev pub all_framed : List Message → Bytes
all_framed [] = []
all_framed (m ∷ ms) = framed m (all_framed ms)

abbrev pub BeginsCount : Bool → Bytes → Type 0
BeginsCount b [] = ⊥
BeginsCount b (c ∷ s) = starts_count c ≡ b

-- The length is in decimal digits with no zero in front; a payload on a line of its own begins with
-- no such digit, has no line feed in it and no carriage return at its end.
abbrev pub IsFramed : Message → Type 0
IsFramed (behind_length header payload) =
    IsPayload payload
    × BeginsCount true header
    × (length header ≤ 15)
    × (digits 0 header ≡ some (length payload))
IsFramed (on_line payload crlf) =
    IsPayload payload
    × BeginsCount false payload
    × Without b'\n' payload
    × (trim_newlines payload ≡ payload)

abbrev pub AreFramed : List Message → Type 0
AreFramed [] = Unit
AreFramed (m ∷ ms) = IsFramed m × AreFramed ms

abbrev pub AllDigits : Bytes → Type 0
AllDigits [] = Unit
AllDigits (c ∷ s) = (is_digit c ≡ true) × AllDigits s

pub digits-AllDigits : (n m : ℕ) (s : Bytes) → digits n s ≡ some m → AllDigits s
unfolding digits
digits-AllDigits n m [] h = tt
digits-AllDigits n m (c ∷ s) h = elim (Bool-cases (is_digit c)) [
  | inl e ↦ (e, digits-AllDigits (n * 10 + (c - 48)) m s (rw (digits, e) at h))
  | inr e ↦ let h' : none ≡ some m = rw (digits, e) at h in cc
]

pub AllDigits-Without : (s : Bytes) → AllDigits s → Without b' ' s
AllDigits-Without [] h = tt
AllDigits-Without (c ∷ s) h = let d = h.0 in (ground arith, AllDigits-Without s h.1)

drop_space-digit : (c : ℕ) (s : Bytes) → is_digit c ≡ true → drop_space c s ≡ c ∷ s
drop_space-digit c [] h = ground arith
drop_space-digit c (a ∷ []) h = ground arith
drop_space-digit c (a ∷ b ∷ []) h = ground arith
drop_space-digit c (a ∷ b ∷ d ∷ s) h = refl

pub trim_space_right-append : (s : Bytes) → AllDigits s → trim_space_right (s ++ (b' ' ∷ [])) ≡ s
unfolding trim_space_right
trim_space_right-append [] h = refl
trim_space_right-append (c ∷ s) h =
    ap (drop_space c) (trim_space_right-append s h.1) ∙ drop_space-digit c s h.0

pub trim_newlines-append : (s : Bytes) → trim_newlines (s ++ (b'\n' ∷ [])) ≡ trim_newlines s
unfolding trim_newlines
trim_newlines-append [] = refl
trim_newlines-append (c ∷ s) = ap (drop_newline c) (trim_newlines-append s)

pub trim_newlines-line_break :
    (s : Bytes) (crlf : Bool) → trim_newlines (s ++ line_break crlf) ≡ trim_newlines s
unfolding trim_newlines
trim_newlines-line_break s false = ap trim_newlines (append-nil s)
trim_newlines-line_break [] true = refl
trim_newlines-line_break (c ∷ s) true = ap (drop_newline c) (trim_newlines-line_break s true)

pub take-append : {A : Type 0} (s t : List A) → take (length s) (s ++ t) ≡ s
take-append [] t = refl
take-append (x ∷ s) t = ap (λ r. x ∷ r) (take-append s t)

pub drop-append : {A : Type 0} (s t : List A) → drop (length s) (s ++ t) ≡ t
drop-append [] t = refl
drop-append (x ∷ s) t = drop-append s t
