-- ===== src/Ingest/Frames/Rounds.antt =====
-- The rounds of `handleTCPConn` of internal/ingest/syslog.go: what each sends and how far it gets.
use worm.Base.{
  ℕ, zero, suc, ◌+◌, ◌≤◌, ◌<◌, ◌≡◌, refl, ap, Bool, true, false, List, [], ◌∷◌, Option, none, some,
  Bytes, ◌||◌, ltb, leb, length, take, drop, if◌then◌else◌, atoi, trim_space_right, trim_newlines,
  Bool-cases, inl, inr, arith,
}
use worm.Ingest.Frames.{
  Round, ends, skips, sends, read_full, with_length, counted, with_payload, plain, round_of,
  starts_count, next_round, is_done, later, play, rounds, max_syslog_frame_bytes, sent_before,
}
use worm.Ingest.Frames.Lines.{
  Line, line_of, within, read_bounded_frame-line, line_of-length, line_of-nonempty,
}

-- A payload that a connection may send.
pub record IsPayload (payload : Bytes) : Type 0 where
  pub nonempty : 1 ≤ length payload
  pub bounded : length payload ≤ max_syslog_frame_bytes

-- A round that reads on from `n` bytes has fewer behind it, and sends no other payloads.
abbrev pub IsForward : ℕ → Round → Type 0
IsForward n ends = Unit
IsForward n (skips rest) = length rest < n
IsForward n (sends payload last rest) = IsPayload payload × (length rest < n)

take-length : {A : Type 0} (n : ℕ) (s : List A) → n ≤ length s → length (take n s) ≡ n
take-length zero s h = refl
take-length (suc n) [] h = absurd (omega (arith, h))
take-length (suc n) (x ∷ s) h = omega (arith, take-length n s (omega (arith, h)))

drop-le : {A : Type 0} (n : ℕ) (s : List A) → length (drop n s) ≤ length s
drop-le zero s = omega arith
drop-le (suc n) [] = omega arith
drop-le (suc n) (x ∷ s) = omega (arith, drop-le n s)

-- A guard that returns.
guarded-IsForward :
    (b : Bool) (n : ℕ) (x : Round)
    → (b ≡ false → IsForward n x)
    → IsForward n (if b then ends else x)
guarded-IsForward true n x h = tt
guarded-IsForward false n x h = h refl

read_full-IsForward :
    (k n : ℕ) (rest : Bytes)
    → 1 ≤ k
    → k ≤ max_syslog_frame_bytes
    → length rest < n
    → IsForward n (read_full k rest)
read_full-IsForward k n rest low high h = guarded-IsForward (ltb (length rest) k) n _ λ e.
    let enough : k ≤ length rest = ground arith in
    let l = take-length k rest enough in
    (
      record { nonempty = omega (arith, l); bounded = omega (arith, l, high) },
      omega (arith, drop-le k rest),
    )

with_length-IsForward :
    (o : Option ℕ) (n : ℕ) (rest : Bytes) → length rest < n → IsForward n (with_length o rest)
with_length-IsForward none n rest h = tt
with_length-IsForward (some k) n rest h =
    guarded-IsForward (leb k 0 || ltb max_syslog_frame_bytes k) n _
      λ e. read_full-IsForward k n rest (ground arith) (ground arith) h

counted-IsForward :
    (l : Line) (max n : ℕ) → length l.rest < n → IsForward n (counted (within max l))
unfolding counted
counted-IsForward l max n h = elim (Bool-cases (ltb max (length l.text))) [
  | inl e ↦ rw (counted, e) tt
  | inr e ↦ elim (Bool-cases l.ended) [
    | inl e' ↦ rw (e, e') tt
    | inr e' ↦ rw (e, e') (with_length-IsForward (atoi (trim_space_right l.text)) n l.rest h)
  ]
]

with_payload-IsForward :
    (payload : Bytes) (failed : Bool) (n : ℕ) (rest : Bytes)
    → length rest < n
    → IsForward n (with_payload payload failed rest)
with_payload-IsForward [] failed n rest h = guarded-IsForward failed n _ λ e. h
with_payload-IsForward (c ∷ payload) failed n rest h =
    guarded-IsForward (ltb max_syslog_frame_bytes (length (c ∷ payload))) n _
      λ e. (record { nonempty = omega arith; bounded = ground arith }, h)

plain-IsForward :
    (text : Bytes) (failed : Bool) (rest : Bytes) (max n : ℕ)
    → 1 ≤ length text
    → length rest < n
    → IsForward n (plain (within max (record { text = text; ended = failed; rest = rest })))
unfolding plain
plain-IsForward [] failed rest max n full h = absurd (omega (arith, full))
plain-IsForward (c ∷ text) failed rest max n full h =
    elim (Bool-cases (ltb max (length (c ∷ text)))) [
      | inl e ↦ rw (plain, e) tt
      | inr e ↦ rw (plain, e) (with_payload-IsForward (trim_newlines (c ∷ text)) failed n rest h)
    ]

-- What a round does, in terms of the line that it reads.
abbrev pub line_round : ℕ → Bytes → Round
line_round c s =
    if starts_count c
    then counted (within 16 (line_of b' ' s))
    else plain (within (max_syslog_frame_bytes + 2) (line_of b'\n' s))

pub next_round-line : (c : ℕ) (s : Bytes) → next_round (c ∷ s) ≡ some (line_round c (c ∷ s))
unfolding next_round
next_round-line c s = elim (Bool-cases (starts_count c)) [
  | inl e ↦ rw (next_round, e) (ap (round_of counted) (read_bounded_frame-line b' ' 16 (c ∷ s)))
  | inr e ↦
      rw (next_round, e)
        (ap (round_of plain) (read_bounded_frame-line b'\n' (max_syslog_frame_bytes + 2) (c ∷ s)))
]

line_of-shorter :
    (delimiter c : ℕ) (s : Bytes) → length (line_of delimiter (c ∷ s)).rest < length (c ∷ s)
line_of-shorter delimiter c s =
    omega (arith, line_of-length delimiter (c ∷ s), line_of-nonempty delimiter c s)

line_round-IsForward : (c : ℕ) (s : Bytes) → IsForward (length (c ∷ s)) (line_round c (c ∷ s))
line_round-IsForward c s = elim (Bool-cases (starts_count c)) [
  | inl e ↦ rw (e) (counted-IsForward (line_of b' ' (c ∷ s)) 16 _ (line_of-shorter b' ' c s))
  | inr e ↦ rw (e) (
      plain-IsForward _ _ _ (max_syslog_frame_bytes + 2) _ (line_of-nonempty b'\n' c s)
        (line_of-shorter b'\n' c s))
]

-- What is known of the round over a text.
abbrev pub FoundRound : Bytes → Type 0
FoundRound s = (x : Round) × (next_round s ≡ some x) × IsForward (length s) x

pub next_round-IsForward : (s : Bytes) → FoundRound s
next_round-IsForward [] = unfold next_round in (ends, refl, tt)
next_round-IsForward (c ∷ s) = (line_round c (c ∷ s), next_round-line c s, line_round-IsForward c s)

abbrev pub ArePayloads : List Bytes → Type 0
ArePayloads [] = Unit
ArePayloads (payload ∷ rest) = IsPayload payload × ArePayloads rest

abbrev pub Sent : Option (List Bytes) → Type 0
Sent o = (ps : List Bytes) × (o ≡ some ps) × ArePayloads ps

sent_before-Sent :
    (payload : Bytes) (o : Option (List Bytes))
    → IsPayload payload
    → Sent o
    → Sent (sent_before payload o)
sent_before-Sent payload o p (ps, e, all) = (payload ∷ ps, ap (sent_before payload) e, (p, all))

play-Sent :
    (n : ℕ) (next : List Bool → Bytes → Option (List Bytes)) (ctx : List Bool) (x : Round)
    → ((ctx' : List Bool) (rest : Bytes) → length rest < n → Sent (next ctx' rest))
    → IsForward n x
    → Sent (play next ctx (some x))
play-Sent n next ctx ends goes_on h = ([], refl, tt)
play-Sent n next ctx (skips rest) goes_on h = goes_on ctx rest h
play-Sent n next ctx (sends payload last rest) goes_on h = elim (Bool-cases (is_done ctx)) [
  | inl e ↦ rw (play, e) ([], refl, tt)
  | inr e ↦ elim (Bool-cases last) [
    | inl e' ↦ rw (play, e, e') (payload ∷ [], refl, (h.0, tt))
    | inr e' ↦ rw (play, e, e') (sent_before-Sent payload _ h.0 (goes_on (later ctx) rest h.1))
  ]
]

-- With fuel for more rounds than there are bytes the loop ends, and all that it sends are payloads.
pub rounds-Sent : (n : ℕ) (ctx : List Bool) (s : Bytes) → length s < n → Sent (rounds n ctx s)
unfolding rounds
rounds-Sent zero ctx s h = absurd (omega (arith, h))
rounds-Sent (suc n) ctx s h = elim (Bool-cases (is_done ctx)) [
  | inl e ↦ rw (rounds, e) ([], refl, tt)
  | inr e ↦
      let (x, found, forward) = next_round-IsForward s in
      rw (rounds, e, found)
        (play-Sent (length s) (rounds n) (later ctx) x
          (λ ctx' rest h'. rounds-Sent n ctx' rest (omega (arith, h, h'))) forward)
]
