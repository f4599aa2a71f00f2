-- ===== src/Ingest/Frames/RoundTrip.antt =====
-- `handleTCPConn` of internal/ingest/syslog.go over messages as a sender frames them.
use mathlib.Core.Option
use worm.Base.{
  ℕ, zero, suc, ◌+◌, ◌≤◌, ◌<◌, ◌≡◌, refl, sym, ◌∙◌, ap, Bool, true, false, ◌||◌, List, [], ◌∷◌,
  ◌++◌, map, some, Bytes, ltb, leb, length, if◌then◌else◌, digits, atoi, trim_newlines,
  length-append, append_assoc, arith,
}
use worm.Ingest.Frames.{
  Peer, Round, ends, frame, sends, read_full, with_length, counted, with_payload, plain, next_round,
  rounds, sent_before, play, syslog_records, handle_tcp_conn, max_syslog_frame_bytes,
}
use worm.Ingest.Frames.Lines.{line_of, within, Without, line_of-append, within_small}
use worm.Ingest.Frames.Rounds.{IsPayload, next_round-line}
use worm.Ingest.Frames.Written.{
  Message, behind_length, on_line, payload_of, line_break, framed, all_framed, BeginsCount,
  IsFramed, AreFramed, digits-AllDigits, AllDigits-Without, trim_space_right-append,
  trim_newlines-append, trim_newlines-line_break, take-append, drop-append,
}

-- A guard that lets a round go on.
passed : (b : Bool) (x y : Round) → b ≡ false → (if b then x else y) ≡ y
passed b x y h = rw h refl

ltb-append : (s t : Bytes) → ltb (length (s ++ t)) (length s) ≡ false
ltb-append s t = let l = length-append s t in ground arith

read_full-append :
    (payload rest : Bytes) → read_full (length payload) (payload ++ rest) ≡ sends payload false rest
read_full-append payload rest =
    rw (take-append, drop-append)
      (passed (ltb (length (payload ++ rest)) (length payload)) ends _ (ltb-append payload rest))

with_length-payload :
    (payload rest : Bytes)
    → IsPayload payload
    → with_length (some (length payload)) (payload ++ rest) ≡ sends payload false rest
with_length-payload payload rest h =
    let low = h.nonempty in
    let high = h.bounded in
    passed (leb (length payload) 0 || ltb max_syslog_frame_bytes (length payload)) ends _
      (ground arith)
    ∙ read_full-append payload rest

atoi-digits : (header : Bytes) → BeginsCount true header → atoi header ≡ digits 0 header
unfolding atoi
atoi-digits [] h = absurd h
atoi-digits (c ∷ s) h = refl

counted-header :
    (header payload rest : Bytes)
    → IsFramed (behind_length header payload)
    → counted (within 16 (line_of b' ' (header ++ (b' ' ∷ (payload ++ rest)))))
      ≡ sends payload false rest
unfolding counted
counted-header header payload rest (p, starts, short, value) =
    let d = digits-AllDigits 0 _ header value in
    ap (λ l. counted (within 16 l))
      (line_of-append b' ' header (payload ++ rest) (AllDigits-Without header d))
    ∙ ap counted (
        within_small 16
          (record { text = header ++ (b' ' ∷ []); ended = false; rest = payload ++ rest })
          (omega (arith, short, length-append header (b' ' ∷ []))))
    ∙ ap (λ t. with_length (atoi t) (payload ++ rest)) (trim_space_right-append header d)
    ∙ ap (λ o. with_length o (payload ++ rest)) (atoi-digits header starts ∙ value)
    ∙ with_length-payload payload rest p

with_payload-payload :
    (payload rest : Bytes)
    → IsPayload payload
    → with_payload payload false rest ≡ sends payload false rest
with_payload-payload [] rest h = absurd (omega (arith, h.nonempty))
with_payload-payload (c ∷ payload) rest h =
    let high = h.bounded in
    passed (ltb max_syslog_frame_bytes (length (c ∷ payload))) ends _ (ground arith)

plain-text :
    (text : Bytes) (rest : Bytes)
    → 1 ≤ length text
    → plain (frame text false rest) ≡ with_payload (trim_newlines text) false rest
unfolding plain
plain-text [] rest h = absurd (omega (arith, h))
plain-text (c ∷ text) rest h = refl

Without-line_break :
    (s : Bytes) (crlf : Bool) → Without b'\n' s → Without b'\n' (s ++ line_break crlf)
Without-line_break [] true h = (refl, tt)
Without-line_break [] false h = tt
Without-line_break (c ∷ s) crlf h = (h.0, Without-line_break s crlf h.1)

length-line_break :
    (s : Bytes) (crlf : Bool) → length ((s ++ line_break crlf) ++ (b'\n' ∷ [])) ≤ length s + 2
length-line_break s true =
    omega
      (arith, length-append (s ++ line_break true) (b'\n' ∷ []), length-append s (line_break true))
length-line_break s false =
    omega (
      arith,
      length-append (s ++ line_break false) (b'\n' ∷ []),
      length-append s (line_break false),
    )

plain-line :
    (payload : Bytes) (crlf : Bool) (rest : Bytes)
    → IsFramed (on_line payload crlf)
    → plain
        (within (max_syslog_frame_bytes + 2) (line_of b'\n' (framed (on_line payload crlf) rest)))
      ≡ sends payload false rest
plain-line payload crlf rest (p, starts, whole, trimmed) =
    let text = (payload ++ line_break crlf) ++ (b'\n' ∷ []) in
    ap (λ l. plain (within (max_syslog_frame_bytes + 2) l))
      (line_of-append b'\n' (payload ++ line_break crlf) rest
        (Without-line_break payload crlf whole))
    ∙ ap plain (
        within_small (max_syslog_frame_bytes + 2)
          (record { text = text; ended = false; rest = rest })
          (omega (arith, p.bounded, length-line_break payload crlf)))
    ∙ plain-text text rest (omega (arith, length-append (payload ++ line_break crlf) (b'\n' ∷ [])))
    ∙ ap (λ t. with_payload t false rest)
        (trim_newlines-append (payload ++ line_break crlf)
          ∙ trim_newlines-line_break payload crlf
          ∙ trimmed)
    ∙ with_payload-payload payload rest p

next_round-begins :
    (b : Bool) (head rest : Bytes)
    → BeginsCount b head
    → next_round (head ++ rest)
      ≡ some (
          if b
          then counted (within 16 (line_of b' ' (head ++ rest)))
          else plain (within (max_syslog_frame_bytes + 2) (line_of b'\n' (head ++ rest))))
next_round-begins b [] rest h = absurd h
next_round-begins b (c ∷ head) rest h =
    next_round-line c (head ++ rest)
    ∙ ap
        (λ x. some (
          if x
          then counted (within 16 (line_of b' ' ((c ∷ head) ++ rest)))
          else plain (within (max_syslog_frame_bytes + 2) (line_of b'\n' ((c ∷ head) ++ rest)))))
        h

next_round-framed :
    (m : Message) (rest : Bytes)
    → IsFramed m
    → next_round (framed m rest) ≡ some (sends (payload_of m) false rest)
next_round-framed (behind_length header payload) rest h =
    next_round-begins true header (b' ' ∷ (payload ++ rest)) h.1
    ∙ ap some (counted-header header payload rest h)
next_round-framed (on_line payload crlf) rest h =
    ap next_round (append_assoc payload (line_break crlf) (b'\n' ∷ rest))
    ∙ next_round-begins false payload (line_break crlf ++ (b'\n' ∷ rest)) h.1
    ∙ ap (λ t. some (plain (within (max_syslog_frame_bytes + 2) (line_of b'\n' t))))
        (sym (append_assoc payload (line_break crlf) (b'\n' ∷ rest)))
    ∙ ap some (plain-line payload crlf rest h)

length-framed : (m : Message) (rest : Bytes) → length rest < length (framed m rest)
length-framed (behind_length header payload) rest =
    omega (arith, length-append header (b' ' ∷ (payload ++ rest)), length-append payload rest)
length-framed (on_line payload crlf) rest =
    omega (arith, length-append (payload ++ line_break crlf) (b'\n' ∷ rest))

rounds-framed :
    (n : ℕ) (ms : List Message)
    → length (all_framed ms) < n
    → AreFramed ms
    → rounds n [] (all_framed ms) ≡ some (map payload_of ms)
unfolding rounds
rounds-framed zero ms h all = absurd (omega (arith, h))
rounds-framed (suc n) [] h all = unfold next_round in refl
rounds-framed (suc n) (m ∷ ms) h all =
    ap (play (rounds n) []) (next_round-framed m (all_framed ms) all.0)
    ∙ ap (sent_before (payload_of m))
        (rounds-framed n ms (omega (arith, h, length-framed m (all_framed ms))) all.1)

-- Messages in any order, each behind its length in octets or in front of a line break, come out of
-- a connection as the sender had them, one record for each, where every payload has between 1 byte
-- and 10 MiB, and one on a line of its own begins with no digit from 1 to 9, has no line feed in it
-- and no carriage return at its end.
pub handle_tcp_conn-framed :
    (p : Peer) (ms : List Message)
    → AreFramed ms
    → handle_tcp_conn p [] (all_framed ms) ≡ some (syslog_records p 0 (map payload_of ms))
unfolding handle_tcp_conn
handle_tcp_conn-framed p ms all =
    ap (Option.map (syslog_records p 0))
      (rounds-framed (suc (length (all_framed ms))) ms (omega arith) all)
