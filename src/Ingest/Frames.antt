-- ===== src/Ingest/Frames.antt =====
-- The frames of syslog over TCP: `readBoundedFrame` and `handleTCPConn` of
-- internal/ingest/syslog.go. A connection is the list of the bytes that it gives before a read of
-- it fails.
pub mod Lines
pub mod Rounds
pub mod Served
pub mod Written
pub mod RoundTrip
use worm.Base.{
  ℕ, zero, suc, ◌+◌, ◌*◌, Bool, true, false, ◌&&◌, ◌||◌, List, [], ◌∷◌, ◌++◌, Option, none, some,
  Bytes, codes, ◌==◌, ltb, leb, length, take, drop, if◌then◌else◌, atoi, trim_space_right,
  trim_newlines,
}
use mathlib.Core.Option
use worm.Model.{IngestedRecord, ReceiveMetadata}

abbrev pub max_syslog_frame_bytes : ℕ
max_syslog_frame_bytes = 10 * 1024 * 1024

-- How a call of `ReadSlice` of a `bufio.Reader` ends, with what it returns and what is unread.
pub data Slice : Type 0 where
  delimited : Bytes → Bytes → Slice
  buffer_full : Bytes → Bytes → Slice
  stream_ended : Bytes → Slice

abbrev pub after_byte : ℕ → Slice → Slice
after_byte c (delimited part rest) = delimited (c ∷ part) rest
after_byte c (buffer_full part rest) = buffer_full (c ∷ part) rest
after_byte c (stream_ended part) = stream_ended (c ∷ part)

-- `ReadSlice`, where the buffer has room for as many bytes as the first number says.
unfoldable pub read_slice : ℕ → ℕ → Bytes → Slice
read_slice zero delimiter s = buffer_full [] s
read_slice (suc n) delimiter [] = stream_ended []
read_slice (suc n) delimiter (c ∷ s) = elim (c == delimiter) [
  | true ↦ delimited (c ∷ []) s
  | false ↦ after_byte c (read_slice n delimiter s)
]

-- What `readBoundedFrame` returns: a frame, whether there is an error with it, and what is unread.
pub data Frame : Type 0 where
  frame : Bytes → Bool → Bytes → Frame
  too_large : Frame

-- The body of the loop of `readBoundedFrame` behind `ReadSlice`.
abbrev pub add_part : (Bytes → Bytes → Option Frame) → ℕ → Bytes → Slice → Option Frame
add_part next max so_far (delimited part rest) =
    if ltb max (length so_far + length part)
    then some too_large
    else some (frame (so_far ++ part) false rest)
add_part next max so_far (buffer_full part rest) = elim (ltb max (length so_far + length part)) [
  | true ↦ some too_large
  | false ↦ next (so_far ++ part) rest
]
add_part next max so_far (stream_ended part) =
    if ltb max (length so_far + length part)
    then some too_large
    else some (frame (so_far ++ part) true [])

-- The loop, with fuel; `none` where that is used up.
unfoldable pub read_parts : ℕ → ℕ → ℕ → ℕ → Bytes → Bytes → Option Frame
unfolding read_slice
read_parts zero buffer delimiter max so_far s = none
read_parts (suc n) buffer delimiter max so_far s =
    add_part (read_parts n buffer delimiter max) max so_far (read_slice buffer delimiter s)

-- The size of the buffer that `bufio.NewReader` makes.
abbrev pub buffer_size : ℕ
buffer_size = 4096

unfoldable pub read_bounded_frame : ℕ → ℕ → Bytes → Option Frame
unfolding read_parts
read_bounded_frame delimiter max s = read_parts (suc (length s)) buffer_size delimiter max [] s

-- What one round of `handleTCPConn` does: it returns, passes over an empty line, or sends a payload
-- and returns behind that or not.
pub data Round : Type 0 where
  ends : Round
  skips : Bytes → Round
  sends : Bytes → Bool → Bytes → Round

-- `io.ReadFull`
abbrev pub read_full : ℕ → Bytes → Round
read_full n s = if ltb (length s) n then ends else sends (take n s) false (drop n s)

abbrev pub with_length : Option ℕ → Bytes → Round
with_length none rest = ends
with_length (some n) rest =
    if leb n 0 || ltb max_syslog_frame_bytes n then ends else read_full n rest

-- Octet counting; the text begins with a digit.
unfoldable pub counted : Frame → Round
unfolding atoi trim_space_right
counted too_large = ends
counted (frame text true rest) = ends
counted (frame text false rest) = with_length (atoi (trim_space_right text)) rest

abbrev pub with_payload : Bytes → Bool → Bytes → Round
with_payload [] failed rest = if failed then ends else skips rest
with_payload (c ∷ payload) failed rest =
    if ltb max_syslog_frame_bytes (length (c ∷ payload))
    then ends
    else sends (c ∷ payload) failed rest

-- Frames that end at a line break.
unfoldable pub plain : Frame → Round
unfolding trim_newlines
plain too_large = ends
plain (frame [] true rest) = ends
plain (frame [] false rest) = with_payload [] false rest
plain (frame (c ∷ text) failed rest) = with_payload (trim_newlines (c ∷ text)) failed rest

abbrev pub round_of : (Frame → Round) → Option Frame → Option Round
round_of f none = none
round_of f (some x) = some (f x)

abbrev pub starts_count : ℕ → Bool
starts_count c = leb b'1' c && leb c b'9'

-- The body of the loop of `handleTCPConn`, up to the send.
unfoldable pub next_round : Bytes → Option Round
unfolding read_bounded_frame counted plain
next_round [] = some ends
next_round (c ∷ s) = elim (starts_count c) [
  | true ↦ round_of counted (read_bounded_frame b' ' 16 (c ∷ s))
  | false ↦ round_of plain (read_bounded_frame b'\n' (max_syslog_frame_bytes + 2) (c ∷ s))
]

-- Whether the next `select` finds the context done; at the end of the list it is not.
abbrev pub is_done : List Bool → Bool
is_done [] = false
is_done (b ∷ bs) = b

abbrev pub later : List Bool → List Bool
later [] = []
later (b ∷ bs) = bs

abbrev pub sent_before : Bytes → Option (List Bytes) → Option (List Bytes)
sent_before payload none = none
sent_before payload (some rest) = some (payload ∷ rest)

abbrev pub play :
    (List Bool → Bytes → Option (List Bytes)) → List Bool → Option Round → Option (List Bytes)
play next ctx none = none
play next ctx (some ends) = some []
play next ctx (some (skips rest)) = next ctx rest
play next ctx (some (sends payload last rest)) = elim (is_done ctx) [
  | true ↦ some []
  | false ↦ elim last [
    | true ↦ some (payload ∷ [])
    | false ↦ sent_before payload (next (later ctx) rest)
  ]
]

-- The loop of `handleTCPConn` over the payloads that it sends, with fuel for its rounds.
unfoldable pub rounds : ℕ → List Bool → Bytes → Option (List Bytes)
unfolding next_round
rounds zero ctx s = none
rounds (suc n) ctx s = elim (is_done ctx) [
  | true ↦ some []
  | false ↦ play (rounds n) (later ctx) (next_round s)
]

-- The addresses of a connection, and the time of its n-th record.
pub record Peer : Type 0 where
  pub host : Bytes
  pub port : ℕ
  pub listener : ReceiveMetadata
  pub time : ℕ → ℕ

abbrev pub syslog_record : Peer → ℕ → Bytes → IngestedRecord
syslog_record p n payload = record {
  transport = codes "syslog-tcp";
  source_ip = p.host;
  source_port = p.port;
  raw_bytes = payload;
  received_at = p.time n;
  metadata = p.listener;
  ack = false;
  existing_raw_id = [];
}

unfoldable pub syslog_records : Peer → ℕ → List Bytes → List IngestedRecord
syslog_records p n [] = []
syslog_records p n (payload ∷ rest) = syslog_record p n payload ∷ syslog_records p (n + 1) rest

-- The records that `handleTCPConn` sends.
unfoldable pub handle_tcp_conn : Peer → List Bool → Bytes → Option (List IngestedRecord)
unfolding rounds syslog_records
handle_tcp_conn p ctx s = Option.map (syslog_records p 0) (rounds (suc (length s)) ctx s)
