-- ===== src/Ingest/Files.antt =====
-- `IngestFile` of internal/ingest/file.go: a document that is sent whole, and the formats with one
-- record on a line. A file is the list of the bytes that it gives before a read fails, at its end or
-- elsewhere; what the file system answers is an input.
pub mod Payloads
pub mod Found
use worm.Base.{
  ℕ, zero, suc, ◌+◌, ◌*◌, Bool, true, false, List, [], ◌∷◌, Option, none, some, Bytes, length,
  if◌then◌else◌, trim_newlines, str_eq, codes, ◌||◌,
}
use worm.Ingest.Frames.{Slice, delimited, buffer_full, stream_ended, read_slice}

-- What a `select` of the loop comes to: the context is done, or it goes on, with a commit where it
-- waits for one; or the commit is refused.
pub data Answer : Type 0 where
  goes_on is_done refuses : Answer

-- At the end of the list everything goes on.
abbrev pub first_answer : List Answer → Answer
first_answer [] = goes_on
first_answer (a ∷ more) = a

abbrev pub later_answers : List Answer → List Answer
later_answers [] = []
later_answers (a ∷ more) = more

-- What `IngestFile` returns: nil, or one of its errors.
pub data Ending : Type 0 where
  finished cancelled refused no_access : Ending
  line_too_long read_failed : ℕ → Ending

-- A record that is sent: its offset and its payload.
abbrev pub Sending : Type 0
Sending = ℕ × Bytes

pub record Run : Type 0 where
  pub sent : List Sending
  pub ending : Ending

abbrev pub ends_with_none : Ending → Option Run
ends_with_none e = some (record { sent = []; ending = e })

abbrev pub after_sending : Sending → Option Run → Option Run
after_sending r none = none
after_sending r (some run) = some (record run { sent = r ∷ run.sent })

-- At the last line: the end of the file, or an error.
abbrev pub at_end : Bool → ℕ → Ending
at_end eof offset = if eof then finished else read_failed offset

-- The wait for the commit of a record that is sent.
abbrev pub await : Option Run → Answer → Option Run
await rest goes_on = rest
await rest is_done = ends_with_none cancelled
await rest refuses = ends_with_none refused

abbrev pub send_to : Option Run → Sending → List Answer → Answer → Option Run
send_to rest r answers is_done = ends_with_none cancelled
send_to rest r answers _ = after_sending r (await rest (first_answer answers))

-- Behind the read of a line and its select: `rest` is what follows it.
abbrev pub take_line : Option Run → Option Run → ℕ → Bytes → List Answer → Option Run
take_line skipped rest offset [] answers = skipped
take_line skipped rest offset (c ∷ payload) answers =
    send_to rest (offset, c ∷ payload) (later_answers answers) (first_answer answers)

abbrev pub unless_done : Option Run → Answer → Option Run
unless_done run is_done = ends_with_none cancelled
unless_done run _ = run

-- The selects that a line asks: one behind its read, and two more where it has a payload.
abbrev pub after_line : Bytes → List Answer → List Answer
after_line [] answers = later_answers answers
after_line (c ∷ payload) answers = later_answers (later_answers (later_answers answers))

-- The body of the loop behind `ReadSlice`.
abbrev pub read_line :
    (List Answer → ℕ → Bytes → Option Run) → Bool → List Answer → ℕ → Slice → Option Run
unfolding trim_newlines
read_line next eof answers offset (buffer_full part rest) = ends_with_none (line_too_long offset)
read_line next eof answers offset (delimited part rest) =
    let payload = trim_newlines part in
    let rest' = next (after_line payload answers) (offset + length part) rest in
    unless_done (take_line rest' rest' offset payload (later_answers answers))
      (first_answer answers)
read_line next eof answers offset (stream_ended part) =
    let end_ = ends_with_none (at_end eof offset) in
    unless_done (take_line end_ end_ offset (trim_newlines part) (later_answers answers))
      (first_answer answers)

abbrev pub file_buffer : ℕ
file_buffer = 1024 * 1024 + 1

-- The loop, with fuel for its lines.
unfoldable pub ingest_lines : ℕ → ℕ → Bool → List Answer → ℕ → Bytes → Option Run
unfolding read_slice read_line
ingest_lines zero buffer eof answers offset s = none
ingest_lines (suc n) buffer eof answers offset s =
    read_line (ingest_lines n buffer eof) eof answers offset (read_slice buffer b'\n' s)

-- What the path leads to: no file that can be looked up (or a directory), a file that cannot be
-- opened, or one that gives these bytes, up to its end or up to a read that fails.
pub data Source : Type 0 where
  no_file not_opened : Source
  opened : Bool → Bytes → Source

-- The lower-case extension of a file that is sent as one record.
unfoldable pub is_whole : Bytes → Bool
unfolding str_eq
is_whole ext = str_eq ext (codes ".csv") || str_eq ext (codes ".json") || str_eq ext (codes ".xml")

-- Behind `os.ReadFile`.
unfoldable pub ingest_whole : Bool → List Answer → Bytes → Option Run
ingest_whole false answers s = ends_with_none no_access
ingest_whole true answers [] = ends_with_none finished
ingest_whole true answers (c ∷ s) =
    send_to (ends_with_none finished) (0, c ∷ s) (later_answers answers) (first_answer answers)

unfoldable pub ingest_file : Bytes → List Answer → Source → Option Run
unfolding ingest_lines ingest_whole is_whole
ingest_file ext answers no_file = ends_with_none no_access
ingest_file ext answers not_opened = ends_with_none no_access
ingest_file ext answers (opened eof s) =
    if is_whole ext
    then ingest_whole eof answers s
    else ingest_lines (suc (length s)) file_buffer eof answers 0 s
