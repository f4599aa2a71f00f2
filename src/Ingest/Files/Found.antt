-- ===== src/Ingest/Files/Found.antt =====
-- `IngestFile` of internal/ingest/file.go against the lines of the file.
use worm.Base.{
  ℕ, zero, suc, ◌+◌, ◌≤◌, ◌<◌, ◌≡◌, ◌≢◌, refl, sym, ◌∙◌, ap, Bool, true, false, List, [], ◌∷◌, ◌++◌,
  map, Option, none, some, Bytes, length, trim_newlines, length-append, append_assoc, arith,
  append-nil, codes, leb, count_where, str_eq, if◌then◌else◌,
}
use worm.Ingest.Frames.{Slice, delimited, buffer_full, stream_ended, read_slice}
use worm.Ingest.Frames.Lines.{
  line_of, line_of-whole, line_of_delimited, IsSliceOf, read_slice-IsSliceOf,
}
use worm.Ingest.Files.{
  Answer, goes_on, is_done, refuses, first_answer, later_answers, Ending, finished, cancelled,
  refused, line_too_long, Sending, Run, ends_with_none, after_sending, at_end, await, send_to,
  take_line, unless_done, after_line, read_line, file_buffer, ingest_lines, ingest_file, no_access,
  Source, no_file, not_opened, opened, is_whole, ingest_whole,
}
use worm.Ingest.Files.Payloads.{payloads, add_payload, trimmed_off, line_payloads}

-- A payload that is not empty stands in the file at its offset.
abbrev pub FoundAt : Bytes → Sending → Type 0
FoundAt file (offset, payload) =
    (1 ≤ length payload)
    × ((before after : Bytes) × (file ≡ before ++ (payload ++ after)) × (length before ≡ offset))

abbrev pub AreFound : Bytes → List Sending → Type 0
AreFound file [] = Unit
AreFound file (r ∷ rs) = FoundAt file r × AreFound file rs

abbrev pub sent_payload : Sending → Bytes
sent_payload r = r.1

-- The records are found in the file and are the first of the payloads, and behind a nil all.
abbrev pub IsReading : Bytes → List Bytes → Option Run → Type 0
IsReading file ps none = ⊥
IsReading file ps (some run) =
    AreFound file run.sent
    × ((more : List Bytes) × (map sent_payload run.sent ++ more ≡ ps)
        × (run.ending ≡ finished → more ≡ []))

module _ (file : Bytes) where
  stops : (ps : List Bytes) (e : Ending) → e ≢ finished → IsReading file ps (ends_with_none e)
  stops ps e ne = (tt, (ps, refl, λ h. absurd (ne h)))

  all_read : (e : Ending) → IsReading file [] (ends_with_none e)
  all_read e = (tt, ([], refl, λ h. refl))

  after_sending-IsReading :
      (r : Sending) (ps : List Bytes) (o : Option Run)
      → FoundAt file r
      → IsReading file ps o
      → IsReading file (sent_payload r ∷ ps) (after_sending r o)
  after_sending-IsReading r ps none f h = h
  after_sending-IsReading r ps (some run) f (fs, (more, e, end_)) =
      ((f, fs), (more, ap (λ x. sent_payload r ∷ x) e, end_))

  await-IsReading :
      (ps : List Bytes) (rest : Option Run) (a : Answer)
      → IsReading file ps rest
      → IsReading file ps (await rest a)
  await-IsReading ps rest goes_on h = h
  await-IsReading ps rest is_done h = stops ps cancelled (λ e. cc)
  await-IsReading ps rest refuses h = stops ps refused (λ e. cc)

  send_to-IsReading :
      (rest : Option Run) (r : Sending) (answers : List Answer) (a : Answer) (ps : List Bytes)
      → FoundAt file r
      → IsReading file ps rest
      → IsReading file (sent_payload r ∷ ps) (send_to rest r answers a)
  send_to-IsReading rest r answers is_done ps f h = stops _ cancelled (λ e. cc)
  send_to-IsReading rest r answers goes_on ps f h =
      after_sending-IsReading r ps _ f (await-IsReading ps rest (first_answer answers) h)
  send_to-IsReading rest r answers refuses ps f h =
      after_sending-IsReading r ps _ f (await-IsReading ps rest (first_answer answers) h)

  take_line-IsReading :
      (skipped rest : Option Run) (offset : ℕ) (payload : Bytes) (answers : List Answer)
      (ps : List Bytes)
      → (1 ≤ length payload → FoundAt file (offset, payload))
      → IsReading file ps skipped
      → IsReading file ps rest
      → IsReading file (add_payload payload ps) (take_line skipped rest offset payload answers)
  take_line-IsReading skipped rest offset [] answers ps f h h' = h
  take_line-IsReading skipped rest offset (c ∷ payload) answers ps f h h' =
      send_to-IsReading rest (offset, c ∷ payload) (later_answers answers) (first_answer answers) ps
        (f (omega arith)) h'

  unless_done-IsReading :
      (ps : List Bytes) (run : Option Run) (a : Answer)
      → IsReading file ps run
      → IsReading file ps (unless_done run a)
  unless_done-IsReading ps run goes_on h = h
  unless_done-IsReading ps run is_done h = stops ps cancelled (λ e. cc)
  unless_done-IsReading ps run refuses h = h

  -- The payload of a line that begins at an offset.
  line-FoundAt :
      (before part rest : Bytes)
      → file ≡ before ++ (part ++ rest)
      → 1 ≤ length (trim_newlines part)
      → FoundAt file (length before, trim_newlines part)
  line-FoundAt before part rest h full =
      let (t, e) = trimmed_off part in
      (
        full,
        (
          before,
          t ++ rest,
          h
              ∙ ap (λ x. before ++ (x ++ rest)) e
              ∙ ap (λ x. before ++ x) (append_assoc (trim_newlines part) t rest),
          refl,
        ),
      )

  module _ (next : List Answer → ℕ → Bytes → Option Run) (eof : Bool) (answers : List Answer)
      (before s : Bytes) (h : file ≡ before ++ s)
      (goes : (later : List Answer) (before' s' : Bytes)
        → file ≡ before' ++ s'
        → length s' < length s
        → IsReading file (payloads s') (next later (length before') s')) where
    delimited-IsReading :
        (part rest : Bytes)
        → line_of b'\n' s ≡ record { text = part; ended = false; rest = rest }
        → IsReading file
            (payloads s)
            (read_line next eof answers (length before) (delimited part rest))
    unfolding read_line
    delimited-IsReading part rest h' =
        let whole : part ++ rest ≡ s = rw h' at (line_of-whole b'\n' s) in
        let full : 1 ≤ length part = rw h' at (line_of_delimited b'\n' s (ap (λ l. l.ended) h')) in
        let here : file ≡ before ++ (part ++ rest) = h ∙ ap (λ x. before ++ x) (sym whole) in
        let after = after_line (trim_newlines part) answers in
        let shorter : length rest < length s =
          omega (arith, full, length-append part rest, ap length whole) in
        let goes' : IsReading file (payloads rest) (next after (length before + length part) rest) =
          rw (← length-append before part) (
            goes after (before ++ part) rest (here ∙ sym (append_assoc before part rest))
              shorter) in
        rw (line_payloads s part rest false h') (
          unless_done-IsReading _ _ (first_answer answers) (
            take_line-IsReading _ _ (length before) (trim_newlines part) (later_answers answers) _
              (line-FoundAt before part rest here) goes' goes'))

    ended-IsReading :
        (part : Bytes)
        → line_of b'\n' s ≡ record { text = part; ended = true; rest = [] }
        → IsReading file
            (payloads s)
            (read_line next eof answers (length before) (stream_ended part))
    unfolding read_line payloads
    ended-IsReading part h' =
        let whole : part ++ [] ≡ s = rw h' at (line_of-whole b'\n' s) in
        let end_ = all_read (at_end eof (length before)) in
        rw (line_payloads s part [] true h') (
          unless_done-IsReading _ _ (first_answer answers) (
            take_line-IsReading _ _ (length before) (trim_newlines part) (later_answers answers) []
              (line-FoundAt before part [] (h ∙ ap (λ x. before ++ x) (sym whole))) end_ end_))

    read_line-IsReading :
        (buffer : ℕ) (x : Slice)
        → IsSliceOf buffer b'\n' s x
        → IsReading file (payloads s) (read_line next eof answers (length before) x)
    unfolding read_line
    read_line-IsReading buffer (buffer_full part rest) h' =
        stops (payloads s) (line_too_long (length before)) (λ e. cc)
    read_line-IsReading buffer (delimited part rest) h' = delimited-IsReading part rest h'
    read_line-IsReading buffer (stream_ended part) h' = ended-IsReading part h'

  ingest_lines-IsReading :
      (n buffer : ℕ) (eof : Bool) (answers : List Answer) (before s : Bytes)
      → length s < n
      → file ≡ before ++ s
      → IsReading file (payloads s) (ingest_lines n buffer eof answers (length before) s)
  unfolding ingest_lines
  ingest_lines-IsReading zero buffer eof answers before s fuel h = absurd (omega (arith, fuel))
  ingest_lines-IsReading (suc n) buffer eof answers before s fuel h =
      read_line-IsReading (ingest_lines n buffer eof) eof answers before s h
        (λ later before' s' h' shorter.
          ingest_lines-IsReading n buffer eof later before' s' (omega (arith, fuel, shorter)) h')
        buffer (read_slice buffer b'\n' s) (read_slice-IsSliceOf buffer b'\n' s)

ingest_whole-IsReading :
    (eof : Bool) (answers : List Answer) (file : Bytes)
    → IsReading file (add_payload file []) (ingest_whole eof answers file)
unfolding ingest_whole
ingest_whole-IsReading false answers file = stops file (add_payload file []) no_access (λ e. cc)
ingest_whole-IsReading true answers [] = all_read [] finished
ingest_whole-IsReading true answers (c ∷ s) =
    send_to-IsReading (c ∷ s) (ends_with_none finished) (0, c ∷ s) (later_answers answers)
      (first_answer answers) [] (omega arith, ([], [], sym (append-nil (c ∷ s)), refl))
      (all_read (c ∷ s) finished)

-- The bytes that a file gives.
abbrev pub content : Source → Bytes
content no_file = []
content not_opened = []
content (opened eof s) = s

-- The payloads to be sent: a document whole unless it is empty, or those of the lines.
abbrev pub units : Bool → Bytes → List Bytes
units true s = add_payload s []
units false s = payloads s

-- The extensions of the files that hold one document.
abbrev documents : List Bytes
documents = codes ".csv" ∷ codes ".json" ∷ codes ".xml" ∷ []

abbrev pub is_document : Bytes → Bool
is_document ext = leb 1 (count_where (λ d. str_eq ext d) documents)

is_document_lem : (ext : Bytes) → is_document ext ≡ is_whole ext
unfolding is_whole count_where
is_document_lem ext = ground arith

-- Whatever the extension, the contexts, the commits and the file system do, IngestFile ends; each
-- record that it sends has a payload that is not empty and stands in the file at the offset of the
-- record. The payloads are the first, and all of them where it returns nil, of those to be sent: the
-- whole of a .csv, .json or .xml file that is not empty, and those that the lines hold, in order, of
-- any other file.
pub ingest_file-IsReading :
    (ext : Bytes) (answers : List Answer) (source : Source)
    → IsReading
        (content source)
        (units (is_document ext) (content source))
        (ingest_file ext answers source)
unfolding ingest_file
ingest_file-IsReading ext answers no_file = stops [] _ no_access (λ e. cc)
ingest_file-IsReading ext answers not_opened = stops [] _ no_access (λ e. cc)
ingest_file-IsReading ext answers (opened eof file) =
    rw (is_document_lem ext) (opened-IsReading (is_whole ext))
  where
    opened-IsReading :
        (whole : Bool)
        → IsReading file (units whole file) (
            if whole
            then ingest_whole eof answers file
            else ingest_lines (suc (length file)) file_buffer eof answers 0 file)
    opened-IsReading true = ingest_whole-IsReading eof answers file
    opened-IsReading false =
        ingest_lines-IsReading file (suc (length file)) file_buffer eof answers [] file
          (omega arith) refl
