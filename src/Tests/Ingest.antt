-- ===== src/Tests/Ingest.antt =====
-- Connections, files and adapters.
use worm.Base.{
  str_eq, count_where, true, false, List, [], ◌∷◌, ◌≡◌, refl, some, codes, map, digits,
  trim_newlines, arith, Bytes, get, has_prefix, ends_with, str_eq, none,
}
use worm.Model.{IngestedRecord}
use worm.Tests.Setup.{no_metadata}
use worm.Ingest.Frames.{Peer, read_parts, handle_tcp_conn, syslog_records}
use worm.Ingest.Frames.Lines.{line_of, before_line, within, read_parts-line}
use worm.Ingest.Frames.Rounds.{IsPayload}
use worm.Ingest.Frames.Served.{AreRecords, handle_tcp_conn-AreRecords}
use worm.Ingest.Frames.Written.{Message, behind_length, on_line, payload_of, all_framed, AreFramed}
use worm.Ingest.Frames.RoundTrip.{handle_tcp_conn-framed}
use worm.Ingest.Files.{goes_on, is_done, ingest_file, opened}
use worm.Ingest.Files.Payloads.{payloads}
use worm.Ingest.Files.Found.{IsReading, ingest_file-IsReading}
use worm.Ingest.Inbox.{Inbox, not_ingested, Entry, is_skipped, scan_inbox}
use worm.Ingest.Inbox.View.{view, standing, IsSingle, Keeps}
use worm.Ingest.Inbox.Kept.{scan_inbox-Keeps, scan_inbox-overwrites}
use worm.Ingest.Manager.{
  Lifecycle, new_manager, launch, LifecycleSteps, done, step, start, adapter_fails, stop,
  begin_stop,
}
use worm.Ingest.Manager.Closing.{steps_new-calm}

read_parts-line_example :
    read_parts 9 2 b' ' 4 [] (codes "123 abc")
    ≡ some (within 4 (before_line [] (line_of b' ' (codes "123 abc"))))
read_parts-line_example =
    read_parts-line 9 2 b' ' 4 [] (codes "123 abc") (omega arith) (omega arith)

abbrev peer : Peer
peer = record { host = codes "10.0.0.1"; port = 514; listener = no_metadata; time = λ n. n }

abbrev messages : List Message
messages = behind_length (codes "3") (codes "a\nb") ∷ on_line (codes "<34>hi") true ∷ []

three_IsPayload : IsPayload (codes "a\nb")
three_IsPayload = record { nonempty = omega arith; bounded = omega arith }

hi_IsPayload : IsPayload (codes "<34>hi")
hi_IsPayload = record { nonempty = omega arith; bounded = omega arith }

messages-AreFramed : AreFramed messages
unfolding digits trim_newlines
messages-AreFramed = (
  (three_IsPayload, refl, omega arith, refl),
  ((hi_IsPayload, refl, (refl, (refl, (refl, (refl, (refl, (refl, tt)))))), refl), tt),
)

handle_tcp_conn-framed_example :
    handle_tcp_conn peer [] (all_framed messages)
    ≡ some (syslog_records peer 0 (map payload_of messages))
handle_tcp_conn-framed_example = handle_tcp_conn-framed peer messages messages-AreFramed

handle_tcp_conn-AreRecords_example :
    (rs : List IngestedRecord) × (handle_tcp_conn peer [] (all_framed messages) ≡ some rs)
    × AreRecords peer rs
handle_tcp_conn-AreRecords_example = handle_tcp_conn-AreRecords peer [] (all_framed messages)

ingest_file-IsReading_example : IsReading (codes "a\n\nb") (payloads (codes "a\n\nb")) (
    ingest_file
      (codes ".log")
      (goes_on ∷ goes_on ∷ goes_on ∷ is_done ∷ [])
      (opened true (codes "a\n\nb")))
unfolding str_eq count_where
ingest_file-IsReading_example =
    ingest_file-IsReading (codes ".log") (goes_on ∷ goes_on ∷ goes_on ∷ is_done ∷ [])
      (opened true (codes "a\n\nb"))

abbrev started : Lifecycle
started = launch 2 new_manager

abbrev one_left : Lifecycle
one_left = record started { live = 1 }

abbrev stopping : Lifecycle
stopping = begin_stop one_left

stopping_reached : LifecycleSteps true true new_manager stopping
stopping_reached = step _ started _ (start new_manager 2 refl refl) (
    step started one_left _ (adapter_fails started 1 refl (omega arith)) (
      step one_left stopping _ (stop one_left refl (λ a. ((refl, refl, refl), refl)))
        (done stopping)))

steps_new-calm_example :
    (stopping.panicked ≡ false) × (stopping.out_closed ≡ true → stopping.live ≡ 0)
steps_new-calm_example = steps_new-calm true stopping stopping_reached

-- One file to come, and one of the same name whose ingestion failed before.
abbrev spool : Inbox
spool = record {
  inbox = (codes "a.log", codes "1") ∷ (codes "b.log", codes "2") ∷ [];
  processing = [];
  processed = [];
  failed = (codes "b.log", codes "0") ∷ [];
}

abbrev entry : Bytes → Entry
entry name = record {
  name = name;
  first_refused = false;
  outcome = not_ingested;
  last_refused = false;
}

a_IsSingle : IsSingle (view (codes "a.log") spool)
unfolding get str_eq
a_IsSingle = omega arith

scan_inbox-Keeps_example :
    Keeps
      (view (codes "a.log") spool)
      (view (codes "a.log") (scan_inbox (entry (codes "a.log") ∷ entry (codes "b.log") ∷ []) spool))
scan_inbox-Keeps_example =
    scan_inbox-Keeps (entry (codes "a.log") ∷ entry (codes "b.log") ∷ []) spool (codes "a.log")
      a_IsSingle

b_visible : is_skipped (codes "b.log") ≡ false
unfolding has_prefix ends_with str_eq
b_visible = refl

b_twice : view (codes "b.log") spool ≡ standing (some (codes "2")) none none (some (codes "0"))
unfolding get str_eq
b_twice = refl

scan_inbox-overwrites_example :
    view (codes "b.log") (scan_inbox (entry (codes "b.log") ∷ []) spool)
    ≡ standing none none none (some (codes "2"))
scan_inbox-overwrites_example =
    scan_inbox-overwrites (codes "b.log") (codes "2") (codes "0") spool b_visible b_twice
