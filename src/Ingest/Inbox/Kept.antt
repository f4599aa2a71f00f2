-- ===== src/Ingest/Inbox/Kept.antt =====
-- The directories of `FileWatcher` in internal/ingest/file.go: what becomes of the files.
use worm.Base.{
  ◌≡◌, refl, ◌∙◌, ap, Bool, true, false, ◌||◌, List, [], ◌∷◌, Option, none, some, Bytes, get, put,
  if◌then◌else◌,
}
use worm.Ingest.Inbox.{
  Inbox, Outcome, ingested, not_ingested, cut_off, take_up, finish_file, fail_file, process_file,
  Entry, is_skipped, process_entry, after_take_up, scan_entry, scan_inbox, is_cut_off, resume_entry,
  scan_processing,
}
use worm.Ingest.Inbox.View.{
  View, view, standing, IsSingle, Keeps, AllKept, taken-Keeps, finished-Keeps, failed-Keeps,
  del_here, put_here, del_there, put_there, at_name,
}

take_up-AllKept : (m c : Bytes) (s : Inbox) → get m s.inbox ≡ some c → AllKept s (take_up m c s)
unfolding take_up
take_up-AllKept m c s h =
    at_name m s (take_up m c s)
      (λ i. rw (h, del_here m s.inbox, put_here m c s.processing) (taken-Keeps _ _ _ c (rw h at i)))
      (λ n e. rw (del_there m n s.inbox e, put_there m n c s.processing e) refl)

finish_file-AllKept :
    (m c : Bytes) (s : Inbox) → get m s.processing ≡ some c → AllKept s (finish_file m c s)
unfolding finish_file
finish_file-AllKept m c s h =
    at_name m s (finish_file m c s)
      (λ i.
        rw (h, del_here m s.processing, put_here m c s.processed)
          (finished-Keeps _ _ _ c (rw h at i)))
      (λ n e. rw (del_there m n s.processing e, put_there m n c s.processed e) refl)

fail_file-AllKept :
    (m c : Bytes) (s : Inbox) → get m s.processing ≡ some c → AllKept s (fail_file m c s)
unfolding fail_file
fail_file-AllKept m c s h =
    at_name m s (fail_file m c s)
      (λ i.
        rw (h, del_here m s.processing, put_here m c s.failed) (failed-Keeps _ _ _ c (rw h at i)))
      (λ n e. rw (del_there m n s.processing e, put_there m n c s.failed e) refl)

unmoved : (s : Inbox) → AllKept s s
unmoved s n h = record { same = refl; single = h }

and_then : (s t u : Inbox) → AllKept s t → AllKept t u → AllKept s u
and_then s t u h h' n i =
    let k = h n i in
    let k' = h' n k.single in record { same = k'.same ∙ k.same; single = k'.single }

unless : (b : Bool) (s t : Inbox) → AllKept s t → AllKept s (if b then s else t)
unless true s t h = unmoved s
unless false s t h = h

either : (b : Bool) (s t u : Inbox) → AllKept s t → AllKept s u → AllKept s (if b then t else u)
either true s t u h h' = h
either false s t u h h' = h'

process_file-AllKept :
    (refused : Bool) (m : Bytes) (outcome : Outcome) (o : Option Bytes) (s : Inbox)
    → get m s.processing ≡ o
    → AllKept s (process_file refused m outcome o s)
unfolding process_file
process_file-AllKept refused m outcome none s h = unmoved s
process_file-AllKept refused m ingested (some c) s h =
    unless refused s (finish_file m c s) (finish_file-AllKept m c s h)
process_file-AllKept refused m not_ingested (some c) s h =
    unless refused s (fail_file m c s) (fail_file-AllKept m c s h)
process_file-AllKept refused m cut_off (some c) s h = unmoved s

process_entry-AllKept : (e : Entry) (s : Inbox) → AllKept s (process_entry e s)
unfolding process_entry
process_entry-AllKept e s =
    process_file-AllKept e.last_refused e.name e.outcome (get e.name s.processing) s refl

after_take_up-AllKept :
    (e : Entry) (o : Option Bytes) (s : Inbox)
    → get e.name s.inbox ≡ o
    → AllKept s (after_take_up e o s)
unfolding after_take_up
after_take_up-AllKept e none s h = unmoved s
after_take_up-AllKept e (some c) s h =
    and_then s (take_up e.name c s) _ (take_up-AllKept e.name c s h)
      (process_entry-AllKept e (take_up e.name c s))

scan_entry-AllKept : (e : Entry) (s : Inbox) → AllKept s (scan_entry e s)
unfolding scan_entry
scan_entry-AllKept e s =
    unless (is_skipped e.name || e.first_refused) s _ (after_take_up-AllKept e _ s refl)

-- Where at most one of the four directories has a file of a name, a scan of the inbox leaves the
-- file with its content in one of them, and in one only, whatever the renamings and the ingestions
-- come to.
pub scan_inbox-Keeps :
    (es : List Entry) (s : Inbox) (n : Bytes)
    → IsSingle (view n s)
    → Keeps (view n s) (view n (scan_inbox es s))
unfolding scan_inbox
scan_inbox-Keeps [] s n h = unmoved s n h
scan_inbox-Keeps (e ∷ es) s n h =
    and_then s (scan_entry e s) _ (scan_entry-AllKept e s) (scan_inbox-Keeps es (scan_entry e s)) n
      h

resume_entry-AllKept : (e : Entry) (s : Inbox) → AllKept s (resume_entry e s)
unfolding resume_entry
resume_entry-AllKept e s = unless (is_skipped e.name) s _ (process_entry-AllKept e s)

-- The same of a scan of the files that were being processed.
pub scan_processing-Keeps :
    (es : List Entry) (s : Inbox) (n : Bytes)
    → IsSingle (view n s)
    → Keeps (view n s) (view n (scan_processing es s))
unfolding scan_processing
scan_processing-Keeps [] s n h = unmoved s n h
scan_processing-Keeps (e ∷ es) s n h =
    let here = resume_entry-AllKept e s in
    let rest = and_then s (resume_entry e s) _ here (scan_processing-Keeps es (resume_entry e s)) in
    either (is_skipped e.name) s _ _ rest (either (is_cut_off e.outcome) s _ _ here rest) n h

failing_entry :
    (n c : Bytes) (s : Inbox)
    → is_skipped n ≡ false
    → get n s.inbox ≡ some c
    → scan_entry
        (record { name = n; first_refused = false; outcome = not_ingested; last_refused = false })
        s
      ≡ fail_file n c (take_up n c s)
unfolding scan_entry after_take_up process_entry process_file take_up
failing_entry n c s visible h = rw (scan_entry, visible, h, put_here n c s.processing) refl

-- A file whose ingestion fails takes the place of one of that name whose ingestion failed before:
-- where the inbox has a file and no renaming is refused, the failed directory has its content, and
-- no directory has the content that stood there.
pub scan_inbox-overwrites :
    (n c d : Bytes) (s : Inbox)
    → is_skipped n ≡ false
    → view n s ≡ standing (some c) none none (some d)
    → view n (
        scan_inbox
          (record { name = n; first_refused = false; outcome = not_ingested; last_refused = false }
            ∷ [])
          s)
      ≡ standing none none none (some c)
unfolding scan_inbox take_up fail_file
scan_inbox-overwrites n c d s visible h =
    let e = ap (λ (v : View). v.at_inbox) h in
    let e' = ap (λ (v : View). v.at_processed) h in
    ap (view n) (failing_entry n c s visible e)
    ∙ rw (del_here n s.inbox, del_here n (put n c s.processing), put_here n c s.failed, e') refl
