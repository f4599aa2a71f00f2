-- ===== src/Ingest/Inbox.antt =====
-- The directories of `FileWatcher` in internal/ingest/file.go: `scanInbox`, `scanProcessing` and
-- `processFile`. A directory is the list of its files with their contents; what a rename and
-- `IngestFile` come to for a file is an input.
pub mod View
pub mod Kept
use worm.Base.{
  ℕ, Bool, true, false, ◌||◌, List, [], ◌∷◌, Option, none, some, Bytes, codes, has_prefix,
  ends_with, get, put, del, if◌then◌else◌,
}

abbrev pub Directory : Type 0
Directory = List (Bytes × Bytes)

pub record Inbox : Type 0 where
  pub inbox : Directory
  pub processing : Directory
  pub processed : Directory
  pub failed : Directory

-- What `IngestFile` comes to: nil, an error, or an error where the context is done.
pub data Outcome : Type 0 where
  ingested not_ingested cut_off : Outcome

-- A renaming takes the place of a file of that name.
unfoldable pub take_up : Bytes → Bytes → Inbox → Inbox
unfolding put del
take_up name content s = record s {
  inbox = del name s.inbox;
  processing = put name content s.processing;
}

unfoldable pub finish_file : Bytes → Bytes → Inbox → Inbox
unfolding put del
finish_file name content s = record s {
  processing = del name s.processing;
  processed = put name content s.processed;
}

unfoldable pub fail_file : Bytes → Bytes → Inbox → Inbox
unfolding put del
fail_file name content s = record s {
  processing = del name s.processing;
  failed = put name content s.failed;
}

-- `processFile` of a file with its content, where the last renaming may be refused.
unfoldable pub process_file : Bool → Bytes → Outcome → Option Bytes → Inbox → Inbox
unfolding finish_file fail_file
process_file refused name outcome none s = s
process_file refused name cut_off (some content) s = s
process_file refused name ingested (some content) s =
    if refused then s else finish_file name content s
process_file refused name not_ingested (some content) s =
    if refused then s else fail_file name content s

-- An entry of a directory, and what becomes of it: whether the first renaming is refused, what
-- `IngestFile` comes to, and whether the last one is.
pub record Entry : Type 0 where
  pub name : Bytes
  pub first_refused : Bool
  pub outcome : Outcome
  pub last_refused : Bool

abbrev pub is_skipped : Bytes → Bool
is_skipped name = has_prefix name (codes ".") || ends_with name (codes ".tmp")

unfoldable pub process_entry : Entry → Inbox → Inbox
unfolding process_file get
process_entry e s = process_file e.last_refused e.name e.outcome (get e.name s.processing) s

-- Behind the first renaming.
unfoldable pub after_take_up : Entry → Option Bytes → Inbox → Inbox
unfolding process_entry take_up
after_take_up e none s = s
after_take_up e (some content) s = process_entry e (take_up e.name content s)

-- The body of the loop of `scanInbox`; the entries are those that are no directories.
unfoldable pub scan_entry : Entry → Inbox → Inbox
unfolding after_take_up has_prefix ends_with
scan_entry e s =
    if is_skipped e.name || e.first_refused then s else after_take_up e (get e.name s.inbox) s

unfoldable pub scan_inbox : List Entry → Inbox → Inbox
unfolding scan_entry
scan_inbox [] s = s
scan_inbox (e ∷ es) s = scan_inbox es (scan_entry e s)

abbrev pub is_cut_off : Outcome → Bool
is_cut_off cut_off = true
is_cut_off _ = false

unfoldable pub resume_entry : Entry → Inbox → Inbox
unfolding process_entry has_prefix ends_with
resume_entry e s = if is_skipped e.name then s else process_entry e s

-- `scanProcessing`, which ends where the context is done behind a file.
unfoldable pub scan_processing : List Entry → Inbox → Inbox
unfolding resume_entry has_prefix ends_with
scan_processing [] s = s
scan_processing (e ∷ es) s =
    let rest = scan_processing es (resume_entry e s) in
    if is_skipped e.name then rest else if is_cut_off e.outcome then resume_entry e s else rest
