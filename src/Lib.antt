-- ===== src/Lib.antt =====
-- WORM receives log records, commits their bytes, decodes and normalizes them, and delivers the
-- events. This library models the core of that path as functions, with theorems about them.
--
-- The parts and their files (paths from the repository's root):
--
-- - Base: bytes, lists, signed integers and Boolean tests that the parts share. A string is the
--   list of its bytes; integers of the program's counters are ℤ, without the 64-bit bound.
-- - Library: what the code relies on and does not define (SHA-256, JSON, the forms of the
--   identifiers, UTF-8 and hexadecimal text of Go's standard library), a record that the models
--   take as an instance. What a theorem needs of these functions is a hypothesis of it.
-- - Model, Model/Value: internal/model/model.go, and the values of decoded fields (`any` in Go).
-- - Store: internal/rawstore/store.go. `Action` is a state monad over the tables of the database
--   with errors; a transaction is one step, and the list `faults` says which of the next
--   statements fail, so that a theorem for every list covers every schedule of failures. `Raw` is
--   the table raw_events (Store, Retrieve, Verify, UpdateStatus), whose readers have what the JSON
--   of the metadata and the text of the time are read as, `Dead` the quarantine, `Normal` the
--   normalized events with their outbox rows. `Keeps` holds the rules by which an action keeps a
--   relation, `Evidence` applies them to the raw events, `Commit` follows one record through Store
--   and Retrieve. `Outcome` says what a stored quarantine entry leaves behind, `Stored` what a
--   stored event does, with `Committed` and `Counts`.
-- - Pipeline: internal/pipeline/pipeline.go. `World` is the state that the workers share
--   (database, counters, sink, acknowledgements), `Stages` the components that the pipeline calls,
--   as parameters with any behaviour. `Child` is the loop body of `processRecord` over one decoded
--   record, `Record` the rest of `processRecord`, cut at its returns. `Frame` modules list what a
--   relation between worlds has to allow to hold across the whole function; `Balance` and
--   `Evidence` are two of them. `Child/Resolved` follows one child through every branch. `Replay`
--   is the function of that name, cut at its returns as well. `Queue` is the queue behind
--   `Submit`, with `Start`, `Stop` and the workers, as a relation of steps that may come in any
--   order.
-- - Outbox: internal/outbox/outbox.go on the table outbox of the same database, and
--   `deliverPending` of the pipeline over a sink of any behaviour. `Rows` holds the lemmas on
--   rows, `Queue/Order` the keys of the table, `Deliver/Promise` what the loop marks.
-- - Output: internal/output/retry.go and multi.go, over sinks of any behaviour.
-- - Packs: internal/packs/pack.go and snapshot.go: matching, dotted paths, snapshots.
-- - Packs/Manager: internal/packs/manager.go and manifest.go. `Disk` is the directory of packs
--   with rollback.json, manifest.json and transaction.json, and the accesses to it: each has a
--   fate (done, refused, done but reported as an error, or the process stops before it), so that a
--   theorem for lists of fates covers interruptions at any access. `Manifest` holds the manifests
--   that are written next, `Recovery` RecoverTransactions and abortTransaction, `Apply` and
--   `Rollback` the changes of a pack file. `Rules` runs one access; `Recovery/Settle` says what a
--   recovery leaves, `Apply/Change`, `Apply/Atomic` and `Rollback/Atomic` follow a whole change
--   with it.
-- - Packs/Validate: `Validate` of internal/packs/pack.go with the targets of
--   internal/ocsf/schema.go.
-- - Packs/Extract: internal/packs/extract.go. `Rules` says what a rule by itself gives, `Unmapped`
--   which fields are left.
-- - Normalize: `Taxonomy` is internal/ocsf/schema.go and the defaults of
--   internal/normalize/normalizer.go, `Event` the function Normalize there, and `Validate`
--   internal/normalize/validate.go; both have the signatures that the pipeline's `Stages` ask for.
--   `Event/Spared` follows the keys that the rules of a pack leave alone, `Event/Governed` the
--   keys that a validated pack can write, `Validate/Accepts` puts the one function behind the
--   other.
-- - Ingest: `Frames` is the loop of a connection and readBoundedFrame of
--   internal/ingest/syslog.go; `Frames/Lines` reads a line at once, `Rounds` and `Served` follow
--   the loop for any stream, `Written` and `RoundTrip` for messages as a sender frames them.
--   `Files` is IngestFile of internal/ingest/file.go, a whole document or line by line, `Inbox`
--   the directories of its FileWatcher, `Manager` the life cycle of internal/ingest/adapter.go as
--   a relation of steps, with the senders that its wait group does not count. A stream is the list
--   of its bytes; lists say what the selects come to.
-- - Decode: internal/decode/detect.go (the choice of a decoder), and the header and value scanners
--   of internal/decode/cef.go and leef.go. A confidence is kept in hundredths. `Syslog` is
--   internal/decode/syslog.go: `Tokens` parseKeyValueTokens, `Structured` the structured data of
--   RFC 5424, `Message` the function Decode, with the decoders of the body as parameters, `Detect`
--   the function of that name.
-- - Connections: internal/connections/manager.go, `ApplyFile` in `Manager` and `Rollback` in
--   `Manager/Revert`, over connections, files and a runtime of any kind; a list says which of the
--   next writes to the disk fail, and a test which files can be read. `Loader` is `LoadDir`.
-- - Tests: a small library and stages, and the theorems at concrete inputs.
--
-- Every loop is a structural recursion over the bytes, rows or records that it reads, but for the
-- loop of parseKeyValueTokens and those that read a stream, which have the length of their text as
-- fuel: each turn takes at least one byte. Processing one record is modelled as one sequence of
-- steps: the workers of the pipeline are not interleaved there, the counters are atomic in the
-- source. A write to a file is done whole or not.
--
-- Not modelled: the sockets of the listeners, the HTTP and Kafka inputs and the poller, the sinks
-- that write files or call services, the HTTP interface, the marketplace, the command line, the
-- loading of YAML, the parsers of Go's standard library (JSON, XML, CSV), the regular expressions
-- of packs (a test on text here), and the listing and search queries of the store: they are input
-- and output, or libraries that the code calls.
mod Base
pub mod Model
pub mod Library
pub mod Store
pub mod Pipeline
mod Tests
pub mod Packs
pub mod Normalize
pub mod Decode
pub mod Connections
pub mod Outbox
pub mod Output
pub mod Ingest
