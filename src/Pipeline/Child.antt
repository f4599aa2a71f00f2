-- ===== src/Pipeline/Child.antt =====
-- `processRecord` of internal/pipeline/pipeline.go: what becomes of one decoded record.
pub mod Balance
pub mod Frame
pub mod Resolved
use worm.Base.{
  ℕ, Bool, true, false, ◌&&◌, not, List, [], ◌∷◌, ◌++◌, Option, none, some, leb, if◌then◌else◌,
  Bytes, codes, str_eq, pos,
}
use worm.Library.{Library, Error, invalid}
use worm.Model.{RawEvent, DecodedRecord, NormalizedEvent, ProcessingStep, QuarantineEntry}
use worm.Model.Value.{Fields, end, Value, str, int, lookup, insert, insert_all, size}
use worm.Store.Action.{Result, ok, err}
use worm.Store.Dead.{quarantine_child}
use worm.Store.Normal.{store_normalized_with_outbox, delete_normalized_child, has_completed_child}
use worm.Pipeline.World.{
  World, Matching, no_match, ambiguous, matched, Stages, count_quarantined, count_normalized,
  count_delivered, run, draw, safe_preview,
}

-- A step of the processing history.
abbrev pub step : Bytes → ℕ → Bytes → ProcessingStep
step stage now result = record { stage = stage; timestamp = now; result = result }

-- `if _, ok := m[k]; !ok { m[k] = v }`
unfoldable pub insert_absent : Bytes → Value → Fields → Fields
insert_absent k v m = elim (lookup k m) [ none ↦ insert k v m | some _ ↦ m ]

module _ ⦃lib : Library⦄ {P S : Type 0} (stages : Stages P S) (now : ℕ) where
  unfoldable pub settle : Result (Unit {0}) → World S → Bool × World S
  settle (ok _) w = (true, count_quarantined w)
  settle (err _) w = (false, w)

  -- `persistQuarantine`: whether the entry was stored. The raw store is always there.
  unfoldable pub persist_quarantine : QuarantineEntry → World S → Bool × World S
  unfolding settle draw run
  persist_quarantine e w =
      let (r, w') = run (quarantine_child e now (stages.random w.drawn)) (draw w) in settle r w'

  -- The entry for child `n` of a raw event, whose ID the store makes.
  abbrev pub entry_for : RawEvent → ℕ → Bytes → Bytes → Error → Bytes → Bool → QuarantineEntry
  entry_for raw n stage reason e preview eligible = record {
    quarantine_id = [];
    raw_id = raw.raw_id;
    record_ordinal = n;
    raw_sha256 = raw.raw_sha256;
    stage = stage;
    reason = reason;
    error_details = lib.error_text e;
    raw_preview = preview;
    candidate_packs = [];
    replay_eligible = eligible;
    quarantined_at = now;
    replayed_at = none;
  }

  module _ (raw : RawEvent) (dec : DecodedRecord) where
    -- `if !persistQuarantine(…) { unresolvedChild = true }; continue`
    unfoldable pub give_up : Bytes → Bytes → Error → World S → Bool × World S
    unfolding persist_quarantine
    give_up stage reason e w =
        let (stored, w') =
          persist_quarantine
            (entry_for raw dec.record_ordinal stage reason e (safe_preview dec.raw_payload 256)
              true)
            w in
        (not stored, w')

    -- Behind `StoreNormalizedWithOutbox`, with a sink that is not durable.
    delete_undelivered : Error → Result (Unit {0}) → World S → Bool × World S
    unfolding give_up
    delete_undelivered e (err _) w = (true, w)
    delete_undelivered e (ok _) w = give_up (codes "output") (codes "sink_error") e w

    after_emit : Result (Unit {0}) → World S → Bool × World S
    unfolding delete_undelivered run count_delivered count_normalized
    after_emit (ok _) w = (false, count_normalized (count_delivered w))
    after_emit (err e) w =
        let (r, w') = run (delete_normalized_child raw.raw_id dec.record_ordinal) w in
        delete_undelivered e r w'

    -- A durable sink has its intents stored already, and is only woken.
    deliver : Option (List Bytes) → NormalizedEvent → World S → Bool × World S
    unfolding after_emit count_normalized
    deliver (some _) event w = (false, count_normalized w)
    deliver none event w =
        let (r, s) = stages.emit event w.sink in after_emit r (record w { sink = s })

    after_store : Result NormalizedEvent → World S → Bool × World S
    unfolding deliver give_up
    after_store (err e) w = give_up (codes "storage") (codes "store_error") e w
    after_store (ok event) w = deliver stages.destinations event w

    destination_names : Option (List Bytes) → List Bytes
    destination_names none = []
    destination_names (some ds) = ds

    after_validate : Result NormalizedEvent → World S → Bool × World S
    unfolding after_store give_up run destination_names
    after_validate (err e) w = give_up (codes "validate") (codes "schema_error") e w
    after_validate (ok event) w =
        let (r, w') =
          run (store_normalized_with_outbox event now (destination_names stages.destinations)) w in
        after_store r w'

    after_normalize : Result NormalizedEvent → World S → Bool × World S
    unfolding after_validate give_up
    after_normalize (err e) w = give_up (codes "normalize") (codes "schema_error") e w
    after_normalize (ok event) w = after_validate (stages.validate now event) w

    -- The pass-through event where no pack manager is active.
    unfoldable pub generic_event : Bytes → List ProcessingStep → NormalizedEvent
    unfolding insert_absent
    generic_event rand history = record {
      envelope = record {
        event_id = lib.generic_event_id now rand;
        raw_id = raw.raw_id;
        raw_sha256 = raw.raw_sha256;
        raw_bytes = raw.byte_count;
        record_ordinal = dec.record_ordinal;
        source_category = codes "other";
        source_id = raw.source_ip;
        parser_pack = codes "generic-core";
        parser_version = codes "0.1.0";
        core_version = codes "0.1.0";
        schema_version = codes "1.3.0";
        received_time = raw.received_at;
        status = codes "normalized";
        warnings = codes "unclassified generic pass-through" ∷ [];
        processing_history = history;
      };
      ocsf = insert_absent (codes "class_name") (str (codes "Base Event")) (
          insert_absent (codes "category_name") (str (codes "Other Activity"))
            (insert_absent (codes "time") (int (pos raw.received_at)) (insert_all dec.fields end)));
    }

    unclassified_text : Bool
    unclassified_text = str_eq dec.format (codes "text") && leb (size dec.fields) 1

    pass_through : List ProcessingStep → World S → Bool × World S
    unfolding generic_event after_validate give_up draw unclassified_text
    pass_through history w =
        if unclassified_text
        then give_up (codes "parser_match") (codes "unknown_source")
            (invalid (codes "unclassified text requires a matching parser pack")) w
        else after_validate (stages.validate now (generic_event (stages.random w.drawn) history))
            (draw w)

    normalize_with : P → List ProcessingStep → World S → Bool × World S
    unfolding after_normalize draw
    normalize_with pack history w =
        let (r, seq) =
          stages.normalize w.event_seq (stages.random w.drawn) now raw dec pack
            (history ++ (step (codes "parser_match") now (stages.pack_label pack) ∷ [])) in
        after_normalize r (record (draw w) { event_seq = seq })

    after_match : List ProcessingStep → Matching P → World S → Bool × World S
    unfolding normalize_with give_up
    after_match history (no_match e) w = give_up (codes "parser_match") (codes "unknown_source") e w
    after_match history (ambiguous e) w =
        give_up (codes "parser_match") (codes "ambiguous_source") e w
    after_match history (matched pack) w = normalize_with pack history w

    match_child :
        Option (DecodedRecord → Matching P) → List ProcessingStep → World S → Bool × World S
    unfolding after_match pass_through
    match_child none history w = pass_through history w
    match_child (some snap) history w = after_match history (snap dec) w

    -- The stages of one child, from matching on.
    unfoldable pub process_stages : List ProcessingStep → World S → Bool × World S
    unfolding match_child
    process_stages history w =
        match_child stages.active (history ++ (step (codes "decode") now dec.format ∷ [])) w

    resume : List ProcessingStep → Result Bool → World S → Bool × World S
    unfolding process_stages
    resume history (err _) w = (true, w)
    resume history (ok true) w = (false, w)
    resume history (ok false) w = process_stages history w

    -- One turn of the loop over the children: whether it leaves the child unresolved.
    unfoldable pub process_child : Bool → List ProcessingStep → World S → Bool × World S
    unfolding resume run process_stages
    process_child false history w = process_stages history w
    process_child true history w =
        let (r, w') = run (has_completed_child raw.raw_id dec.record_ordinal) w in
        resume history r w'
