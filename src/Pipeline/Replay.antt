-- ===== src/Pipeline/Replay.antt =====
-- `Replay` of internal/pipeline/pipeline.go: a quarantined child is processed again.
pub mod Atomic
pub mod Load
use worm.Base.{
  ℕ, Bool, true, false, List, [], ◌∷◌, ◌++◌, Option, none, some, ◌==◌, if◌then◌else◌, Bytes, codes,
  ℤ, pos, negsuc, ◌+ℤ◌,
}
use worm.Library.{Library, Error, invalid}
use worm.Model.{RawEvent, DecodedRecord, NormalizedEvent, ProcessingStep, QuarantineEntry}
use worm.Store.Action.{Result, ok, err, Action, pure, raise, ◌>>=◌}
use worm.Store.Raw.{retrieve, verify}
use worm.Store.Dead.{get_quarantine_by_id}
use worm.Store.Normal.{resolve_quarantine_with_outbox}
use worm.Pipeline.World.{
  World, Stages, Detection, unknown, failed, decoded, Matching, no_match, ambiguous, matched, run,
  draw, one, minus_one, count_delivered,
}
use worm.Pipeline.Child.{step}

-- How a replay ends: with an error before its commit, with an error of the sink behind it, or well.
pub data Replayed : Type 0 where
  rejected : Error → Replayed
  undelivered : Error → Replayed
  replayed : NormalizedEvent → Replayed

-- The child with this ordinal.
find_ordinal : ℕ → List DecodedRecord → Option DecodedRecord
find_ordinal n [] = none
find_ordinal n (d ∷ ds) = if d.record_ordinal == n then some d else find_ordinal n ds

or_first : DecodedRecord → Option DecodedRecord → DecodedRecord
or_first d none = d
or_first d (some e) = e

unfoldable pub names_of : Option (List Bytes) → List Bytes
names_of none = []
names_of (some ds) = ds

unfoldable pub is_positive : ℤ → Bool
is_positive (pos n) = if n == 0 then false else true
is_positive (negsuc n) = false

-- `if p.quarantined.Load() > 0 { p.quarantined.Add(-1) }; p.normalized.Add(1)`
unfoldable pub count_replayed : {S : Type 0} → World S → World S
unfolding is_positive
count_replayed w = record w {
  counters = record w.counters {
    quarantined =
        if is_positive w.counters.quarantined
        then w.counters.quarantined +ℤ minus_one
        else w.counters.quarantined;
    normalized = w.counters.normalized +ℤ one;
  };
}

module _ ⦃lib : Library⦄ where
  check_digest : QuarantineEntry → RawEvent → Bool × Bytes → Action (QuarantineEntry × RawEvent)
  check_digest entry raw (true, _) = pure (entry, raw)
  check_digest entry raw (false, _) = raise (invalid (codes "cryptographic integrity check failed"))

  -- The entry, and the raw event behind it with a digest that verifies.
  unfoldable pub load_quarantined : Bytes → Action (QuarantineEntry × RawEvent)
  unfolding check_digest
  load_quarantined id = do
    entry ← get_quarantine_by_id id
    raw ← retrieve entry.raw_id
    checked ← verify entry.raw_id
    check_digest entry raw checked

module _ ⦃lib : Library⦄ {P S : Type 0} (stages : Stages P S) (now : ℕ) where
  replay_emit : NormalizedEvent → Result (Unit {0}) → World S → Replayed × World S
  replay_emit event (ok _) w = (replayed event, count_delivered w)
  replay_emit event (err e) w = (undelivered e, w)

  -- A durable sink has its intents stored already, and is only woken.
  replay_deliver : Option (List Bytes) → NormalizedEvent → World S → Replayed × World S
  unfolding replay_emit
  replay_deliver (some _) event w = (replayed event, w)
  replay_deliver none event w =
      let (r, s) = stages.emit event w.sink in replay_emit event r (record w { sink = s })

  unfoldable pub replay_resolved : Result NormalizedEvent → World S → Replayed × World S
  unfolding replay_deliver count_replayed
  replay_resolved (err e) w = (rejected e, w)
  replay_resolved (ok event) w = replay_deliver stages.destinations event (count_replayed w)

  module _ (id : Bytes) where
    replay_validated : Result NormalizedEvent → World S → Replayed × World S
    unfolding replay_resolved run names_of
    replay_validated (err e) w = (rejected e, w)
    replay_validated (ok event) w =
        let (r, w') =
          run (resolve_quarantine_with_outbox id event now (names_of stages.destinations)) w in
        replay_resolved r w'

    replay_normalized : Result NormalizedEvent → World S → Replayed × World S
    unfolding replay_validated
    replay_normalized (err e) w = (rejected e, w)
    replay_normalized (ok event) w = replay_validated (stages.validate now event) w

    history_of : RawEvent → Bytes → DecodedRecord → P → List ProcessingStep
    history_of raw name dec pack =
        step (codes "raw_commit") raw.received_at (codes "ok")
        ∷ step (codes "format_detect") now name
        ∷ step (codes "decode") now dec.format
        ∷ step (codes "parser_match") now (stages.pack_label pack)
        ∷ []

    replay_matched : RawEvent → Bytes → DecodedRecord → Matching P → World S → Replayed × World S
    unfolding replay_normalized history_of draw
    replay_matched raw name dec (no_match e) w = (rejected e, w)
    replay_matched raw name dec (ambiguous e) w = (rejected e, w)
    replay_matched raw name dec (matched pack) w =
        let (r, seq) =
          stages.normalize w.event_seq (stages.random w.drawn) now raw dec pack
            (history_of raw name dec pack) in
        replay_normalized r (record (draw w) { event_seq = seq })

    replay_child :
        RawEvent
        → Bytes
        → DecodedRecord
        → Option (DecodedRecord → Matching P)
        → World S
        → Replayed × World S
    unfolding replay_matched
    replay_child raw name dec none w =
        (rejected (invalid (codes "no active parser pack snapshot")), w)
    replay_child raw name dec (some snap) w = replay_matched raw name dec (snap dec) w

    replay_detected : QuarantineEntry → RawEvent → Detection → World S → Replayed × World S
    unfolding replay_child find_ordinal or_first
    replay_detected entry raw (unknown e) w = (rejected e, w)
    replay_detected entry raw (failed name e) w = (rejected e, w)
    replay_detected entry raw (decoded name []) w =
        (rejected (invalid (codes "no decoded records")), w)
    replay_detected entry raw (decoded name (d ∷ ds)) w =
        replay_child raw name (or_first d (find_ordinal entry.record_ordinal (d ∷ ds)))
          stages.active w

    replay_loaded : Result (QuarantineEntry × RawEvent) → World S → Replayed × World S
    unfolding replay_detected
    replay_loaded (err e) w = (rejected e, w)
    replay_loaded (ok (entry, raw)) w =
        replay_detected entry raw (stages.detect_and_decode raw.payload) w

    unfoldable pub replay : World S → Replayed × World S
    unfolding replay_loaded run
    replay w = let (r, w') = run (load_quarantined id) w in replay_loaded r w'
