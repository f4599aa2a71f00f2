-- ===== src/Normalize/Validate/Accepts.antt =====
-- `Normalize` of internal/normalize/normalizer.go and `Validate` of validate.go, the one behind the
-- other.
use worm.Base.{
  ℕ, ◌+◌, ◌<◌, ◌≡◌, refl, Bool, true, false, ◌&&◌, not, List, none, some, Bytes, codes, str_eq, pos,
  if◌then◌else◌, arith,
}
use worm.Library.{Library}
use worm.Store.Action.{Result, ok, err}
use worm.Model.{RawEvent, DecodedRecord, ProcessingStep, NormalizedEvent}
use worm.Model.Value.{Value, str, int, Fields, lookup}
use worm.Packs.Match.{ParserPack}
use worm.Packs.Extract.{Conversions, Extracted, not_null, extract_and_convert}
use worm.Normalize.Taxonomy.{known_category, validate_taxonomy}
use worm.Normalize.Taxonomy.Defaults.{IsGoverned}
use worm.Normalize.Taxonomy.Names.{capital, validate_taxonomy-capital}
use worm.Normalize.Event.{normalized_of, normalize_extracted, normalize}
use worm.Normalize.Event.Spared.{
  Spares, IsSpared, event_time, ocsf_event-time, ocsf_event-IsGoverned,
}
use worm.Normalize.Validate.{
  Checks, is_empty, envelope_ok, severity_ok, name_ok, taxonomy_ok, time_ok, endpoint_ok,
  check_event, verdict, validate,
}

-- What the checks read of Go's standard library.
pub record IsStandard (lib : Library) (checks : Checks) : Type 0 where
  -- `fmt.Sprint` of a text is the text.
  pub sprint_text : (s : Bytes) → lib.sprint (str s) ≡ s
  -- A text that begins with a capital letter is not blank.
  pub capital_shown : (s : Bytes) → capital s ≡ true → checks.blank s ≡ false
  -- The identifier of an event has a fixed beginning.
  pub event_named : (now seq : ℕ) (random : Bytes) → is_empty (lib.event_id now seq random) ≡ false

-- A raw event that was stored, and a pack whose rules leave category, class and time to the
-- normalizer.
pub record IsReady (now : ℕ) (raw : RawEvent) (pack : ParserPack) : Type 0 where
  pub identified : is_empty raw.raw_id ≡ false
  pub digested : is_empty raw.raw_sha256 ≡ false
  pub late : 0 < now
  pub known : known_category pack.source_category ≡ true
  pub category : IsSpared (codes "category_name") pack.map_rules
  pub class : IsSpared (codes "class_name") pack.map_rules
  pub time : Spares (codes "time") pack.map_rules

abbrev pub passes : Result NormalizedEvent → Bool
passes (ok event) = true
passes (err e) = false

module _ ⦃lib : Library⦄ ⦃conv : Conversions⦄ ⦃checks : Checks⦄ where
  -- What is left to check.
  unfoldable pub endpoints_ok : Fields → Bool
  endpoints_ok event =
      endpoint_ok (lookup (codes "src_endpoint") event)
      && endpoint_ok (lookup (codes "dst_endpoint") event)
      && severity_ok (not_null (lookup (codes "severity_id") event))

  name_shown :
      (s : Bytes) → IsStandard lib checks → capital s ≡ true → name_ok (some (str s)) ≡ true
  name_shown s std h = rw (std.sprint_text s, std.capital_shown s h) refl

  taxonomy_shown :
      (source category class : Bytes)
      → IsStandard lib checks
      → taxonomy_ok source (some (str category)) (some (str class))
        ≡ validate_taxonomy source category class
  unfolding taxonomy_ok validate_taxonomy
  taxonomy_shown source category class std =
      rw (taxonomy_ok, std.sprint_text category, std.sprint_text class) refl

  event_time-late :
      (now : ℕ) (raw : RawEvent) → 0 < now → time_ok (some (int (pos (event_time now raw)))) ≡ true
  event_time-late now raw h = ground arith

  passes-verdict :
      (later : ℕ) (event : NormalizedEvent) (a b c : Bool)
      → passes (
          verdict later event (
            if not a
            then some (codes "src_endpoint")
            else if not b
            then some (codes "dst_endpoint")
            else if not c
            then some (codes "severity_id")
            else none))
        ≡ (a && b && c)
  passes-verdict later event true true true = refl
  passes-verdict later event true true false = refl
  passes-verdict later event true false c = refl
  passes-verdict later event false b c = refl

  governed-passes :
      (later : ℕ) (event : NormalizedEvent) (time : Value)
      → IsStandard lib checks
      → envelope_ok event.envelope ≡ true
      → IsGoverned event.envelope.source_category event.ocsf
      → lookup (codes "time") event.ocsf ≡ some time
      → time_ok (not_null (some time)) ≡ true
      → passes (validate later event) ≡ endpoints_ok event.ocsf
  unfolding validate check_event endpoints_ok
  governed-passes later event time std envelope g time_is late =
      let (shown, shown') = validate_taxonomy-capital _ _ _ g.allowed in
      rw
        (
          envelope,
          g.category_is,
          g.class_is,
          time_is,
          name_shown g.category std shown,
          name_shown g.class std shown',
          taxonomy_shown event.envelope.source_category g.category g.class std,
          g.allowed,
          late,
        )
        (passes-verdict later event _ _ _)

  normalized_of-passes :
      (now seq later : ℕ) (random : Bytes) (raw : RawEvent) (decoded : DecodedRecord)
      (pack : ParserPack) (history : List ProcessingStep) (x : Extracted)
      → IsStandard lib checks
      → IsReady now raw pack
      → let event = normalized_of now random seq raw decoded pack history x in
        passes (validate later event) ≡ endpoints_ok event.ocsf
  unfolding normalized_of
  normalized_of-passes now seq later random raw decoded pack history x std ready =
      governed-passes later (normalized_of now random seq raw decoded pack history x)
        (int (pos (event_time now raw))) std
        (unfold envelope_ok str_eq in
          rw (std.event_named now seq random, ready.identified, ready.digested) refl)
        (ocsf_event-IsGoverned now raw pack x ready.known ready.category ready.class)
        (ocsf_event-time now raw pack x ready.time) (event_time-late now raw ready.late)

  -- What is known of the event that a Normalize returns.
  abbrev pub Passes : ℕ → Result NormalizedEvent → Type 0
  Passes later (err e) = Unit
  Passes later (ok event) = passes (validate later event) ≡ endpoints_ok event.ocsf

  normalize_extracted-Passes :
      (now seq later : ℕ) (random : Bytes) (raw : RawEvent) (decoded : DecodedRecord)
      (pack : ParserPack) (history : List ProcessingStep) (r : Result Extracted)
      → IsStandard lib checks
      → IsReady now raw pack
      → Passes later (normalize_extracted now random seq raw decoded pack history r).0
  unfolding normalize_extracted
  normalize_extracted-Passes now seq later random raw decoded pack history (err e) std ready = tt
  normalize_extracted-Passes now seq later random raw decoded pack history (ok x) std ready =
      normalized_of-passes now (seq + 1) later random raw decoded pack history x std ready

  -- Where a raw event has its identifier and its digest, the category of the pack is known, and no
  -- rule of the pack writes the category, the class or the time of the event, Validate accepts an
  -- event that Normalize returns exactly where its two endpoints and its severity pass their checks:
  -- none of the other checks refuses it.
  pub normalize-Passes :
      (now seq later : ℕ) (random : Bytes) (raw : RawEvent) (decoded : DecodedRecord)
      (pack : ParserPack) (history : List ProcessingStep)
      → IsStandard lib checks
      → IsReady now raw pack
      → Passes later (normalize seq random now raw decoded pack history).0
  unfolding normalize
  normalize-Passes now seq later random raw decoded pack history std ready =
      normalize_extracted-Passes now seq later random raw decoded pack history
        (extract_and_convert pack decoded) std ready
