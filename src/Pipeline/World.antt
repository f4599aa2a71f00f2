-- ===== src/Pipeline/World.antt =====
-- internal/pipeline: the state that the workers share, and the stages that they call.
use worm.Base.{
  ℕ, ◌+◌, ◌/◌, Bool, List, [], ◌∷◌, ◌++◌, Option, ltb, if◌then◌else◌, Bytes, codes, take, length, ℤ,
  pos, negsuc, ◌+ℤ◌,
}
use mathlib.Core.List.{flatten}
use worm.Library.{Library, Error}
use worm.Model.{RawEvent, DecodedRecord, NormalizedEvent, ProcessingStep}
use worm.Store.Action.{Result, Db, Action}

-- The counters of the loss accounting; each is an `atomic.Int64`.
pub record Counters : Type 0 where
  pub accepted : ℤ
  pub normalized : ℤ
  pub quarantined : ℤ
  pub pending : ℤ
  pub delivered : ℤ

-- What the fields of `Pipeline` hold while it runs. `sink` is the state of the output sink, `acks`
-- what was sent on the acknowledgement channels, `drawn` how often random bytes were read, and
-- `event_seq` the sequence number of the normalizer.
pub record World (S : Type 0) : Type 0 where
  pub db : Db
  pub counters : Counters
  pub sink : S
  pub acks : List Bool
  pub drawn : ℕ
  pub event_seq : ℕ

-- What `DetectAndDecode` returns.
pub data Detection : Type 0 where
  unknown : Error → Detection
  failed : Bytes → Error → Detection
  decoded : Bytes → List DecodedRecord → Detection

-- What `Snapshot.Match` returns.
pub data Matching (P : Type 0) : Type 0 where
  no_match : Error → Matching P
  ambiguous : Error → Matching P
  matched : P → Matching P

-- The components that the pipeline calls. `active` is the snapshot of the pack manager, if there
-- is one; `destinations` are those of a durable sink, if the sink is durable.
pub record Stages (P S : Type 0) : Type 0 where
  pub detect_and_decode : Bytes → Detection
  pub active : Option (DecodedRecord → Matching P)
  pub pack_label : P → Bytes
  pub normalize :
      ℕ
      → Bytes
      → ℕ
      → RawEvent
      → DecodedRecord
      → P
      → List ProcessingStep
      → Result NormalizedEvent × ℕ
  pub validate : ℕ → NormalizedEvent → Result NormalizedEvent
  pub destinations : Option (List Bytes)
  pub emit : NormalizedEvent → S → Result (Unit {0}) × S
  pub random : ℕ → Bytes

abbrev pub one : ℤ
one = pos 1

abbrev pub minus_one : ℤ
minus_one = negsuc 0

-- `p.accepted.Add(d); p.pending.Add(d)`
unfoldable pub admit : {S : Type 0} → ℤ → World S → World S
admit d w = record w {
  counters = record w.counters {
    accepted = w.counters.accepted +ℤ d;
    pending = w.counters.pending +ℤ d;
  };
}

-- `p.quarantined.Add(1); p.pending.Add(-1)`
unfoldable pub count_quarantined : {S : Type 0} → World S → World S
count_quarantined w = record w {
  counters = record w.counters {
    quarantined = w.counters.quarantined +ℤ one;
    pending = w.counters.pending +ℤ minus_one;
  };
}

-- `p.normalized.Add(1); p.pending.Add(-1)`
unfoldable pub count_normalized : {S : Type 0} → World S → World S
count_normalized w = record w {
  counters = record w.counters {
    normalized = w.counters.normalized +ℤ one;
    pending = w.counters.pending +ℤ minus_one;
  };
}

-- `p.delivered.Add(1)`
unfoldable pub count_delivered : {S : Type 0} → World S → World S
count_delivered w = record w {
  counters = record w.counters { delivered = w.counters.delivered +ℤ one };
}

-- An action on the database alone.
unfoldable pub run : {S A : Type 0} → Action A → World S → Result A × World S
run m w = ((m w.db).0, record w { db = (m w.db).1 })

-- An action whose error is dropped: `_ = …`.
unfoldable pub run_ : {S A : Type 0} → Action A → World S → World S
run_ m w = record w { db = (m w.db).1 }

-- `rand.Read`: the bytes are those at the number of earlier reads.
unfoldable pub draw : {S : Type 0} → World S → World S
draw w = record w { drawn = w.drawn + 1 }

module _ ⦃lib : Library⦄ where
  hex_limit : ℕ → Bytes → ℕ
  hex_limit n b = if ltb (length b) (n / 2) then length b else n / 2

  -- `safePreview(b, n)` for a positive `n`
  unfoldable pub safe_preview : Bytes → ℕ → Bytes
  unfolding hex_limit
  safe_preview [] n = []
  safe_preview (c ∷ b) n =
      if lib.valid_utf8 (c ∷ b)
      then flatten (take n (lib.runes (c ∷ b)))
      else codes "hex:" ++ lib.hex_encode (take (hex_limit n (c ∷ b)) (c ∷ b))
