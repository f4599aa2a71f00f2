-- ===== src/Decode/Detect.antt =====
-- internal/decode/detect.go. A confidence is a float64 constant with two digits in the source; it
-- is kept in hundredths.
pub mod Ranked
use worm.Base.{
  ℕ, Bool, true, false, ◌&&◌, not, List, [], ◌∷◌, ◌++◌, Option, none, some, ◌==◌, ltb, leb,
  if◌then◌else◌, Bytes, codes, str_eq, str_lt,
}
use worm.Model.{DecodedRecord}
use worm.Library.{Error, ambiguous_format, unrecognized, decode_failed}
use worm.Store.Action.{Result, ok, err}
use worm.Pipeline.World.{Detection, unknown, failed, decoded}

-- The interface `Decoder`.
pub record Decoder : Type 0 where
  pub name : Bytes
  pub detect : Bytes → ℕ
  pub decode : Bytes → Result (List DecodedRecord)

pub record CandidateScore : Type 0 where
  pub decoder : Decoder
  pub confidence : ℕ

abbrev pub name_of : CandidateScore → Bytes
name_of c = c.decoder.name

-- The decoders that claim the bytes with a confidence of 0.50 or more, in their order.
unfoldable pub candidates : List Decoder → Bytes → List CandidateScore
candidates [] raw = []
candidates (d ∷ ds) raw =
    let rest = candidates ds raw in
    if leb 50 (d.detect raw) then record { decoder = d; confidence = d.detect raw } ∷ rest else rest

-- The `less` function of the sort.
unfoldable pub before : CandidateScore → CandidateScore → Bool
unfolding str_lt
before a b =
    if not (a.confidence == b.confidence)
    then ltb b.confidence a.confidence
    else if str_eq (name_of a) (codes "text") && not (str_eq (name_of b) (codes "text"))
    then false
    else if str_eq (name_of b) (codes "text") && not (str_eq (name_of a) (codes "text"))
    then true
    else if str_eq (name_of a) (codes "syslog")
    then true
    else if str_eq (name_of b) (codes "syslog")
    then false
    else str_lt (name_of a) (name_of b)

-- `sort.SliceStable`, as an insertion from the right: an element stays in front of those that are
-- not before it.
unfoldable pub place : CandidateScore → List CandidateScore → List CandidateScore
place c [] = c ∷ []
place c (d ∷ ds) = let later = d ∷ place c ds in if before d c then later else c ∷ d ∷ ds

unfoldable pub sort : List CandidateScore → List CandidateScore
unfolding place
sort [] = []
sort (c ∷ cs) = place c (sort cs)

unfoldable pub detect_ranked : List Decoder → Bytes → List CandidateScore
unfolding sort candidates
detect_ranked ds raw = sort (candidates ds raw)

best : List CandidateScore → Option CandidateScore
best [] = none
best (c ∷ cs) = some c

-- `Registry.Detect`
unfoldable pub detect : List Decoder → Bytes → Option CandidateScore
unfolding best
detect ds raw = best (detect_ranked ds raw)

run_decoder : Decoder → Result (List DecodedRecord) → Detection
run_decoder d (ok records) = decoded d.name records
run_decoder d (err e) = failed d.name (decode_failed d.name)

-- Two candidates at the top that no rule prefers one of.
unfoldable pub is_ambiguous : CandidateScore → List CandidateScore → Bool
is_ambiguous c [] = false
is_ambiguous c (d ∷ ds) =
    c.confidence == d.confidence
    && not (str_eq (name_of c) (codes "text"))
    && not (str_eq (name_of d) (codes "text"))
    && not (str_eq (name_of c) (codes "syslog"))

decode_best : Bytes → List CandidateScore → Detection
unfolding run_decoder is_ambiguous
decode_best raw [] = unknown unrecognized
decode_best raw (c ∷ cs) =
    if is_ambiguous c cs
    then unknown ambiguous_format
    else run_decoder c.decoder (c.decoder.decode raw)

unfoldable pub detect_and_decode : List Decoder → Bytes → Detection
unfolding decode_best
detect_and_decode ds raw = decode_best raw (detect_ranked ds raw)
