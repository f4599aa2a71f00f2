-- ===== src/Decode/Detect/Ranked.antt =====
-- internal/decode/detect.go: the order of the candidates and the choice of the first.
use mathlib.Core.Path.{subst}
use worm.Base.{
  ℕ, ◌≤◌, true, false, List, [], ◌∷◌, ◌≡◌, inl, inr, some, arith, Bool-cases, Bytes, leb, Bool,
  ◌&&◌, refl, ◌∙◌, count_where,
}
use worm.Decode.Detect.{
  Decoder, CandidateScore, candidates, before, place, sort, detect_ranked, best, detect,
}

-- Every candidate has at most this confidence.
abbrev pub AllAtMost : ℕ → List CandidateScore → Type 0
AllAtMost n [] = Unit
AllAtMost n (c ∷ cs) = (c.confidence ≤ n) × AllAtMost n cs

-- No candidate has more confidence than one in front of it.
abbrev pub IsRanked : List CandidateScore → Type 0
IsRanked [] = Unit
IsRanked (c ∷ cs) = AllAtMost c.confidence cs × IsRanked cs

before-le : (a b : CandidateScore) → before a b ≡ true → b.confidence ≤ a.confidence
unfolding before
before-le a b h = ground arith

not_before-le : (a b : CandidateScore) → before a b ≡ false → a.confidence ≤ b.confidence
unfolding before
not_before-le a b h = ground arith

AllAtMost-mono : (m n : ℕ) (cs : List CandidateScore) → m ≤ n → AllAtMost m cs → AllAtMost n cs
AllAtMost-mono m n [] h a = tt
AllAtMost-mono m n (c ∷ cs) h a = (omega arith, AllAtMost-mono m n cs h a.1)

AllAtMost-place :
    (n : ℕ) (c : CandidateScore) (cs : List CandidateScore)
    → c.confidence ≤ n
    → AllAtMost n cs
    → AllAtMost n (place c cs)
unfolding place
AllAtMost-place n c [] h a = (h, tt)
AllAtMost-place n c (d ∷ ds) h a = elim (Bool-cases (before d c)) [
  | inl e ↦ rw e (a.0, AllAtMost-place n c ds h a.1)
  | inr e ↦ rw e (h, a)
]

IsRanked-place :
    (c : CandidateScore) (cs : List CandidateScore) → IsRanked cs → IsRanked (place c cs)
unfolding place
IsRanked-place c [] r = (tt, tt)
IsRanked-place c (d ∷ ds) r = elim (Bool-cases (before d c)) [
  | inl e ↦ rw e (AllAtMost-place d.confidence c ds (before-le d c e) r.0, IsRanked-place c ds r.1)
  | inr e ↦
      let le = not_before-le d c e in
      rw e ((le, AllAtMost-mono d.confidence c.confidence ds le r.0), r)
]

IsRanked-sort : (cs : List CandidateScore) → IsRanked (sort cs)
unfolding sort
IsRanked-sort [] = tt
IsRanked-sort (c ∷ cs) = IsRanked-place c (sort cs) (IsRanked-sort cs)

module _ (p : CandidateScore → Bool) where
  count_where-place :
      (c : CandidateScore) (cs : List CandidateScore)
      → count_where p (place c cs) ≡ count_where p (c ∷ cs)
  unfolding place count_where
  count_where-place c [] = refl
  count_where-place c (d ∷ ds) = ground (arith, count_where-place c ds)

  count_where-sort : (cs : List CandidateScore) → count_where p (sort cs) ≡ count_where p cs
  unfolding sort count_where
  count_where-sort [] = refl
  count_where-sort (c ∷ cs) = count_where-place c (sort cs) ∙ ground (arith, count_where-sort cs)

  count_where-candidates :
      (ds : List Decoder) (raw : Bytes)
      → count_where p (candidates ds raw)
        ≡ count_where
            (λ (d : Decoder).
              leb 50 (d.detect raw) && p (record { decoder = d; confidence = d.detect raw }))
            ds
  unfolding candidates count_where
  count_where-candidates [] raw = refl
  count_where-candidates (d ∷ ds) raw = ground (arith, count_where-candidates ds raw)

-- Of the candidates with any property, the ranking holds as many as there are decoders that claim
-- the bytes with a confidence of 0.50 or more and that have the property with it: no other candidate
-- is ranked, and none is lost or repeated. No candidate has more confidence than one in front of it.
pub detect_ranked-IsRanked :
    (ds : List Decoder) (raw : Bytes) (p : CandidateScore → Bool)
    → (count_where p (detect_ranked ds raw)
        ≡ count_where
            (λ (d : Decoder).
              leb 50 (d.detect raw) && p (record { decoder = d; confidence = d.detect raw }))
            ds)
      × IsRanked (detect_ranked ds raw)
unfolding detect_ranked
detect_ranked-IsRanked ds raw p = (
  count_where-sort p (candidates ds raw) ∙ count_where-candidates p ds raw,
  IsRanked-sort (candidates ds raw),
)

-- Every decoder of the registry claims the bytes with at most this confidence, or below 0.50.
abbrev pub NoneBetter : ℕ → List Decoder → Bytes → Type 0
NoneBetter n [] raw = Unit
NoneBetter n (d ∷ ds) raw = (leb 50 (d.detect raw) ≡ true → d.detect raw ≤ n) × NoneBetter n ds raw

NoneBetter-candidates :
    (n : ℕ) (ds : List Decoder) (raw : Bytes)
    → AllAtMost n (candidates ds raw)
    → NoneBetter n ds raw
unfolding candidates
NoneBetter-candidates n [] raw a = tt
NoneBetter-candidates n (d ∷ ds) raw a = elim (Bool-cases (leb 50 (d.detect raw))) [
  | inl e ↦ let b = rw (e, candidates) at a in ((λ h. b.0), NoneBetter-candidates n ds raw b.1)
  | inr e ↦ ((λ h. cc (h, e)), NoneBetter-candidates n ds raw (rw (e, candidates) at a))
]

AllAtMost-unplace :
    (n : ℕ) (c : CandidateScore) (cs : List CandidateScore)
    → AllAtMost n (place c cs)
    → (c.confidence ≤ n) × AllAtMost n cs
unfolding place
AllAtMost-unplace n c [] a = a
AllAtMost-unplace n c (d ∷ ds) a = elim (Bool-cases (before d c)) [
  | inl e ↦ let b = rw (e, place) at a in let (h, k) = AllAtMost-unplace n c ds b.1 in (h, (b.0, k))
  | inr e ↦ rw (e, place) at a
]

AllAtMost-unsort : (n : ℕ) (cs : List CandidateScore) → AllAtMost n (sort cs) → AllAtMost n cs
unfolding sort
AllAtMost-unsort n [] a = tt
AllAtMost-unsort n (c ∷ cs) a =
    let (h, k) = AllAtMost-unplace n c (sort cs) a in (h, AllAtMost-unsort n cs k)

best_lem :
    (cs : List CandidateScore) (c : CandidateScore)
    → IsRanked cs
    → best cs ≡ some c
    → AllAtMost c.confidence cs
unfolding best
best_lem [] c r h = cc
best_lem (d ∷ ds) c r h =
    let e : d ≡ c = ground (arith, h) in
    subst (λ x. AllAtMost x.confidence (d ∷ ds)) e (omega arith, r.0)

-- No decoder of the registry claims the bytes with more confidence than the one that `Detect` finds.
pub detect_best :
    (ds : List Decoder) (raw : Bytes) (c : CandidateScore)
    → detect ds raw ≡ some c
    → NoneBetter c.confidence ds raw
unfolding detect detect_ranked
detect_best ds raw c h = NoneBetter-candidates c.confidence ds raw (
    AllAtMost-unsort c.confidence (candidates ds raw)
      (best_lem (sort (candidates ds raw)) c (IsRanked-sort (candidates ds raw)) h))
