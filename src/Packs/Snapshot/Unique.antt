-- ===== src/Packs/Snapshot/Unique.antt =====
-- internal/packs/snapshot.go: the choice of a pack, and the names of a snapshot.
use worm.Base.{
  Bool, true, false, ◌||◌, List, [], ◌∷◌, ◌++◌, ◌≡◌, refl, sym, ◌∙◌, ap, inl, inr, Option, none,
  some, Bytes, arith, str_eq, str_eq_iff, Bool-cases, keep_where, append-nil, count_where, ◌+◌, ◌↔◌,
}
use mathlib.Core.Path.{subst}
use worm.Library.{Library}
use worm.Model.{DecodedRecord}
use worm.Packs.Match.{ParserPack, matches}
use worm.Packs.Snapshot.{Snapshot, built, exists_name, build, new_snapshot, matched, choose, match}

-- `p` stands in the list and passes the test, and nothing else there does.
pub record IsSole (test : ParserPack → Bool) (ps : List ParserPack) (p : ParserPack) : Type 0 where
  pub before : List ParserPack
  pub after : List ParserPack
  pub splits : ps ≡ before ++ (p ∷ after)
  pub passes : test p ≡ true
  pub no_other : count_where test before + count_where test after ≡ 0

module _ (test : ParserPack → Bool) where
  keep_none : (ps : List ParserPack) → count_where test ps ≡ 0 → keep_where test ps ≡ []
  unfolding keep_where count_where
  keep_none [] h = refl
  keep_none (q ∷ ps) h = ground (arith, keep_none ps)

  count_none : (ps : List ParserPack) → keep_where test ps ≡ [] → count_where test ps ≡ 0
  unfolding keep_where count_where
  count_none [] h = refl
  count_none (q ∷ ps) h = elim (Bool-cases (test q)) [
    | inl e ↦ cc (rw (e, keep_where) at h)
    | inr e ↦ rw e (omega (arith, count_none ps (rw e at h)))
  ]

  keep-append :
      (xs ys : List ParserPack)
      → keep_where test (xs ++ ys) ≡ keep_where test xs ++ keep_where test ys
  unfolding keep_where
  keep-append [] ys = refl
  keep-append (x ∷ xs) ys = elim (Bool-cases (test x)) [
    | inl e ↦ rw (e, keep-append xs ys)
    | inr e ↦ rw (e, keep-append xs ys)
  ]

  IsSole-here :
      (q p : ParserPack) (ps : List ParserPack)
      → test q ≡ true
      → q ∷ keep_where test ps ≡ p ∷ []
      → IsSole test (q ∷ ps) p
  unfolding count_where
  IsSole-here q p ps e h = record {
    before = [];
    after = ps;
    splits = cc;
    passes = cc;
    no_other = omega (arith, count_none ps cc);
  }

  IsSole-cons :
      (q p : ParserPack) (ps : List ParserPack)
      → test q ≡ false
      → IsSole test ps p
      → IsSole test (q ∷ ps) p
  unfolding count_where
  IsSole-cons q p ps e s = record {
    before = q ∷ s.before;
    after = s.after;
    splits = ap (◌∷◌ q) s.splits;
    passes = s.passes;
    no_other = rw e (omega (arith, s.no_other));
  }

  keep-IsSole :
      (ps : List ParserPack) (p : ParserPack) → keep_where test ps ≡ p ∷ [] → IsSole test ps p
  unfolding keep_where
  keep-IsSole [] p h = cc
  keep-IsSole (q ∷ ps) p h = elim (Bool-cases (test q)) [
    | inl e ↦ IsSole-here q p ps e (rw e at h)
    | inr e ↦ IsSole-cons q p ps e (keep-IsSole ps p (rw e at h))
  ]

  IsSole-keep :
      (ps : List ParserPack) (p : ParserPack) → IsSole test ps p → keep_where test ps ≡ p ∷ []
  unfolding keep_where
  IsSole-keep ps p s =
      ap (keep_where test) s.splits
      ∙ keep-append s.before (p ∷ s.after)
      ∙ rw
          (
            s.passes,
            keep_none s.before (omega (arith, s.no_other)),
            keep_none s.after (omega (arith, s.no_other)),
          )
          refl

choose-matched : (ps : List ParserPack) (p : ParserPack) → choose ps ≡ matched p → ps ≡ p ∷ []
unfolding choose
choose-matched [] p h = cc
choose-matched (q ∷ []) p h = cc
choose-matched (q ∷ r ∷ ps) p h = cc

module _ ⦃lib : Library⦄ where
  -- A snapshot chooses a pack exactly when it is the only one of its packs that the record matches.
  pub match-IsSole :
      (s : Snapshot) (rec : DecodedRecord) (p : ParserPack)
      → (match s rec ≡ matched p) ↔ IsSole (λ q. matches q rec) s.ordered p
  unfolding match choose
  match-IsSole s rec p = (
    λ h. keep-IsSole (λ q. matches q rec) s.ordered p (choose-matched _ p h),
    λ h. ap choose (IsSole-keep (λ q. matches q rec) s.ordered p h),
  )

-- No name comes twice.
abbrev pub IsUnique : List ParserPack → Type 0
IsUnique [] = Unit
IsUnique (p ∷ ps) = (exists_name p.name ps ≡ false) × IsUnique ps

exists_name-append :
    (n : Bytes) (xs : List ParserPack) (p : ParserPack)
    → exists_name n (xs ++ (p ∷ [])) ≡ exists_name n xs || str_eq p.name n
unfolding exists_name
exists_name-append n [] p = ground arith
exists_name-append n (x ∷ xs) p = ground (arith, exists_name-append n xs p)

IsUnique-append :
    (xs : List ParserPack) (p : ParserPack)
    → IsUnique xs
    → exists_name p.name xs ≡ false
    → IsUnique (xs ++ (p ∷ []))
unfolding exists_name
IsUnique-append [] p u h = (refl, tt)
IsUnique-append (x ∷ xs) p u h = (
  ground
      (arith, exists_name-append x.name xs p, str_eq_iff x.name p.name, str_eq_iff p.name x.name),
  IsUnique-append xs p u.1 (ground arith),
)

-- The packs of a list, as `NewSnapshot` is given them.
abbrev pub present : List ParserPack → List (Option ParserPack)
present [] = []
present (p ∷ ps) = some p ∷ present ps

present-append :
    (xs : List ParserPack) (p : ParserPack) (rest : List (Option ParserPack))
    → present (xs ++ (p ∷ [])) ++ rest ≡ present xs ++ (some p ∷ rest)
present-append [] p rest = refl
present-append (x ∷ xs) p rest = ap (◌∷◌ (some x)) (present-append xs p rest)

build-IsUnique :
    (version : Bytes) (packs : List (Option ParserPack)) (ordered : List ParserPack) (s : Snapshot)
    → IsUnique ordered
    → build version ordered packs ≡ built s
    → IsUnique s.ordered × (present s.ordered ≡ present ordered ++ packs)
unfolding build
build-IsUnique version [] ordered s u h =
    let e : s.ordered ≡ ordered = ground (arith, h) in
    (subst IsUnique (sym e) u, ap present e ∙ sym (append-nil (present ordered)))
build-IsUnique version (none ∷ packs) ordered s u h = cc
build-IsUnique version (some p ∷ packs) ordered s u h =
    elim (Bool-cases (exists_name p.name ordered)) [
      | inl e ↦ cc (rw (e, build) at h)
      | inr e ↦
          let (v, q) =
            build-IsUnique version packs (ordered ++ (p ∷ [])) s (IsUnique-append ordered p u e)
              (rw (e, build) at h) in
          (v, q ∙ present-append ordered p packs)
    ]

-- A snapshot that is built holds exactly the packs that were given, in their order, and no two of
-- them have the same name.
pub new_snapshot-IsUnique :
    (version : Bytes) (packs : List (Option ParserPack)) (s : Snapshot)
    → new_snapshot version packs ≡ built s
    → IsUnique s.ordered × (present s.ordered ≡ packs)
unfolding new_snapshot
new_snapshot-IsUnique version packs s h = build-IsUnique version packs [] s tt h
