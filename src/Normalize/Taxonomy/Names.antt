-- ===== src/Normalize/Taxonomy/Names.antt =====
-- internal/ocsf/schema.go: the names of the taxonomy begin with a capital letter.
use worm.Base.{
  ◌≡◌, refl, ◌∙◌, ap, Bool, true, false, ◌&&◌, List, [], ◌∷◌, Option, none, some, Bytes, leb,
  str_eq, str_eq_iff, Bool-cases, and_left, and_right, inl, inr,
}
use mathlib.Core.Bool.{false≢true}
use worm.Normalize.Taxonomy.{Taxonomy, taxonomy, find_taxonomy, agrees, validate_taxonomy}

abbrev pub capital : Bytes → Bool
capital [] = false
capital (c ∷ s) = leb b'A' c && leb c b'Z'

abbrev named : Taxonomy → Bool
named t = capital t.category_name && capital t.class_name

abbrev all_named : List (Bytes × Taxonomy) → Bool
all_named [] = true
all_named ((k, t) ∷ ts) = named t && all_named ts

agrees-named :
    (o : Option Taxonomy) (category class : Bytes)
    → ((t : Taxonomy) → o ≡ some t → named t ≡ true)
    → agrees o category class ≡ true
    → (capital category ≡ true) × (capital class ≡ true)
unfolding agrees
agrees-named none category class h a = absurd (false≢true a)
agrees-named (some t) category class h a =
    let n = h t refl in
    let e = str_eq_iff category t.category_name in
    let e' = str_eq_iff class t.class_name in
    (
      ap capital (e.0 (and_left (str_eq category t.category_name) (str_eq class t.class_name) a))
          ∙ and_left (capital t.category_name) (capital t.class_name) n,
      ap capital (e'.0 (and_right (str_eq category t.category_name) (str_eq class t.class_name) a))
          ∙ and_right (capital t.category_name) (capital t.class_name) n,
    )

find_taxonomy-named :
    (k : Bytes) (ts : List (Bytes × Taxonomy)) (t : Taxonomy)
    → all_named ts ≡ true
    → find_taxonomy k ts ≡ some t
    → named t ≡ true
unfolding find_taxonomy
find_taxonomy-named k [] t all h = let h' : none ≡ some t = h in cc
find_taxonomy-named k ((j, t') ∷ ts) t all h = elim (Bool-cases (str_eq j k)) [
  | inl e ↦
      let h' : some t' ≡ some t = rw (find_taxonomy, e) at h in
      let all' = and_left (named t') (all_named ts) all in cc
  | inr e ↦
      find_taxonomy-named k ts t (and_right (named t') (all_named ts) all)
        (rw (find_taxonomy, e) at h)
]

-- A category and a class that the taxonomy allows begin with a capital letter.
pub validate_taxonomy-capital :
    (source category class : Bytes)
    → validate_taxonomy source category class ≡ true
    → (capital category ≡ true) × (capital class ≡ true)
unfolding validate_taxonomy
validate_taxonomy-capital source category class h =
    agrees-named (find_taxonomy source taxonomy) category class
      (λ t e. find_taxonomy-named source taxonomy t refl e) h
