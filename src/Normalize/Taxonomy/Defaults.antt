-- ===== src/Normalize/Taxonomy/Defaults.antt =====
-- internal/normalize/normalizer.go and internal/ocsf/schema.go: the defaults of the one against the
-- taxonomy of the other.
use worm.Base.{
  true, false, ◌≡◌, refl, ◌∙◌, inl, inr, Option, none, some, Bytes, codes, arith, str_eq,
  str_eq_iff, Bool-cases, if◌then◌else◌,
}
use mathlib.Core.Bool.{false≢true}
use worm.Model.Value.{Value, Fields, str, lookup, lookup-insert}
use worm.Normalize.Taxonomy.{
  member, known_list, known_category, validate_taxonomy, default_to, defaults,
  enrich_taxonomy_defaults,
}

-- The text under a key, or nothing where no text stands there.
abbrev pub text_at : Bytes → Fields → Option Value
text_at k event = lookup k event

default_to_lem :
    (k j v : Bytes) (event : Fields)
    → lookup k event ≡ none
    → lookup j (default_to k v event) ≡ (if str_eq k j then some (str v) else lookup j event)
unfolding default_to
default_to_lem k j v event h = rw (h, default_to) (lookup-insert k j (str v) event)

lookup_default :
    (k v : Bytes) (event : Fields)
    → lookup k event ≡ none
    → lookup k (default_to k v event) ≡ some (str v)
lookup_default k v event h = default_to_lem k k v event h ∙ rw ((str_eq_iff k k).1 refl) refl

-- A default for another key.
lookup_other :
    (k j v : Bytes) (event : Fields)
    → str_eq k j ≡ false
    → lookup j (default_to k v event) ≡ lookup j event
unfolding default_to
lookup_other k j v event h = ground (arith, lookup-insert k j (str v) event)

category_of_defaults :
    (category class type : Bytes) (event : Fields)
    → lookup (codes "category_name") event ≡ none
    → lookup (codes "category_name") (defaults category class type event) ≡ some (str category)
unfolding defaults
category_of_defaults category class type event h =
    lookup_other (codes "type_name") (codes "category_name") type _ (unfold str_eq in refl)
    ∙ lookup_other (codes "class_name") (codes "category_name") class _ (unfold str_eq in refl)
    ∙ lookup_default (codes "category_name") category event h

class_of_defaults :
    (category class type : Bytes) (event : Fields)
    → lookup (codes "class_name") event ≡ none
    → lookup (codes "class_name") (defaults category class type event) ≡ some (str class)
unfolding defaults
class_of_defaults category class type event h =
    lookup_other (codes "type_name") (codes "class_name") type _ (unfold str_eq in refl)
    ∙ lookup_default (codes "class_name") class _ (
        lookup_other (codes "category_name") (codes "class_name") category event
          (unfold str_eq in refl)
        ∙ h)

-- An event has a category and a class, which the taxonomy allows for a source.
pub record IsGoverned (source : Bytes) (event : Fields) : Type 0 where
  pub category : Bytes
  pub class : Bytes
  pub category_is : lookup (codes "category_name") event ≡ some (str category)
  pub class_is : lookup (codes "class_name") event ≡ some (str class)
  pub allowed : validate_taxonomy source category class ≡ true

module _ (event : Fields) (no_category : lookup (codes "category_name") event ≡ none)
    (no_class : lookup (codes "class_name") event ≡ none) where
  governed :
      (source category class type : Bytes)
      → validate_taxonomy source category class ≡ true
      → IsGoverned source (defaults category class type event)
  governed source category class type h = record {
    category = category;
    class = class;
    category_is = category_of_defaults category class type event no_category;
    class_is = class_of_defaults category class type event no_class;
    allowed = h;
  }

  -- One test of the ladder: the literal is the source, or the tests go on.
  rung :
      (source known : Bytes) (x y : Fields)
      → (source ≡ known → IsGoverned source x)
      → (str_eq source known ≡ false → IsGoverned source y)
      → IsGoverned source (if str_eq source known then x else y)
  rung source known x y h k = elim (Bool-cases (str_eq source known)) [
    | inl e ↦ rw e (h ((str_eq_iff source known).0 e))
    | inr e ↦ rw e (k e)
  ]

  -- Where a pack's category is a known one and the event has no category and no class of its own,
  -- the defaults that the normalizer fills in are the ones that the pinned taxonomy asks for.
  pub enrich_taxonomy_defaults-IsGoverned :
      (source : Bytes)
      → known_category source ≡ true
      → IsGoverned source (enrich_taxonomy_defaults event source)
  unfolding enrich_taxonomy_defaults member
  enrich_taxonomy_defaults-IsGoverned source known =
      let listed : member source known_list ≡ true = unfold known_category in known in
      rung source (codes "network_device") _ _
        (λ p. rw p (governed _ _ _ _ (unfold validate_taxonomy str_eq in refl)))
        λ e0.
          rung source (codes "server") _ _
            (λ p. rw p (governed _ _ _ _ (unfold validate_taxonomy str_eq in refl)))
            λ e1.
              rung source (codes "os") _ _
                (λ p. rw p (governed _ _ _ _ (unfold validate_taxonomy str_eq in refl)))
                λ e2.
                  rung source (codes "endpoint") _ _
                    (λ p. rw p (governed _ _ _ _ (unfold validate_taxonomy str_eq in refl)))
                    λ e3.
                      rung source (codes "application") _ _
                        (λ p. rw p (governed _ _ _ _ (unfold validate_taxonomy str_eq in refl)))
                        λ e4.
                          rung source (codes "database") _ _
                            (λ p. rw p (governed _ _ _ _ (unfold validate_taxonomy str_eq in refl)))
                            λ e5.
                              rung source (codes "cloud") _ _
                                (λ p.
                                  rw p (governed _ _ _ _ (unfold validate_taxonomy str_eq in refl)))
                                λ e6.
                                  rung source (codes "container") _ _
                                    (λ p.
                                      rw p (
                                        governed _ _ _ _ (unfold validate_taxonomy str_eq in refl)))
                                    λ e7.
                                      rung source (codes "iam") _ _
                                        (λ p. rw p (
                                          governed _ _ _ _
                                            (unfold validate_taxonomy str_eq in refl)))
                                        λ e8.
                                          rung source (codes "iot") _ _
                                            (λ p. rw p (
                                              governed _ _ _ _
                                                (unfold validate_taxonomy str_eq in refl)))
                                            λ e9.
                                              rung source (codes "other") _ _
                                                (λ p. rw p (
                                                  governed _ _ _ _
                                                    (unfold validate_taxonomy str_eq in refl)))
                                                λ e10. absurd (
                                                  false≢true (
                                                    rw (e0, e1, e2, e3, e4, e5, e6, e7, e8, e9, e10)
                                                      at listed))
