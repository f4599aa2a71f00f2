-- ===== src/Normalize/Taxonomy/Others.antt =====
-- `enrichTaxonomyDefaults` of internal/normalize/normalizer.go: the keys that it leaves alone.
use worm.Base.{◌≡◌, refl, ◌∙◌, Bool, true, false, Bytes, codes, arith, str_eq, if◌then◌else◌}
use worm.Model.Value.{Fields, str, lookup, lookup-insert}
use worm.Normalize.Taxonomy.{default_to, defaults, enrich_taxonomy_defaults}

-- None of the keys of the defaults.
pub record IsOther (key : Bytes) : Type 0 where
  pub no_category : str_eq (codes "category_name") key ≡ false
  pub no_class : str_eq (codes "class_name") key ≡ false
  pub no_type : str_eq (codes "type_name") key ≡ false

default_to-other :
    (k j v : Bytes) (event : Fields)
    → str_eq k j ≡ false
    → lookup j (default_to k v event) ≡ lookup j event
unfolding default_to
default_to-other k j v event h = ground (arith, lookup-insert k j (str v) event)

module _ (key : Bytes) (other : IsOther key) (event : Fields) where
  record IsKept (x : Fields) : Type 0 where
    pub same : lookup key x ≡ lookup key event

  defaults-IsKept : (category class type : Bytes) → IsKept (defaults category class type event)
  unfolding defaults
  defaults-IsKept category class type = record {
    same =
        default_to-other (codes "type_name") key type _ other.no_type
        ∙ default_to-other (codes "class_name") key class _ other.no_class
        ∙ default_to-other (codes "category_name") key category event other.no_category;
  }

  event-IsKept : IsKept event
  event-IsKept = record { same = refl }

  either-IsKept : (b : Bool) (x y : Fields) → IsKept x → IsKept y → IsKept (if b then x else y)
  either-IsKept true x y h h' = h
  either-IsKept false x y h h' = h'

  ladder : (source : Bytes) → IsKept (enrich_taxonomy_defaults event source)
  unfolding enrich_taxonomy_defaults
  ladder source = search (either-IsKept, defaults-IsKept, event-IsKept) depth 14

  pub enrich_taxonomy_defaults-other :
      (source : Bytes) → lookup key (enrich_taxonomy_defaults event source) ≡ lookup key event
  enrich_taxonomy_defaults-other source = (ladder source).same
