-- ===== src/Normalize/Event/Governed.antt =====
-- `Normalize` of internal/normalize/normalizer.go behind `Validate` of internal/packs/pack.go: the
-- keys of an event, against the target paths of internal/ocsf/schema.go.
use worm.Base.{
  ℕ, ◌≡◌, refl, ◌∙◌, ap, Bool, true, false, ◌&&◌, ◌||◌, List, [], ◌∷◌, map, Option, none, some,
  Bytes, codes, str_eq, str_eq_iff, has_prefix, trim_prefix, Bool-cases, and_left, and_right,
  or_true, inl, inr,
}
use worm.Model.{RawEvent}
use worm.Model.Value.{lookup}
use worm.Packs.Lookup.{split_dots}
use worm.Packs.Match.{FieldRule, ParserPack}
use worm.Packs.Extract.{Extracted, is_among}
use worm.Packs.Validate.{
  Expressions, targets, target_allowed, has_field, fields_valid, rules_valid, heading_valid,
  with_test, with_regex, validate_pack,
}
use worm.Normalize.Taxonomy.Others.{enrich_taxonomy_defaults-other}
use worm.Normalize.Event.{ocsf_event}
use worm.Normalize.Event.Spared.{IsBeside, Spares, undefaulted, undefaulted-spared}

abbrev head_of : List Bytes → Bytes
head_of [] = []
head_of (part ∷ parts) = part

-- The key of the event under which a path stands.
unfoldable pub first_part : Bytes → Bytes
unfolding split_dots
first_part path = head_of (split_dots path)

-- The keys that the normalizer writes by itself, beside those of the targets.
abbrev pub own_keys : List Bytes
own_keys = codes "unmapped" ∷ codes "type_name" ∷ []

unfoldable pub is_governed_key : Bytes → Bool
unfolding first_part
is_governed_key key = is_among key (map first_part targets) || is_among key own_keys

first_part-among :
    (path : Bytes) (paths : List Bytes)
    → is_among path paths ≡ true
    → is_among (first_part path) (map first_part paths) ≡ true
first_part-among path [] h = cc
first_part-among path (other ∷ paths) h = elim (Bool-cases (str_eq other path)) [
  | inl e ↦
      let p = (str_eq_iff other path).0 e in
      let s = (str_eq_iff (first_part other) (first_part path)).1 (ap first_part p) in rw s refl
  | inr e ↦
      let h' : is_among path paths ≡ true = rw e at h in
      let rest = first_part-among path paths h' in
      rw rest (or_true (str_eq (first_part other) (first_part path)))
]

-- A key that is not governed is none of those that are.
other_key :
    (key governed : Bytes)
    → is_governed_key key ≡ false
    → is_governed_key governed ≡ true
    → str_eq governed key ≡ false
other_key key governed h g = elim (Bool-cases (str_eq governed key)) [
  | inl e ↦ let p = ap is_governed_key ((str_eq_iff governed key).0 e) in cc
  | inr e ↦ e
]

head_of-IsBeside :
    (key : Bytes) (parts : List Bytes) → str_eq (head_of parts) key ≡ false → IsBeside key parts
head_of-IsBeside key [] h = tt
head_of-IsBeside key (part ∷ parts) h = h

target-IsBeside :
    (key path : Bytes)
    → is_governed_key key ≡ false
    → target_allowed path ≡ true
    → IsBeside key (split_dots path)
unfolding target_allowed first_part is_governed_key
target-IsBeside key path h allowed =
    let g = first_part-among path targets allowed in
    head_of-IsBeside key (split_dots path) (other_key key (first_part path) h (rw g refl))

rules_valid-Spares :
    (key : Bytes) (fields : List (Bytes × FieldRule)) (rules : List (Bytes × Bytes))
    → is_governed_key key ≡ false
    → rules_valid fields rules ≡ true
    → Spares key rules
unfolding rules_valid
rules_valid-Spares key fields [] h valid = tt
rules_valid-Spares key fields ((source, target) ∷ rules) h valid =
    let path = trim_prefix target (codes "event.") in
    let begins = has_prefix target (codes "event.") in
    let known = has_field source fields in
    let guards =
      and_left (begins && target_allowed path && known) (rules_valid fields rules) valid in
    let named = and_left (begins && target_allowed path) known guards in
    (
      target-IsBeside key path h (and_right begins (target_allowed path) named),
      rules_valid-Spares key fields rules h
          (and_right (begins && target_allowed path && known) (rules_valid fields rules) valid),
    )

category_name_governed : is_governed_key (codes "category_name") ≡ true
unfolding is_governed_key first_part split_dots str_eq
category_name_governed = refl

class_name_governed : is_governed_key (codes "class_name") ≡ true
unfolding is_governed_key first_part split_dots str_eq
class_name_governed = refl

type_name_governed : is_governed_key (codes "type_name") ≡ true
unfolding is_governed_key first_part split_dots str_eq
type_name_governed = refl

unmapped_governed : is_governed_key (codes "unmapped") ≡ true
unfolding is_governed_key first_part split_dots str_eq
unmapped_governed = refl

time_governed : is_governed_key (codes "time") ≡ true
unfolding is_governed_key first_part split_dots str_eq
time_governed = refl

-- Every event that Normalize builds by the rules of a pack has governed keys only.
abbrev pub IsGovernedPack : Option ParserPack → Type 0
IsGovernedPack none = Unit
IsGovernedPack (some p) =
    (now : ℕ) (raw : RawEvent) (x : Extracted) (key : Bytes)
    → is_governed_key key ≡ false
    → lookup key (ocsf_event now raw p x) ≡ none

rules_valid-IsGovernedPack :
    (p : ParserPack) → rules_valid p.fields p.map_rules ≡ true → IsGovernedPack (some p)
unfolding ocsf_event
rules_valid-IsGovernedPack p valid now raw x key h =
    enrich_taxonomy_defaults-other key
      (record {
        no_category = other_key key (codes "category_name") h category_name_governed;
        no_class = other_key key (codes "class_name") h class_name_governed;
        no_type = other_key key (codes "type_name") h type_name_governed;
      })
      (undefaulted now raw p x) p.source_category
    ∙ undefaulted-spared now raw p x key (
      other_key key (codes "unmapped") h unmapped_governed,
      other_key key (codes "time") h time_governed,
      rules_valid-Spares key p.fields p.map_rules h valid,
    )

with_test-IsGovernedPack :
    (p : ParserPack) (test : Option (Bytes → Bool))
    → rules_valid p.fields p.map_rules ≡ true
    → IsGovernedPack (with_test p test)
with_test-IsGovernedPack p none valid = tt
with_test-IsGovernedPack p (some test) valid =
    rules_valid-IsGovernedPack (record p { compiled_regex = some test }) valid

module _ ⦃exprs : Expressions⦄ where
  with_regex-IsGovernedPack :
      (p : ParserPack) (regex : Bytes)
      → rules_valid p.fields p.map_rules ≡ true
      → IsGovernedPack (with_regex p regex)
  unfolding with_regex
  with_regex-IsGovernedPack p [] valid = rules_valid-IsGovernedPack p valid
  with_regex-IsGovernedPack p (c ∷ s) valid =
      with_test-IsGovernedPack p (exprs.compile (c ∷ s)) valid

  -- A pack that Validate accepts makes no key of an event but those of the pinned target paths,
  -- `unmapped` and `type_name`: whatever is extracted, Normalize builds an event that has nothing
  -- under any other key.
  pub validate_pack-IsGovernedPack : (p : ParserPack) → IsGovernedPack (validate_pack p)
  unfolding validate_pack
  validate_pack-IsGovernedPack p = elim (Bool-cases (heading_valid p)) [
    | inl e ↦ elim (Bool-cases (fields_valid p.fields && rules_valid p.fields p.map_rules)) [
      | inl e' ↦
          rw (IsGovernedPack, e, e')
            (with_regex-IsGovernedPack p p.match_regex
              (and_right (fields_valid p.fields) (rules_valid p.fields p.map_rules) e'))
      | inr e' ↦ rw (IsGovernedPack, e, e') tt
    ]
    | inr e ↦ rw (IsGovernedPack, e) tt
  ]
