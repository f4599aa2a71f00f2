-- ===== src/Normalize/Event/Spared.antt =====
-- `Normalize` of internal/normalize/normalizer.go: the keys of the event that the rules of a pack do
-- not write.
use worm.Base.{
  ℕ, ◌≡◌, refl, ◌∙◌, ap, true, false, ◌&&◌, List, [], ◌∷◌, Option, none, some, Bytes, codes, str_eq,
  str_eq_iff, ltb, trim_prefix, pos, ◌==◌, if◌then◌else◌, arith, Bool-cases, inl, inr,
}
use worm.Model.{RawEvent}
use worm.Model.Value.{Value, int, obj, Fields, end, lookup, insert, size, lookup-insert}
use worm.Packs.Lookup.{split_dots, set_path, set_nested_value}
use worm.Packs.Match.{ParserPack}
use worm.Packs.Extract.{Extracted, not_null}
use worm.Normalize.Taxonomy.{known_category}
use worm.Normalize.Taxonomy.Defaults.{IsGoverned, enrich_taxonomy_defaults-IsGoverned}
use worm.Normalize.Taxonomy.Others.{enrich_taxonomy_defaults-other}
use worm.Normalize.Event.{
  set_mapped, map_fields, time_or, default_time, with_unmapped_fields, ocsf_event,
}

-- The path does not begin with the key.
abbrev pub IsBeside : Bytes → List Bytes → Type 0
IsBeside key [] = Unit
IsBeside key (part ∷ parts) = str_eq part key ≡ false

-- No rule writes under the key.
abbrev pub Spares : Bytes → List (Bytes × Bytes) → Type 0
Spares key [] = Unit
Spares key ((source, target) ∷ rules) =
    IsBeside key (split_dots (trim_prefix target (codes "event."))) × Spares key rules

insert-beside :
    (k j : Bytes) (v : Value) (m : Fields)
    → str_eq k j ≡ false
    → lookup j (insert k v m) ≡ lookup j m
insert-beside k j v m h = lookup-insert k j v m ∙ rw h refl

insert-at : (k : Bytes) (v : Value) (m : Fields) → lookup k (insert k v m) ≡ some v
insert-at k v m = ground (arith, lookup-insert k k v m, str_eq_iff k k)

set_path-beside :
    (key : Bytes) (parts : List Bytes) (v : Value) (m : Fields)
    → IsBeside key parts
    → lookup key (set_path parts v m) ≡ lookup key m
unfolding set_path
set_path-beside key [] v m h = refl
set_path-beside key (part ∷ []) v m h = insert-beside part key _ m h
set_path-beside key (part ∷ next ∷ parts) v m h = insert-beside part key _ m h

set_mapped-beside :
    (key target : Bytes) (event : Fields) (o : Option Value)
    → IsBeside key (split_dots (trim_prefix target (codes "event.")))
    → lookup key (set_mapped target event o) ≡ lookup key event
unfolding set_mapped set_nested_value
set_mapped-beside key target event none h = refl
set_mapped-beside key target event (some v) h = set_path-beside key _ v event h

pub map_fields-spared :
    (key : Bytes) (rules : List (Bytes × Bytes)) (extracted event : Fields)
    → Spares key rules
    → lookup key (map_fields rules extracted event) ≡ lookup key event
unfolding map_fields
map_fields-spared key [] extracted event h = refl
map_fields-spared key ((source, target) ∷ rules) extracted event h =
    map_fields-spared key rules extracted _ h.1
    ∙ set_mapped-beside key target event (not_null (lookup source extracted)) h.0

-- The event before the defaults of the taxonomy.
abbrev pub timed : ℕ → RawEvent → ParserPack → Extracted → Fields
timed now raw pack x = default_time now raw.received_at (map_fields pack.map_rules x.fields end)

abbrev pub undefaulted : ℕ → RawEvent → ParserPack → Extracted → Fields
undefaulted now raw pack x = with_unmapped_fields pack x.unmapped (timed now raw pack x)

with_unmapped_fields-beside :
    (key : Bytes) (pack : ParserPack) (unmapped event : Fields)
    → str_eq (codes "unmapped") key ≡ false
    → lookup key (with_unmapped_fields pack unmapped event) ≡ lookup key event
unfolding with_unmapped_fields
with_unmapped_fields-beside key pack unmapped event h =
    elim (Bool-cases (pack.preserve_unmapped && ltb 0 (size unmapped))) [
      | inl e ↦ rw e (insert-beside (codes "unmapped") key (obj unmapped) event h)
      | inr e ↦ rw e refl
    ]

time_or-beside :
    (now received : ℕ) (key : Bytes) (event : Fields) (o : Option Value)
    → str_eq (codes "time") key ≡ false
    → lookup key (time_or now received event o) ≡ lookup key event
time_or-beside now received key event (some v) h = refl
time_or-beside now received key event none h = insert-beside (codes "time") key _ event h

-- A key that the normalizer and the rules of the pack leave alone.
abbrev pub IsSpared : Bytes → List (Bytes × Bytes) → Type 0
IsSpared key rules =
    (str_eq (codes "unmapped") key ≡ false) × (str_eq (codes "time") key ≡ false) × Spares key rules

pub undefaulted-spared :
    (now : ℕ) (raw : RawEvent) (pack : ParserPack) (x : Extracted) (key : Bytes)
    → IsSpared key pack.map_rules
    → lookup key (undefaulted now raw pack x) ≡ none
unfolding default_time lookup
undefaulted-spared now raw pack x key (no_unmapped, no_time, spared) =
    with_unmapped_fields-beside key pack x.unmapped _ no_unmapped
    ∙ time_or-beside now raw.received_at key _ _ no_time
    ∙ map_fields-spared key pack.map_rules x.fields end spared

-- The time of the event, where no rule writes one.
abbrev pub event_time : ℕ → RawEvent → ℕ
event_time now raw = if raw.received_at == 0 then now else raw.received_at

pub ocsf_event-time :
    (now : ℕ) (raw : RawEvent) (pack : ParserPack) (x : Extracted)
    → Spares (codes "time") pack.map_rules
    → lookup (codes "time") (ocsf_event now raw pack x) ≡ some (int (pos (event_time now raw)))
unfolding ocsf_event default_time lookup
ocsf_event-time now raw pack x spared =
    let mapped = map_fields pack.map_rules x.fields end in
    let absent : lookup (codes "time") mapped ≡ none =
      map_fields-spared (codes "time") pack.map_rules x.fields end spared in
    enrich_taxonomy_defaults-other (codes "time")
      (unfold str_eq in record { no_category = refl; no_class = refl; no_type = refl })
      (undefaulted now raw pack x) pack.source_category
    ∙ with_unmapped_fields-beside (codes "time") pack x.unmapped (timed now raw pack x)
        (unfold str_eq in refl)
    ∙ ap (λ o. lookup (codes "time") (time_or now raw.received_at mapped (not_null o))) absent
    ∙ insert-at (codes "time") _ mapped

pub ocsf_event-IsGoverned :
    (now : ℕ) (raw : RawEvent) (pack : ParserPack) (x : Extracted)
    → known_category pack.source_category ≡ true
    → IsSpared (codes "category_name") pack.map_rules
    → IsSpared (codes "class_name") pack.map_rules
    → IsGoverned pack.source_category (ocsf_event now raw pack x)
unfolding ocsf_event
ocsf_event-IsGoverned now raw pack x known category class =
    enrich_taxonomy_defaults-IsGoverned (undefaulted now raw pack x)
      (undefaulted-spared now raw pack x (codes "category_name") category)
      (undefaulted-spared now raw pack x (codes "class_name") class) pack.source_category known
