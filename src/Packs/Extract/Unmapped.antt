-- ===== src/Packs/Extract/Unmapped.antt =====
-- `ExtractAndConvert` of internal/packs/extract.go: which fields of a record it leaves unmapped.
use worm.Base.{
  ◌≡◌, refl, sym, ◌∙◌, ap, Bool, true, false, ◌&&◌, ◌||◌, List, [], ◌∷◌, Option, none, some, Bytes,
  codes, str_eq, str_eq_iff, trim_prefix, if◌then◌else◌, arith,
}
use worm.Library.{Library, Error, invalid}
use worm.Store.Action.{Result, ok, err}
use worm.Model.{DecodedRecord}
use worm.Model.Value.{Value, Fields, end, field, lookup}
use worm.Packs.Lookup.{lookup_field}
use worm.Packs.Match.{FieldRule, ParserPack}
use worm.Packs.Extract.{
  Conversions, cast_type, Extraction, not_null, consume, converted, found, extract_field, and_then,
  extract_fields, nothing_extracted, Extracted, with_unmapped, extract_and_convert, is_among,
  unconsumed,
}

abbrev present : Option Value → Bool
present none = false
present (some v) = true

-- A rule takes a field: it names it, with or without `payload.`, and finds a value.
unfoldable pub takes : DecodedRecord → Bytes → FieldRule → Bool
takes rec k rule =
    present (not_null (lookup_field rec rule.from))
    && (str_eq rule.from k || str_eq (trim_prefix rule.from (codes "payload.")) k)

unfoldable pub taken : DecodedRecord → Bytes → List (Bytes × FieldRule) → Bool
taken rec k [] = false
taken rec k ((name, rule) ∷ rules) = takes rec k rule || taken rec k rules

or_assoc : (a b c : Bool) → (a || b) || c ≡ a || (b || c)
or_assoc true b c = refl
or_assoc false b c = refl

or_false : (b : Bool) → b || false ≡ b
or_false true = refl
or_false false = refl

or_swap : (a b c : Bool) → a || (b || c) ≡ (b || a) || c
or_swap true true c = refl
or_swap true false c = refl
or_swap false b c = ap (λ x. x || c) (sym (or_false b))

unconsumed-lookup :
    (k : Bytes) (consumed : List Bytes) (m : Fields)
    → lookup k (unconsumed consumed m) ≡ (if is_among k consumed then none else lookup k m)
unfolding unconsumed lookup
unconsumed-lookup k consumed end = ground arith
unconsumed-lookup k consumed (field j v m) =
    ground (arith, str_eq_iff j k, unconsumed-lookup k consumed m)

module _ ⦃lib : Library⦄ ⦃conv : Conversions⦄ (rec : DecodedRecord) (k : Bytes) where
  -- Whether the field is consumed behind a success.
  abbrev IsConsumed : Bool → Result Extraction → Type 0
  IsConsumed b (err e) = Unit
  IsConsumed b (ok x) = is_among k x.consumed ≡ b

  guarded-IsConsumed :
      (b c : Bool) (e : Error) (x : Extraction)
      → is_among k x.consumed ≡ b
      → IsConsumed b (if c then err e else ok x)
  guarded-IsConsumed b true e x h = tt
  guarded-IsConsumed b false e x h = h

  converted-IsConsumed :
      (name : Bytes) (rule : FieldRule) (v : Value) (x : Extraction) (o : Option Value)
      → IsConsumed (is_among k x.consumed) (converted name rule v x o)
  converted-IsConsumed name rule v x (some w) = refl
  converted-IsConsumed name rule v x none = guarded-IsConsumed _ rule.required (invalid name) _ refl

  found-IsConsumed :
      (name : Bytes) (rule : FieldRule) (x : Extraction) (o : Option Value)
      → IsConsumed
          (present o && (str_eq rule.from k || str_eq (trim_prefix rule.from (codes "payload.")) k)
            || is_among k x.consumed)
          (found name rule x o)
  found-IsConsumed name rule x none = guarded-IsConsumed _ rule.required (invalid name) x refl
  found-IsConsumed name rule x (some v) =
      rw
        (or_assoc (str_eq rule.from k) (str_eq (trim_prefix rule.from (codes "payload.")) k)
          (is_among k x.consumed))
        (converted-IsConsumed name rule v (consume rule x) (cast_type v rule.type rule.layout))

  extract_field-IsConsumed :
      (name : Bytes) (rule : FieldRule) (x : Extraction)
      → IsConsumed (takes rec k rule || is_among k x.consumed) (extract_field rec name rule x)
  unfolding extract_field takes
  extract_field-IsConsumed name rule x =
      found-IsConsumed name rule x (not_null (lookup_field rec rule.from))

  and_then-IsConsumed :
      (b c : Bool) (next : Extraction → Result Extraction) (r : Result Extraction)
      → ((x : Extraction) → IsConsumed (b || is_among k x.consumed) (next x))
      → IsConsumed c r
      → IsConsumed (b || c) (and_then next r)
  and_then-IsConsumed b c next (err e) goes_on h = tt
  and_then-IsConsumed b c next (ok x) goes_on h = rw (← h) (goes_on x)

  extract_fields-IsConsumed :
      (rules : List (Bytes × FieldRule)) (x : Extraction)
      → IsConsumed (taken rec k rules || is_among k x.consumed) (extract_fields rec rules x)
  unfolding extract_fields taken
  extract_fields-IsConsumed [] x = refl
  extract_fields-IsConsumed ((name, rule) ∷ rules) x =
      rw (← or_swap (taken rec k rules) (takes rec k rule) (is_among k x.consumed)) (
        and_then-IsConsumed (taken rec k rules) (takes rec k rule || is_among k x.consumed)
          (extract_fields rec rules) (extract_field rec name rule x)
          (extract_fields-IsConsumed rules) (extract_field-IsConsumed name rule x))

  -- Behind a success, a field stands among the unmapped ones unless a rule has taken it.
  abbrev pub IsPreserved : ParserPack → Result Extracted → Type 0
  IsPreserved pack (err e) = Unit
  IsPreserved pack (ok x) =
      lookup k x.unmapped ≡ (if taken rec k pack.fields then none else lookup k rec.fields)

  with_unmapped-IsPreserved :
      (pack : ParserPack) (r : Result Extraction)
      → pack.preserve_unmapped ≡ true
      → IsConsumed (taken rec k pack.fields || false) r
      → IsPreserved pack (with_unmapped pack rec r)
  unfolding with_unmapped
  with_unmapped-IsPreserved pack (err e) h c = tt
  with_unmapped-IsPreserved pack (ok x) h c =
      rw h (
        unconsumed-lookup k x.consumed rec.fields ∙ rw (c, or_false (taken rec k pack.fields)) refl)

  -- Where a pack preserves what it does not map, an ExtractAndConvert that succeeds leaves each
  -- field of the record among the unmapped ones with its value, unless a rule names the field, with
  -- or without `payload.`, and finds a value; then it is not among them.
  pub extract_and_convert-IsPreserved :
      (pack : ParserPack)
      → pack.preserve_unmapped ≡ true
      → IsPreserved pack (extract_and_convert pack rec)
  unfolding extract_and_convert
  extract_and_convert-IsPreserved pack h =
      with_unmapped-IsPreserved pack (extract_fields rec pack.fields nothing_extracted) h
        (extract_fields-IsConsumed pack.fields nothing_extracted)
