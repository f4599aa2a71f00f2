-- ===== src/Packs/Extract/Rules.antt =====
-- `ExtractAndConvert` of internal/packs/extract.go: what it says of each rule by itself. The order
-- in which Go ranges over the rules does not show.
use worm.Base.{
  ◌≡◌, ◌≢◌, refl, sym, ◌∙◌, ap, Bool, true, false, List, [], ◌∷◌, Option, none, some, Bytes,
  str_eq_iff, if◌then◌else◌, inl, inr, ◌⊎◌, arith,
}
use worm.Library.{Library, Error, invalid}
use worm.Store.Action.{Result, ok, err}
use worm.Model.{DecodedRecord}
use worm.Model.Value.{Value, Fields, end, lookup, insert, lookup-insert, lookup-insert_ne}
use worm.Packs.Lookup.{lookup_field}
use worm.Packs.Match.{FieldRule, ParserPack}
use worm.Packs.Extract.{
  Conversions, cast_type, Extraction, not_null, consume, keep, converted, found, extract_field,
  and_then, extract_fields, nothing_extracted, Extracted, with_unmapped, extract_and_convert,
}

-- The names of the rules, which are the keys of a map.
abbrev pub IsFresh : Bytes → List (Bytes × FieldRule) → Type 0
IsFresh name [] = Unit
IsFresh name ((other, rule) ∷ rules) = (name ≢ other) × IsFresh name rules

abbrev pub AreKeys : List (Bytes × FieldRule) → Type 0
AreKeys [] = Unit
AreKeys ((name, rule) ∷ rules) = IsFresh name rules × AreKeys rules

lookup-insert_same :
    (name : Bytes) (v : Value) (m : Fields) → lookup name (insert name v m) ≡ some v
lookup-insert_same name v m = ground (arith, lookup-insert name name v m, str_eq_iff name name)

module _ ⦃lib : Library⦄ ⦃conv : Conversions⦄ where
  or_original : Bytes → FieldRule → Value → Option Value → Result (Option Value)
  or_original name rule v (some w) = ok (some w)
  or_original name rule v none = if rule.required then err (invalid name) else ok (some v)

  value_found : Bytes → FieldRule → Option Value → Result (Option Value)
  unfolding or_original
  value_found name rule none = if rule.required then err (invalid name) else ok none
  value_found name rule (some v) = or_original name rule v (cast_type v rule.type rule.layout)

  -- What a rule by itself makes of a record: no value, a converted one, or the original where it
  -- does not convert and is not required; an error where a required field is missing or does not
  -- convert.
  unfoldable pub rule_value : DecodedRecord → Bytes → FieldRule → Result (Option Value)
  unfolding value_found
  rule_value rec name rule = value_found name rule (not_null (lookup_field rec rule.from))

  -- What a rule does to the extraction, given its value.
  abbrev Effect : Bytes → Extraction → Result Extraction → Result (Option Value) → Type 0
  Effect name x r (err e) = r ≡ err e
  Effect name x r (ok none) = r ≡ ok x
  Effect name x r (ok (some v)) =
      (x' : Extraction) × (r ≡ ok x') × (x'.extracted ≡ insert name v x.extracted)

  -- A value that is required, or not.
  guarded-Effect :
      (b : Bool) (e : Error) (name : Bytes) (x x' : Extraction) (o : Option Value)
      → Effect name x (ok x') (ok o)
      → Effect name x (if b then err e else ok x') (if b then err e else ok o)
  guarded-Effect true e name x x' o h = refl
  guarded-Effect false e name x x' o h = h

  converted-Effect :
      (name : Bytes) (rule : FieldRule) (v : Value) (x : Extraction) (o : Option Value)
      → Effect name x (converted name rule v (consume rule x) o) (or_original name rule v o)
  unfolding or_original
  converted-Effect name rule v x (some w) = (keep name w (consume rule x), refl, refl)
  converted-Effect name rule v x none =
      guarded-Effect rule.required (invalid name) name x _ (some v) (_, refl, refl)

  found-Effect :
      (name : Bytes) (rule : FieldRule) (x : Extraction) (o : Option Value)
      → Effect name x (found name rule x o) (value_found name rule o)
  unfolding value_found
  found-Effect name rule x none = guarded-Effect rule.required (invalid name) name x x none refl
  found-Effect name rule x (some v) =
      converted-Effect name rule v x (cast_type v rule.type rule.layout)

  extract_field-Effect :
      (rec : DecodedRecord) (name : Bytes) (rule : FieldRule) (x : Extraction)
      → Effect name x (extract_field rec name rule x) (rule_value rec name rule)
  unfolding extract_field rule_value
  extract_field-Effect rec name rule x =
      found-Effect name rule x (not_null (lookup_field rec rule.from))

  -- Every rule has its value under its name, or nothing there.
  abbrev pub Hold : DecodedRecord → Fields → List (Bytes × FieldRule) → Type 0
  Hold rec extracted [] = Unit
  Hold rec extracted ((name, rule) ∷ rules) =
      (rule_value rec name rule ≡ ok (lookup name extracted)) × Hold rec extracted rules

  -- The error is that of a rule.
  abbrev pub Fails : DecodedRecord → Error → List (Bytes × FieldRule) → Type 0
  Fails rec e [] = ⊥
  Fails rec e ((name, rule) ∷ rules) = (rule_value rec name rule ≡ err e) ⊎ Fails rec e rules

  -- What the rules make of an extraction.
  abbrev pub Outcome :
      DecodedRecord → Fields → List (Bytes × FieldRule) → Result Extraction → Type 0
  Outcome rec before rules (err e) = Fails rec e rules
  Outcome rec before rules (ok x) =
      Hold rec x.extracted rules
      × ((name : Bytes) → IsFresh name rules → lookup name x.extracted ≡ lookup name before)

  abbrev Absent : Fields → List (Bytes × FieldRule) → Type 0
  Absent extracted [] = Unit
  Absent extracted ((name, rule) ∷ rules) = (lookup name extracted ≡ none) × Absent extracted rules

  Absent-insert :
      (name : Bytes) (v : Value) (extracted : Fields) (rules : List (Bytes × FieldRule))
      → IsFresh name rules
      → Absent extracted rules
      → Absent (insert name v extracted) rules
  Absent-insert name v extracted [] fresh h = tt
  Absent-insert name v extracted ((other, rule) ∷ rules) fresh h = (
    lookup-insert_ne name other v extracted fresh.0 ∙ h.0,
    Absent-insert name v extracted rules fresh.1 h.1,
  )

  -- One more rule in front.
  rule-Outcome :
      (rec : DecodedRecord) (name : Bytes) (rule : FieldRule) (rules : List (Bytes × FieldRule))
      (earlier before : Fields) (r : Result Extraction)
      → rule_value rec name rule ≡ ok (lookup name before)
      → ((other : Bytes) → name ≢ other → lookup other before ≡ lookup other earlier)
      → IsFresh name rules
      → Outcome rec before rules r
      → Outcome rec earlier ((name, rule) ∷ rules) r
  rule-Outcome rec name rule rules earlier before (err e) value else_ fresh h = inr h
  rule-Outcome rec name rule rules earlier before (ok x) value else_ fresh h = (
    (value ∙ ap ok (sym (h.1 name fresh)), h.0),
    λ other f. h.1 other f.1 ∙ else_ other (λ p. f.0 (sym p)),
  )

  and_then-Outcome :
      (rec : DecodedRecord) (name : Bytes) (rule : FieldRule) (rules : List (Bytes × FieldRule))
      (x : Extraction) (r : Result Extraction) (o : Result (Option Value))
      → ((x' : Extraction)
          → Absent x'.extracted rules
          → Outcome rec x'.extracted rules (extract_fields rec rules x'))
      → IsFresh name rules
      → Absent x.extracted ((name, rule) ∷ rules)
      → rule_value rec name rule ≡ o
      → Effect name x r o
      → Outcome rec x.extracted ((name, rule) ∷ rules) (and_then (extract_fields rec rules) r)
  and_then-Outcome rec name rule rules x r (err e) goes_on fresh absent value h =
      rw (Outcome, h) (inl value)
  and_then-Outcome rec name rule rules x r (ok none) goes_on fresh absent value h =
      rw (Outcome, h)
        (rule-Outcome rec name rule rules x.extracted x.extracted _ (value ∙ ap ok (sym absent.0))
          (λ other e. refl) fresh (goes_on x absent.1))
  and_then-Outcome rec name rule rules x r (ok (some v)) goes_on fresh absent value (x', h, e) =
      rw (Outcome, h)
        (rule-Outcome rec name rule rules x.extracted x'.extracted _
          (value ∙ ap ok (sym (lookup-insert_same name v x.extracted) ∙ ap (lookup name) (sym e)))
          (λ other ne. ap (lookup other) e ∙ lookup-insert_ne name other v x.extracted ne) fresh
          (goes_on x' (rw e (Absent-insert name v x.extracted rules fresh absent.1))))

  extract_fields-Outcome :
      (rec : DecodedRecord) (rules : List (Bytes × FieldRule)) (x : Extraction)
      → AreKeys rules
      → Absent x.extracted rules
      → Outcome rec x.extracted rules (extract_fields rec rules x)
  unfolding extract_fields
  extract_fields-Outcome rec [] x keys absent = (tt, λ name f. refl)
  extract_fields-Outcome rec ((name, rule) ∷ rules) x keys absent =
      and_then-Outcome rec name rule rules x (extract_field rec name rule x)
        (rule_value rec name rule)
        (λ x' absent'. extract_fields-Outcome rec rules x' keys.1 absent') keys.0 absent refl
        (extract_field-Effect rec name rule x)

  -- What ExtractAndConvert returns, rule by rule.
  abbrev pub IsExtraction : ParserPack → DecodedRecord → Result Extracted → Type 0
  IsExtraction pack rec (err e) = Fails rec e pack.fields
  IsExtraction pack rec (ok x) =
      Hold rec x.fields pack.fields
      × ((name : Bytes) → IsFresh name pack.fields → lookup name x.fields ≡ none)

  with_unmapped-IsExtraction :
      (pack : ParserPack) (rec : DecodedRecord) (r : Result Extraction)
      → Outcome rec end pack.fields r
      → IsExtraction pack rec (with_unmapped pack rec r)
  unfolding with_unmapped lookup
  with_unmapped-IsExtraction pack rec (err e) h = h
  with_unmapped-IsExtraction pack rec (ok x) h = h

  Absent-end : (rules : List (Bytes × FieldRule)) → Absent end rules
  unfolding lookup
  Absent-end [] = tt
  Absent-end ((name, rule) ∷ rules) = (refl, Absent-end rules)

  -- Where the names of the rules differ, an ExtractAndConvert that succeeds has under the name of
  -- each rule the value that the rule by itself gives, or nothing where it gives none, and nothing
  -- under any other name; one that fails has the error of a rule. So the order in which Go ranges
  -- over the rules has no part in it.
  pub extract_and_convert-IsExtraction :
      (pack : ParserPack) (rec : DecodedRecord)
      → AreKeys pack.fields
      → IsExtraction pack rec (extract_and_convert pack rec)
  unfolding extract_and_convert
  extract_and_convert-IsExtraction pack rec keys =
      with_unmapped-IsExtraction pack rec _
        (extract_fields-Outcome rec pack.fields nothing_extracted keys (Absent-end pack.fields))
