-- ===== src/Packs/Extract.antt =====
-- `ExtractAndConvert`, `castType` and `parseTimestamp` of internal/packs/extract.go. The parsers of
-- Go's standard library and its arithmetic on floats are an instance.
pub mod Rules
pub mod Unmapped
use worm.Base.{
  Bool, true, false, ◌||◌, ℕ, List, [], ◌∷◌, ◌++◌, Option, none, some, Bytes, codes, str_eq, ℤ,
  trim_prefix, if◌then◌else◌,
}
use worm.Library.{Library, Error, invalid}
use worm.Store.Action.{Result, ok, err}
use worm.Model.{DecodedRecord}
use worm.Model.Value.{Value, null, str, int, float, bool, arr, obj, Fields, end, field, insert}
use worm.Packs.Lookup.{lookup_field}
use worm.Packs.Match.{FieldRule, ParserPack}

-- A `none` is an error of the parser.
pub record Conversions : Type 0 where
  -- `strings.TrimSpace`
  pub trim_space : Bytes → Bytes
  -- `net.ParseIP`, as the text of the address
  pub parse_ip : Bytes → Option Bytes
  -- `strconv.ParseInt(s, 10, 64)`, `strconv.ParseFloat(s, 64)`, `strconv.ParseBool`
  pub parse_int : Bytes → Option ℤ
  pub parse_float : Bytes → Option ℕ
  pub parse_bool : Bytes → Option Bool
  -- `float64(n)`, and `epochMillis`, which computes with floats
  pub float_of_int : ℤ → ℕ
  pub epoch_millis : ℕ → ℤ
  -- `time.Parse` by a layout, in milliseconds, and by the common layouts, which puts the current
  -- year where there is none
  pub parse_time : Bytes → Bytes → Option ℤ
  pub parse_common_time : Bytes → Option ℤ
  -- `fmt.Sprintf` of the warning of a field: its name, its type and its text
  pub warning : Bytes → Bytes → Bytes → Bytes

abbrev int_value : Option ℤ → Option Value
int_value none = none
int_value (some n) = some (int n)

module _ ⦃lib : Library⦄ ⦃conv : Conversions⦄ where
  -- An explicit layout, then the common ones.
  by_layouts : Bytes → Bytes → Option ℤ → Option Value
  by_layouts text layout (some t) = some (int t)
  by_layouts text layout none = int_value (conv.parse_common_time text)

  by_layout : Bytes → Bytes → Option Value
  unfolding by_layouts
  by_layout text layout =
      by_layouts text layout (if str_eq layout [] then none else conv.parse_time layout text)

  by_float : Bytes → Bytes → Option ℕ → Option Value
  unfolding by_layout
  by_float text layout (some f) = some (int (conv.epoch_millis f))
  by_float text layout none = by_layout text layout

  by_int : Bytes → Bytes → Option ℤ → Option Value
  unfolding by_float
  by_int text layout (some n) = some (int (conv.epoch_millis (conv.float_of_int n)))
  by_int text layout none = by_float text layout (conv.parse_float text)

  -- `parseTimestamp`
  unfoldable pub parse_timestamp : Bytes → Bytes → Option Value
  unfolding by_int
  parse_timestamp text layout = by_int text layout (conv.parse_int text)

  ip_value : Option Bytes → Option Value
  ip_value none = none
  ip_value (some ip) = some (str ip)

  truncated : Option ℕ → Option Value
  truncated none = none
  truncated (some f) = some (int (lib.float_to_int f))

  int_or_float : Bytes → Option ℤ → Option Value
  unfolding truncated
  int_or_float text (some n) = some (int n)
  int_or_float text none = truncated (conv.parse_float text)

  to_integer : Value → Bytes → Option Value
  unfolding int_or_float
  to_integer (int n) text = some (int n)
  to_integer (float f) text = some (int (lib.float_to_int f))
  to_integer v text = int_or_float text (conv.parse_int text)

  float_value : Option ℕ → Option Value
  float_value none = none
  float_value (some f) = some (float f)

  to_float : Value → Bytes → Option Value
  unfolding float_value
  to_float (float f) text = some (float f)
  to_float (int n) text = some (float (conv.float_of_int n))
  to_float v text = float_value (conv.parse_float text)

  bool_value : Option Bool → Option Value
  bool_value none = none
  bool_value (some b) = some (bool b)

  to_boolean : Value → Bytes → Option Value
  unfolding bool_value
  to_boolean (bool b) text = some (bool b)
  to_boolean v text = bool_value (conv.parse_bool text)

  -- `castType`
  unfoldable pub cast_type : Value → Bytes → Bytes → Option Value
  unfolding ip_value to_integer to_float parse_timestamp to_boolean
  cast_type v type layout =
      let text = conv.trim_space (lib.sprint v) in
      if str_eq type (codes "ip")
      then ip_value (conv.parse_ip text)
      else if str_eq type (codes "integer")
      then to_integer v text
      else if str_eq type (codes "float")
      then to_float v text
      else if str_eq type (codes "timestamp")
      then parse_timestamp text layout
      else if str_eq type (codes "string")
      then some (str text)
      else if str_eq type (codes "boolean")
      then to_boolean v text
      else some v

-- The maps that the loop over the rules fills.
pub record Extraction : Type 0 where
  pub extracted : Fields
  pub consumed : List Bytes
  pub warnings : List Bytes

-- What the lookup of a field finds, where `nil` is as good as nothing.
abbrev pub not_null : Option Value → Option Value
not_null (some null) = none
not_null o = o

module _ ⦃lib : Library⦄ ⦃conv : Conversions⦄ where
  abbrev pub consume : FieldRule → Extraction → Extraction
  consume rule x = record x {
    consumed = rule.from ∷ trim_prefix rule.from (codes "payload.") ∷ x.consumed;
  }

  abbrev pub keep : Bytes → Value → Extraction → Extraction
  keep name v x = record x { extracted = insert name v x.extracted }

  -- Behind `castType`
  abbrev pub converted : Bytes → FieldRule → Value → Extraction → Option Value → Result Extraction
  converted name rule v x (some w) = ok (keep name w x)
  converted name rule v x none =
      if rule.required
      then err (invalid name)
      else ok (
          keep name v (record x {
            warnings = x.warnings ++ (conv.warning name rule.type (lib.sprint v) ∷ []);
          }))

  abbrev pub found : Bytes → FieldRule → Extraction → Option Value → Result Extraction
  found name rule x none = if rule.required then err (invalid name) else ok x
  found name rule x (some v) =
      converted name rule v (consume rule x) (cast_type v rule.type rule.layout)

  -- The body of the loop over the rules.
  unfoldable pub extract_field : DecodedRecord → Bytes → FieldRule → Extraction → Result Extraction
  unfolding lookup_field cast_type
  extract_field rec name rule x = found name rule x (not_null (lookup_field rec rule.from))

  abbrev pub and_then : (Extraction → Result Extraction) → Result Extraction → Result Extraction
  and_then next (ok x) = next x
  and_then next (err e) = err e

  unfoldable pub extract_fields :
      DecodedRecord → List (Bytes × FieldRule) → Extraction → Result Extraction
  unfolding extract_field
  extract_fields rec [] x = ok x
  extract_fields rec ((name, rule) ∷ rules) x =
      and_then (extract_fields rec rules) (extract_field rec name rule x)

abbrev pub is_among : Bytes → List Bytes → Bool
is_among k [] = false
is_among k (j ∷ js) = str_eq j k || is_among k js

-- The fields that no rule has consumed.
unfoldable pub unconsumed : List Bytes → Fields → Fields
unconsumed consumed end = end
unconsumed consumed (field k v m) =
    let rest = unconsumed consumed m in if is_among k consumed then rest else field k v rest

abbrev pub nothing_extracted : Extraction
nothing_extracted = record { extracted = end; consumed = []; warnings = [] }

-- What `ExtractAndConvert` returns.
pub record Extracted : Type 0 where
  pub fields : Fields
  pub unmapped : Fields
  pub notes : List Bytes

unfoldable pub with_unmapped : ParserPack → DecodedRecord → Result Extraction → Result Extracted
unfolding unconsumed
with_unmapped pack rec (err e) = err e
with_unmapped pack rec (ok x) = ok (record {
  fields = x.extracted;
  unmapped = if pack.preserve_unmapped then unconsumed x.consumed rec.fields else end;
  notes = x.warnings;
})

module _ ⦃lib : Library⦄ ⦃conv : Conversions⦄ where
  unfoldable pub extract_and_convert : ParserPack → DecodedRecord → Result Extracted
  unfolding extract_fields with_unmapped
  extract_and_convert pack rec =
      with_unmapped pack rec (extract_fields rec pack.fields nothing_extracted)
