-- ===== src/Normalize/Validate.antt =====
-- `Validate` of internal/normalize/validate.go: the checks in their order, the first that fails
-- giving the error.
pub mod Accepts
use worm.Base.{
  ℕ, ◌+◌, Bool, true, false, ◌&&◌, ◌||◌, not, List, [], ◌∷◌, ◌++◌, Option, none, some, Bytes, codes,
  str_eq, ltb, leb, ℤ, pos, negsuc, if◌then◌else◌,
}
use worm.Library.{Library, Error, invalid}
use worm.Store.Action.{Result, ok, err}
use worm.Model.{WormEnvelope, NormalizedEvent}
use worm.Model.Value.{Value, null, str, int, float, bool, arr, obj, Fields, lookup}
use worm.Packs.Extract.{not_null}
use worm.Normalize.Taxonomy.{validate_taxonomy}
use worm.Normalize.Event.{stage_step}

-- The functions of Go's standard library that the checks call.
pub record Checks : Type 0 where
  -- `strings.TrimSpace(s) == ""`
  pub blank : Bytes → Bool
  -- `net.ParseIP(s) != nil`
  pub is_ip : Bytes → Bool
  -- `f > 0` of a float64
  pub is_positive : ℕ → Bool

-- `ocsf.Version`
abbrev pub ocsf_version : Bytes
ocsf_version = codes "1.3.0"

abbrev pub is_empty : Bytes → Bool
is_empty [] = true
is_empty (c ∷ s) = false

abbrev pub positive : ℤ → Bool
positive (pos n) = ltb 0 n
positive (negsuc n) = false

abbrev pub at_most : ℕ → ℤ → Bool
at_most max (pos n) = leb n max
at_most max (negsuc n) = false

-- The mandatory fields of the envelope.
unfoldable pub envelope_ok : WormEnvelope → Bool
envelope_ok e =
    not (is_empty e.event_id)
    && not (is_empty e.raw_id)
    && not (is_empty e.raw_sha256)
    && str_eq e.schema_version ocsf_version

abbrev pub severity_ok : Option Value → Bool
severity_ok (some (int n)) = at_most 10 n
severity_ok _ = true

module _ ⦃lib : Library⦄ ⦃checks : Checks⦄ where
  abbrev pub name_ok : Option Value → Bool
  name_ok none = false
  name_ok (some v) = not (checks.blank (lib.sprint v))

  unfoldable pub taxonomy_ok : Bytes → Option Value → Option Value → Bool
  unfolding validate_taxonomy
  taxonomy_ok source (some category) (some class) =
      validate_taxonomy source (lib.sprint category) (lib.sprint class)
  taxonomy_ok source _ _ = false

  abbrev pub time_ok : Option Value → Bool
  time_ok (some (int n)) = positive n
  time_ok (some (float f)) = checks.is_positive f
  time_ok _ = false

  abbrev pub ip_ok : Option Value → Bool
  ip_ok none = true
  ip_ok (some (str s)) = checks.is_ip s
  ip_ok (some _) = false

  abbrev pub port_ok : Option Value → Bool
  port_ok none = true
  port_ok (some (int n)) = at_most 65535 n
  port_ok (some (float f)) = at_most 65535 (lib.float_to_int f)
  port_ok (some _) = false

  -- `validateEndpoint`, of a map
  unfoldable pub endpoint_ok : Option Value → Bool
  endpoint_ok (some (obj ep)) =
      ip_ok (not_null (lookup (codes "ip") ep)) && port_ok (not_null (lookup (codes "port") ep))
  endpoint_ok _ = true

  -- The checks of the event, one for each error.
  unfoldable pub check_event : Bytes → Fields → Option Bytes
  unfolding taxonomy_ok endpoint_ok
  check_event source event =
      let category = not_null (lookup (codes "category_name") event) in
      let class = not_null (lookup (codes "class_name") event) in
      if not (name_ok category)
      then some (codes "missing mandatory OCSF 'category_name'")
      else if not (name_ok class)
      then some (codes "missing mandatory OCSF 'class_name'")
      else if not (taxonomy_ok source category class)
      then some (codes "taxonomy")
      else if not (time_ok (not_null (lookup (codes "time") event)))
      then some (codes "time")
      else if not (endpoint_ok (lookup (codes "src_endpoint") event))
      then some (codes "src_endpoint")
      else if not (endpoint_ok (lookup (codes "dst_endpoint") event))
      then some (codes "dst_endpoint")
      else if not (severity_ok (not_null (lookup (codes "severity_id") event)))
      then some (codes "severity_id")
      else none

  abbrev pub stamped : ℕ → NormalizedEvent → NormalizedEvent
  stamped now event = record event {
    envelope = record event.envelope {
      processing_history =
          event.envelope.processing_history ++ (stage_step (codes "validate") now ∷ []);
    };
  }

  abbrev pub verdict : ℕ → NormalizedEvent → Option Bytes → Result NormalizedEvent
  verdict now event (some reason) = err (invalid reason)
  verdict now event none = ok (stamped now event)

  -- `Validate`, with the event that it stamps.
  unfoldable pub validate : ℕ → NormalizedEvent → Result NormalizedEvent
  unfolding envelope_ok check_event
  validate now event =
      if envelope_ok event.envelope
      then verdict now event (check_event event.envelope.source_category event.ocsf)
      else err (invalid (codes "envelope"))
