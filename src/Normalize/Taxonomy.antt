-- ===== src/Normalize/Taxonomy.antt =====
-- internal/ocsf/schema.go, and `enrichTaxonomyDefaults` of internal/normalize/normalizer.go.
pub mod Defaults
pub mod Names
pub mod Others
use worm.Base.{
  Bool, true, false, ◌&&◌, ◌||◌, not, List, [], ◌∷◌, Option, none, some, if◌then◌else◌, Bytes,
  codes, str_eq,
}
use worm.Model.Value.{Value, Fields, str, lookup, insert}

pub record Taxonomy : Type 0 where
  pub category_name : Bytes
  pub class_name : Bytes

abbrev row : Bytes → Bytes → Taxonomy
row c k = record { category_name = c; class_name = k }

-- The map `taxonomy`.
abbrev pub taxonomy : List (Bytes × Taxonomy)
taxonomy =
    (codes "network_device", row (codes "Network Activity") (codes "Network Activity"))
    ∷ (codes "server", row (codes "Application Activity") (codes "HTTP Activity"))
    ∷ (codes "os", row (codes "Authentication") (codes "Authentication"))
    ∷ (codes "endpoint", row (codes "Findings") (codes "Security Finding"))
    ∷ (codes "application", row (codes "Application Activity") (codes "Application Activity"))
    ∷ (codes "database", row (codes "System Activity") (codes "Database Activity"))
    ∷ (codes "cloud", row (codes "Cloud Activity") (codes "API Activity"))
    ∷ (codes "container", row (codes "System Activity") (codes "Container Lifecycle"))
    ∷ (codes "iam", row (codes "Identity & Access Management") (codes "Account Change"))
    ∷ (codes "iot", row (codes "Device Activity") (codes "Device Status"))
    ∷ (codes "other", row (codes "Other Activity") (codes "Base Event"))
    ∷ []

member : Bytes → List Bytes → Bool
member k [] = false
member k (j ∷ js) = str_eq k j || member k js

-- `KnownSourceCategories` of internal/packs/pack.go, which a pack's category must be in.
abbrev pub known_list : List Bytes
known_list =
    codes "network_device"
    ∷ codes "server"
    ∷ codes "os"
    ∷ codes "endpoint"
    ∷ codes "application"
    ∷ codes "database"
    ∷ codes "cloud"
    ∷ codes "container"
    ∷ codes "iam"
    ∷ codes "iot"
    ∷ codes "other"
    ∷ []

unfoldable pub known_category : Bytes → Bool
unfolding member
known_category k = member k known_list

find_taxonomy : Bytes → List (Bytes × Taxonomy) → Option Taxonomy
find_taxonomy k [] = none
find_taxonomy k ((j, t) ∷ ts) = if str_eq j k then some t else find_taxonomy k ts

agrees : Option Taxonomy → Bytes → Bytes → Bool
agrees none category class = false
agrees (some t) category class = str_eq category t.category_name && str_eq class t.class_name

-- Whether `ValidateTaxonomy` returns no error.
unfoldable pub validate_taxonomy : Bytes → Bytes → Bytes → Bool
unfolding find_taxonomy agrees
validate_taxonomy source category class = agrees (find_taxonomy source taxonomy) category class

-- `if _, exists := event[key]; !exists { event[key] = v }`
unfoldable pub default_to : Bytes → Bytes → Fields → Fields
default_to key v event = elim (lookup key event) [
  | none ↦ insert key (str v) event
  | some _ ↦ event
]

unfoldable pub defaults : Bytes → Bytes → Bytes → Fields → Fields
defaults category class type event =
    default_to (codes "type_name") type
      (default_to (codes "class_name") class (default_to (codes "category_name") category event))

-- `enrichTaxonomyDefaults(event, category)`
unfoldable pub enrich_taxonomy_defaults : Fields → Bytes → Fields
unfolding defaults
enrich_taxonomy_defaults event category =
    if str_eq category (codes "network_device")
    then defaults (codes "Network Activity") (codes "Network Activity")
        (codes "Network Activity: Traffic") event
    else if str_eq category (codes "server")
    then defaults (codes "Application Activity") (codes "HTTP Activity")
        (codes "HTTP Activity: HTTP Request") event
    else if str_eq category (codes "os")
    then defaults (codes "Authentication") (codes "Authentication") (codes "Authentication: Logon")
        event
    else if str_eq category (codes "endpoint")
    then defaults (codes "Findings") (codes "Security Finding") (codes "Security Finding: Alert")
        event
    else if str_eq category (codes "application")
    then defaults (codes "Application Activity") (codes "Application Activity")
        (codes "Application Activity: Generic") event
    else if str_eq category (codes "database")
    then defaults (codes "System Activity") (codes "Database Activity")
        (codes "Database Activity: Query") event
    else if str_eq category (codes "cloud")
    then defaults (codes "Cloud Activity") (codes "API Activity") (codes "Cloud Activity: API Call")
        event
    else if str_eq category (codes "container")
    then defaults (codes "System Activity") (codes "Container Lifecycle")
        (codes "Container Activity: Lifecycle") event
    else if str_eq category (codes "iam")
    then defaults (codes "Identity & Access Management") (codes "Account Change")
        (codes "IAM: Account Modification") event
    else if str_eq category (codes "iot")
    then defaults (codes "Device Activity") (codes "Device Status")
        (codes "Device Activity: Status Report") event
    else if str_eq category (codes "other")
    then defaults (codes "Other Activity") (codes "Base Event") (codes "Other: Generic") event
    else event
