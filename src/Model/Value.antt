-- ===== src/Model/Value.antt =====
-- The dynamic values of the program: Go's `any` as the decoders and the normalizer build it, and
-- the maps `map[string]any` with what the program does to them. A map is a list of entries; the
-- code that is modelled never depends on the order in which Go ranges over it.
use worm.Base.{
  ℕ, ◌+◌, ◌≡◌, ◌≢◌, refl, Bool, Option, none, some, arith, if◌then◌else◌, Bytes, ℤ, str_eq,
  str_eq_iff,
}

-- A float64 is kept as its bit pattern, since the program's arithmetic on it is not modelled.
mutual
  pub data Value : Type 0 where
    null : Value
    str : Bytes → Value
    int : ℤ → Value
    float : ℕ → Value
    bool : Bool → Value
    arr : Items → Value
    obj : Fields → Value

  pub data Items : Type 0 where
    nil : Items
    cons : Value → Items → Items

  pub data Fields : Type 0 where
    end : Fields
    field : Bytes → Value → Fields → Fields

-- `v, ok := m[k]`
unfoldable pub lookup : Bytes → Fields → Option Value
lookup k end = none
lookup k (field j v m) = if str_eq j k then some v else lookup k m

-- `m[k] = v`
unfoldable pub insert : Bytes → Value → Fields → Fields
insert k v end = field k v end
insert k v (field j w m) = if str_eq j k then field j v m else field j w (insert k v m)

-- `for k, v := range src { dst[k] = v }`
unfoldable pub insert_all : Fields → Fields → Fields
insert_all end dst = dst
insert_all (field k v src) dst = insert_all src (insert k v dst)

-- `len(m)`
unfoldable pub size : Fields → ℕ
size end = 0
size (field k v m) = size m + 1

-- A write is seen at its key and nowhere else.
pub lookup-insert :
    (k j : Bytes) (v : Value) (m : Fields)
    → lookup j (insert k v m) ≡ (if str_eq k j then some v else lookup j m)
unfolding lookup insert
lookup-insert k j v end = refl
lookup-insert k j v (field i w m) =
    ground (arith, str_eq_iff k j, str_eq_iff i k, str_eq_iff i j, lookup-insert k j v m)

pub lookup-insert_ne :
    (k j : Bytes) (v : Value) (m : Fields) → k ≢ j → lookup j (insert k v m) ≡ lookup j m
lookup-insert_ne k j v m h = ground (arith, lookup-insert k j v m, str_eq_iff k j)
