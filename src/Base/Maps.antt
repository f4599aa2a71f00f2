-- ===== src/Base/Maps.antt =====
-- A `map[string]T` as a list of its entries, in the order in which the keys were written first.
use mathlib.Core.Path.{◌≡◌, refl}
use mathlib.Core.List.{List, [], ◌∷◌}
use mathlib.Core.Option.{Option, none, some}
use native.Mathlib.Omega.{arith}
use worm.Base.Tests.{if◌then◌else◌}
use worm.Base.Lists.{Bytes, str_eq, str_eq_iff}

module _ {ℓ} {A : Type ℓ} where
  -- `m[k]`
  unfoldable pub get : Bytes → List (Bytes × A) → Option A
  get k [] = none
  get k ((j, v) ∷ m) = if str_eq j k then some v else get k m

  -- `m[k] = v`
  unfoldable pub put : Bytes → A → List (Bytes × A) → List (Bytes × A)
  put k v [] = (k, v) ∷ []
  put k v ((j, w) ∷ m) = if str_eq j k then (j, v) ∷ m else (j, w) ∷ put k v m

  -- `delete(m, k)`
  unfoldable pub del : Bytes → List (Bytes × A) → List (Bytes × A)
  del k [] = []
  del k ((j, w) ∷ m) = let rest = del k m in if str_eq j k then rest else (j, w) ∷ rest

  pub get-put :
      (k j : Bytes) (v : A) (m : List (Bytes × A))
      → get j (put k v m) ≡ (if str_eq k j then some v else get j m)
  unfolding get put
  get-put k j v [] = refl
  get-put k j v ((i, w) ∷ m) =
      ground (arith, str_eq_iff k j, str_eq_iff i k, str_eq_iff i j, get-put k j v m)

  pub get-del :
      (k j : Bytes) (m : List (Bytes × A))
      → get j (del k m) ≡ (if str_eq k j then none else get j m)
  unfolding get del
  get-del k j [] = ground arith
  get-del k j ((i, w) ∷ m) =
      ground (arith, str_eq_iff k j, str_eq_iff i k, str_eq_iff i j, get-del k j m)
