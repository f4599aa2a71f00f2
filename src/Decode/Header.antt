-- ===== src/Decode/Header.antt =====
-- `splitCEFHeader` and `splitLEEFHeader` of internal/decode/cef.go and leef.go: one loop over the
-- bytes, which differs only in when the header is full.
pub mod RoundTrip
use worm.Base.{
  ℕ, Bool, true, false, ◌&&◌, ◌||◌, not, List, [], ◌∷◌, ◌++◌, Option, none, some, ◌==◌, leb,
  if◌then◌else◌, Bytes, codes, has_prefix, length,
}

-- The variables of the loop.
pub record Reader : Type 0 where
  pub parts : List Bytes
  pub cur : Bytes
  pub escaped : Bool

pub data Next : Type 0 where
  go : Reader → Next
  full : List Bytes → Next

unescaped : ℕ → Bytes
unescaped c = if not (c == b'|') && not (c == b'\\') then b'\\' ∷ c ∷ [] else c ∷ []

-- The body of the loop. `is_full` tests the parts behind a separator.
step : (List Bytes → Bool) → Reader → Bool → ℕ → Next
unfolding unescaped
step is_full r true c = go (record r { cur = r.cur ++ unescaped c; escaped = false })
step is_full r false c =
    if c == b'\\'
    then go (record r { escaped = true })
    else if c == b'|'
    then (if is_full (r.parts ++ (r.cur ∷ []))
        then full (r.parts ++ (r.cur ∷ []))
        else go (record { parts = r.parts ++ (r.cur ∷ []); cur = []; escaped = false }))
    else go (record r { cur = r.cur ++ (c ∷ []) })

-- What the loop ends with: the full header and the rest, or the variables at the end.
pub data Header : Type 0 where
  header : List Bytes → Bytes → Header
  short : Reader → Header

unfoldable pub scan : (List Bytes → Bool) → Reader → Bytes → Header
unfolding step
scan is_full r [] = short r
scan is_full r (c ∷ s) = elim (step is_full r r.escaped c) [
  | go r' ↦ scan is_full r' s
  | full parts ↦ header parts s
]

abbrev pub start : Reader
start = record { parts = []; cur = []; escaped = false }

cef_full : List Bytes → Bool
cef_full parts = length parts == 7

cef_result : Header → Option (List Bytes × Bytes)
cef_result (header parts rest) = some (parts, rest)
cef_result (short r) = none

-- `splitCEFHeader`; `none` is its error.
unfoldable pub split_cef_header : Bytes → Option (List Bytes × Bytes)
unfolding scan cef_result cef_full
split_cef_header s = cef_result (scan cef_full start s)

first_has : Bytes → List Bytes → Bool
first_has p [] = false
first_has p (first ∷ rest) = has_prefix first p

leef_full : List Bytes → Bool
unfolding first_has
leef_full parts =
    if leb 1 (length parts) && first_has (codes "LEEF:1.0") parts
    then length parts == 5
    else leb 1 (length parts) && first_has (codes "LEEF:2.0") parts && length parts == 6

leef_result : Header → Option (List Bytes × Bytes)
unfolding first_has
leef_result (header parts rest) = some (parts, rest)
leef_result (short r) =
    if length r.parts == 5 && first_has (codes "LEEF:2.0") r.parts
    then some (r.parts, r.cur)
    else none

-- `splitLEEFHeader`
unfoldable pub split_leef_header : Bytes → Option (List Bytes × Bytes)
unfolding scan leef_result leef_full
split_leef_header s = leef_result (scan leef_full start s)
