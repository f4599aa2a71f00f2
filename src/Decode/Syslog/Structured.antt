-- ===== src/Decode/Syslog/Structured.antt =====
-- `splitRFC5424StructuredData` and `balancedQuotes` of internal/decode/syslog.go.
pub mod RoundTrip
use worm.Base.{
  ℕ, Bool, true, false, ◌&&◌, not, List, [], ◌∷◌, Option, none, some, Bytes, codes, ◌==◌,
  if◌then◌else◌,
}
use worm.Library.{Error, invalid}
use worm.Store.Action.{Result, ok, err}

-- Between two elements, or in one; the flags are `quoted` and `escaped`.
pub data Mode : Type 0 where
  between : Mode
  inside : Bool → Bool → Mode

abbrev pub with_front : ℕ → Option (Bytes × Bytes) → Option (Bytes × Bytes)
with_front c none = none
with_front c (some r) = some (c ∷ r.0, r.1)

-- The mode behind a byte of an element.
unfoldable pub behind : Bool → Bool → ℕ → Mode
behind quoted true c = inside quoted false
behind quoted false c =
    if c == b'\\'
    then inside quoted true
    else if c == b'"'
    then inside (not quoted) false
    else if c == b']' && not quoted
    then between
    else inside quoted false

-- The loops: the elements and what is behind them, or none where an element is not closed.
unfoldable pub scan : Mode → Bytes → Option (Bytes × Bytes)
unfolding behind
scan between [] = some ([], [])
scan between (c ∷ s) = elim (c == b'[') [
  | true ↦ with_front c (scan (inside false false) s)
  | false ↦ some ([], c ∷ s)
]
scan (inside quoted escaped) [] = none
scan (inside quoted escaped) (c ∷ s) = with_front c (scan (behind quoted escaped c) s)

module _ (trim_space : Bytes → Bytes) where
  split_found : Bytes → Option (Bytes × Bytes) → Result (Bytes × Bytes)
  split_found s none = err (invalid (codes "malformed RFC 5424 structured data"))
  split_found s (some ([], rest)) = ok (codes "-", s)
  split_found s (some (c ∷ sd, rest)) = ok (c ∷ sd, trim_space rest)

  unfoldable pub split_structured_data : Bytes → Result (Bytes × Bytes)
  unfolding split_found scan
  split_structured_data s = split_found s (scan between s)

-- The loop of `balancedQuotes`; the flag is `quoted`.
balanced : Bool → Bytes → Bool
balanced quoted [] = not quoted
balanced quoted (c ∷ []) = if c == b'"' then quoted else not quoted
balanced quoted (c ∷ d ∷ s) = elim (quoted && c == b'\\') [
  | true ↦ balanced quoted s
  | false ↦ elim (c == b'"') [
    | false ↦ balanced quoted (d ∷ s)
    | true ↦ elim (quoted && d == b'"') [
      | true ↦ balanced quoted s
      | false ↦ balanced (not quoted) (d ∷ s)
    ]
  ]
]

unfoldable pub balanced_quotes : Bytes → Bool
unfolding balanced
balanced_quotes s = balanced false s
