-- ===== src/Decode/Syslog/Tokens.antt =====
-- `parseKeyValueTokens` of internal/decode/syslog.go. The index into the text is kept as the text
-- behind it, and the map as an association list.
pub mod Progress
pub mod RoundTrip
use worm.Base.{
  ℕ, zero, suc, Bool, true, false, ◌&&◌, ◌||◌, not, List, [], ◌∷◌, Option, none, some, Bytes, codes,
  ◌==◌, is_space, put, length, if◌then◌else◌,
}
use worm.Library.{Error, invalid}
use worm.Store.Action.{Result, ok, err}

abbrev pub Pairs : Type 0
Pairs = List (Bytes × Bytes)

-- The longest beginning of bytes that pass a test, and what is behind it.
unfoldable pub span : (ℕ → Bool) → Bytes → Bytes × Bytes
span p [] = ([], [])
span p (c ∷ s) = let r = span p s in if p c then (c ∷ r.0, r.1) else ([], c ∷ s)

abbrev pub space : ℕ → Bool
space c = is_space c

abbrev pub no_space : ℕ → Bool
no_space c = not (is_space c)

abbrev pub in_key : ℕ → Bool
in_key c = not (c == b'=') && not (is_space c)

-- `value.WriteByte(c)` before the rest of a value is read.
abbrev pub with_byte : ℕ → Option (Bytes × Bytes) → Option (Bytes × Bytes)
with_byte c none = none
with_byte c (some r) = some (c ∷ r.0, r.1)

-- The value up to the closing quote, and what is behind that. A quote or a backslash behind a
-- backslash is the byte itself.
unfoldable pub quoted : ℕ → Bytes → Option (Bytes × Bytes)
quoted q [] = none
quoted q (c ∷ []) = elim (c == q) [ true ↦ some ([], []) | false ↦ none ]
quoted q (c ∷ d ∷ s) = elim (c == b'\\' && (d == q || d == b'\\')) [
  | true ↦ with_byte d (quoted q s)
  | false ↦ elim (not (c == b'\\') && c == q) [
    | true ↦ some ([], d ∷ s)
    | false ↦ with_byte c (quoted q (d ∷ s))
  ]
]

-- What one turn of the loop does: a pair or none, and the text behind it.
pub data Turn : Type 0 where
  skipped : Bytes → Turn
  read : Bytes → Bytes → Bytes → Turn
  unterminated : Bytes → Turn

close_quote : Bytes → Option (Bytes × Bytes) → Turn
close_quote key none = unterminated key
close_quote key (some (value, rest)) = read key value rest

plain_value : Bytes → Bytes × Bytes → Turn
plain_value key ([], rest) = skipped rest
plain_value key (c ∷ value, rest) = read key (c ∷ value) rest

-- Behind the `=`.
turn_value : Bytes → Bytes → Turn
unfolding close_quote plain_value
turn_value key [] = skipped []
turn_value key (q ∷ s) = elim (q == b'"' || q == b'\'') [
  | true ↦ close_quote key (quoted q s)
  | false ↦ plain_value key (span no_space (q ∷ s))
]

turn_key : Bytes × Bytes → Turn
unfolding turn_value
turn_key (key, []) = skipped []
turn_key ([], c ∷ s) = skipped (span no_space (c ∷ s)).1
turn_key (k ∷ key, c ∷ s) = elim (c == b'=') [
  | true ↦ turn_value (k ∷ key) s
  | false ↦ skipped (span no_space (c ∷ s)).1
]

unfoldable pub turn : Bytes → Turn
unfolding turn_key
turn s = turn_key (span in_key (span space s).1)

abbrev pub follow : (Pairs → Bytes → Option (Result Pairs)) → Pairs → Turn → Option (Result Pairs)
follow next found (skipped rest) = next found rest
follow next found (read key value rest) = next (put key value found) rest
follow next found (unterminated key) = some (err (invalid key))

-- The loop, with fuel for its turns; `none` where the fuel is used up.
unfoldable pub turns : ℕ → Pairs → Bytes → Option (Result Pairs)
turns n found [] = some (ok found)
turns zero found (c ∷ s) = none
turns (suc n) found (c ∷ s) = follow (turns n) found (turn (c ∷ s))

unfoldable pub parse_key_value_tokens : Bytes → Option (Result Pairs)
unfolding turns
parse_key_value_tokens s = turns (length s) [] s
