-- ===== src/Decode/Values.antt =====
-- The values of internal/decode/cef.go and leef.go: `unescapeCEFValue`, `splitWithEscapes` and
-- `unescapeLEEFValue`.
pub mod Cef
pub mod Leef
pub mod Trailing
use worm.Base.{
  ℕ, Bool, true, false, ◌||◌, not, List, [], ◌∷◌, ◌++◌, ◌==◌, leb, if◌then◌else◌, Bytes, codes,
  contains, length,
}

-- The bytes that `unescapeCEFValue` writes for the byte behind a backslash.
cef_escape : ℕ → Bytes
cef_escape c =
    if c == b'='
    then b'=' ∷ []
    else if c == b'\\'
    then b'\\' ∷ []
    else if c == b'n'
    then b'\n' ∷ []
    else if c == b'r'
    then b'\r' ∷ []
    else b'\\' ∷ c ∷ []

-- The loop; the flag is `escaped`. `read` are the bytes for an escape.
pub unescape : (ℕ → Bytes) → Bool → Bytes → Bytes
unescape read true [] = b'\\' ∷ []
unescape read false [] = []
unescape read true (c ∷ s) = read c ++ unescape read false s
unescape read false (c ∷ s) = elim (c == b'\\') [
  | true ↦ unescape read true s
  | false ↦ c ∷ unescape read false s
]

unfoldable pub unescape_cef_value : Bytes → Bytes
unfolding unescape cef_escape
unescape_cef_value s = if not (contains s (b'\\' ∷ [])) then s else unescape cef_escape false s

-- The delimiter is one byte, as `parseLEEFDelimiter` makes it.
leef_escape : ℕ → ℕ → Bytes
leef_escape d c =
    if c == b'\\'
    then b'\\' ∷ []
    else if c == b't'
    then b'\t' ∷ []
    else if c == b'n'
    then b'\n' ∷ []
    else if c == b'r'
    then b'\r' ∷ []
    else if c == d
    then c ∷ []
    else b'\\' ∷ c ∷ []

unfoldable pub unescape_leef_value : Bytes → ℕ → Bytes
unfolding unescape leef_escape
unescape_leef_value s d =
    if not (contains s (b'\\' ∷ [])) then s else unescape (leef_escape d) false s

-- The loop of `splitWithEscapes`, over its variables. At the end the flag `escaped` is not read.
tokens : ℕ → Bool → List Bytes → Bytes → Bytes → List Bytes
tokens d escaped done cur [] =
    if leb 1 (length cur) || leb 1 (length done) then done ++ (cur ∷ []) else done
tokens d true done cur (c ∷ s) = tokens d false done (cur ++ (b'\\' ∷ c ∷ [])) s
tokens d false done cur (c ∷ s) = elim (c == b'\\') [
  | true ↦ tokens d true done cur s
  | false ↦ elim (c == d) [
    | true ↦ tokens d false (done ++ (cur ∷ [])) [] s
    | false ↦ tokens d false done (cur ++ (c ∷ [])) s
  ]
]

unfoldable pub split_with_escapes : Bytes → ℕ → List Bytes
unfolding tokens
split_with_escapes s d = tokens d false [] [] s
