-- ===== src/Decode/Values/Cef.antt =====
-- internal/decode/cef.go: values as a sender writes them, for `unescapeCEFValue`.
use worm.Base.{
  ℕ, false, [], ◌∷◌, ◌++◌, ◌≡◌, refl, sym, ◌∙◌, ap, inl, inr, ◌==◌, if◌then◌else◌, Bytes, contains,
  has_prefix, arith, Bool-cases,
}
use worm.Decode.Values.{cef_escape, unescape, unescape_cef_value}

-- One byte of a value, as the CEF standard has it written.
pub cef_written_byte : ℕ → Bytes
cef_written_byte c =
    if c == b'='
    then b'\\' ∷ b'=' ∷ []
    else if c == b'\\'
    then b'\\' ∷ b'\\' ∷ []
    else if c == b'\n'
    then b'\\' ∷ b'n' ∷ []
    else if c == b'\r'
    then b'\\' ∷ b'r' ∷ []
    else c ∷ []

pub cef_written : Bytes → Bytes
cef_written [] = []
cef_written (c ∷ v) = cef_written_byte c ++ cef_written v

unescape-cef_written_byte :
    (c : ℕ) (rest : Bytes)
    → unescape cef_escape false (cef_written_byte c ++ rest) ≡ c ∷ unescape cef_escape false rest
unfolding unescape cef_escape cef_written_byte
unescape-cef_written_byte c rest = ground arith

unescape-cef_written : (v : Bytes) → unescape cef_escape false (cef_written v) ≡ v
unfolding cef_written
unescape-cef_written [] = unfold unescape in refl
unescape-cef_written (c ∷ v) =
    unescape-cef_written_byte c (cef_written v) ∙ ap (◌∷◌ c) (unescape-cef_written v)

-- The loop copies a text with no backslash, whatever an escape would read as.
pub unescape_plain :
    (read : ℕ → Bytes) (s : Bytes) → contains s (b'\\' ∷ []) ≡ false → unescape read false s ≡ s
unfolding unescape contains has_prefix
unescape_plain read [] h = refl
unescape_plain read (c ∷ s) h = ground (arith, unescape_plain read s)

-- A value that is written with its escapes is read back, whatever its bytes are.
pub unescape_cef_value-cef_written : (v : Bytes) → unescape_cef_value (cef_written v) ≡ v
unfolding unescape_cef_value
unescape_cef_value-cef_written v = elim (Bool-cases (contains (cef_written v) (b'\\' ∷ []))) [
  | inl e ↦ rw e (unescape-cef_written v)
  | inr e ↦ rw e (sym (unescape_plain cef_escape (cef_written v) e) ∙ unescape-cef_written v)
]
