-- ===== src/Decode/Values/Leef.antt =====
-- internal/decode/leef.go: attributes as a sender writes them, for the tokenizer and the escapes.
use worm.Base.{
  ℕ, true, false, ◌||◌, List, [], ◌∷◌, ◌++◌, ◌≡◌, refl, sym, ◌∙◌, ap, inl, inr, ◌==◌, leb,
  if◌then◌else◌, Bytes, contains, arith, Bool-cases, append-nil, append_assoc, map, length,
  length-append,
}
use worm.Decode.Values.{leef_escape, unescape, unescape_leef_value, tokens, split_with_escapes}
use worm.Decode.Values.Cef.{unescape_plain}

-- One byte of a value: a backslash stands before the delimiter and before a backslash.
pub leef_written_byte : ℕ → ℕ → Bytes
leef_written_byte d c = if c == b'\\' || c == d then b'\\' ∷ c ∷ [] else c ∷ []

pub leef_written : ℕ → Bytes → Bytes
leef_written d [] = []
leef_written d (c ∷ v) = leef_written_byte d c ++ leef_written d v

-- The attributes, the delimiter between them.
unfoldable pub joined : ℕ → Bytes → List Bytes → Bytes
unfolding leef_written
joined d v [] = leef_written d v
joined d v (w ∷ ws) = leef_written d v ++ (d ∷ joined d w ws)

-- The delimiter is no letter that an escape has a meaning for, and no backslash.
pub record IsPlain (d : ℕ) : Type 0 where
  pub not_backslash : (d == b'\\') ≡ false
  pub not_t : (d == b't') ≡ false
  pub not_n : (d == b'n') ≡ false
  pub not_r : (d == b'r') ≡ false

module _ (d : ℕ) (plain : IsPlain d) where
  unescape-leef_written_byte :
      (c : ℕ) (rest : Bytes)
      → unescape (leef_escape d) false (leef_written_byte d c ++ rest)
        ≡ c ∷ unescape (leef_escape d) false rest
  unfolding unescape leef_escape leef_written_byte
  unescape-leef_written_byte c rest =
      ground (arith, plain.not_backslash, plain.not_t, plain.not_n, plain.not_r)

  unescape-leef_written : (v : Bytes) → unescape (leef_escape d) false (leef_written d v) ≡ v
  unfolding leef_written
  unescape-leef_written [] = unfold unescape in refl
  unescape-leef_written (c ∷ v) =
      unescape-leef_written_byte c (leef_written d v) ∙ ap (◌∷◌ c) (unescape-leef_written v)

  pub unescape_leef_value-leef_written : (v : Bytes) → unescape_leef_value (leef_written d v) d ≡ v
  unfolding unescape_leef_value
  unescape_leef_value-leef_written v =
      elim (Bool-cases (contains (leef_written d v) (b'\\' ∷ []))) [
        | inl e ↦ rw e (unescape-leef_written v)
        | inr e ↦
            rw e
              (sym (unescape_plain (leef_escape d) (leef_written d v) e) ∙ unescape-leef_written v)
      ]

  tokens-leef_written_byte :
      (c : ℕ) (done : List Bytes) (cur rest : Bytes)
      → tokens d false done cur (leef_written_byte d c ++ rest)
        ≡ tokens d false done (cur ++ leef_written_byte d c) rest
  unfolding tokens leef_written_byte
  tokens-leef_written_byte c done cur rest = ground (arith, plain.not_backslash)

  tokens-leef_written :
      (v : Bytes) (done : List Bytes) (cur rest : Bytes)
      → tokens d false done cur (leef_written d v ++ rest)
        ≡ tokens d false done (cur ++ leef_written d v) rest
  unfolding leef_written
  tokens-leef_written [] done cur rest = rw append-nil refl
  tokens-leef_written (c ∷ v) done cur rest =
      ap (tokens d false done cur) (append_assoc (leef_written_byte d c) (leef_written d v) rest)
      ∙ tokens-leef_written_byte c done cur (leef_written d v ++ rest)
      ∙ tokens-leef_written v done (cur ++ leef_written_byte d c) rest
      ∙ ap (λ x. tokens d false done x rest)
          (append_assoc cur (leef_written_byte d c) (leef_written d v))

  tokens_delimiter :
      (done : List Bytes) (cur rest : Bytes)
      → tokens d false done cur (d ∷ rest) ≡ tokens d false (done ++ (cur ∷ [])) [] rest
  unfolding tokens
  tokens_delimiter done cur rest = ground (arith, plain.not_backslash)

  tokens_end :
      (done : List Bytes) (cur : Bytes)
      → leb 1 (length done) ≡ true
      → tokens d false done cur [] ≡ done ++ (cur ∷ [])
  unfolding tokens
  tokens_end done cur h = ground arith

  tokens-joined :
      (v : Bytes) (ws : List Bytes) (done : List Bytes)
      → leb 1 (length done) ≡ true
      → tokens d false done [] (joined d v ws) ≡ done ++ map (leef_written d) (v ∷ ws)
  unfolding joined
  tokens-joined v [] done h =
      ap (tokens d false done []) (sym (append-nil (leef_written d v)))
      ∙ tokens-leef_written v done [] []
      ∙ tokens_end done (leef_written d v) h
  tokens-joined v (w ∷ ws) done h =
      tokens-leef_written v done [] (d ∷ joined d w ws)
      ∙ tokens_delimiter done (leef_written d v) (joined d w ws)
      ∙ tokens-joined w ws (done ++ (leef_written d v ∷ []))
          (ground (arith, length-append done (leef_written d v ∷ [])))
      ∙ append_assoc done (leef_written d v ∷ []) (map (leef_written d) (w ∷ ws))

  read_back : (vs : List Bytes) → map (λ t. unescape_leef_value t d) (map (leef_written d) vs) ≡ vs
  read_back [] = refl
  read_back (v ∷ vs) = rw (unescape_leef_value-leef_written v, read_back vs) refl

  -- Two or more attributes, written with their escapes and joined by a delimiter that is no
  -- backslash and none of the letters t, n and r, are parted at the delimiters alone and each is
  -- read back.
  pub split_with_escapes-joined :
      (v w : Bytes) (ws : List Bytes)
      → map (λ t. unescape_leef_value t d) (split_with_escapes (joined d v (w ∷ ws)) d) ≡ v ∷ w ∷ ws
  unfolding split_with_escapes joined
  split_with_escapes-joined v w ws =
      ap (map (λ t. unescape_leef_value t d)) (
        tokens-leef_written v [] [] (d ∷ joined d w ws)
        ∙ tokens_delimiter [] (leef_written d v) (joined d w ws)
        ∙ tokens-joined w ws (leef_written d v ∷ []) refl)
      ∙ read_back (v ∷ w ∷ ws)
