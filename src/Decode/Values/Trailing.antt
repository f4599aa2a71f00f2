-- ===== src/Decode/Values/Trailing.antt =====
-- internal/decode/leef.go: a backslash at the end of the attributes.
use worm.Base.{ℕ, Bool, true, false, List, [], ◌∷◌, ◌++◌, ◌≡◌, refl, ◌==◌, Bytes, arith}
use worm.Decode.Values.{tokens, split_with_escapes}

-- Whether the bytes end behind a backslash that has not escaped anything yet.
abbrev pub ends_escaped : Bool → Bytes → Bool
ends_escaped escaped [] = escaped
ends_escaped true (c ∷ s) = ends_escaped false s
ends_escaped false (c ∷ s) = ends_escaped (c == b'\\') s

tokens_trailing :
    (d : ℕ) (s : Bytes) (escaped : Bool) (done : List Bytes) (cur : Bytes)
    → ends_escaped escaped s ≡ false
    → tokens d escaped done cur (s ++ (b'\\' ∷ [])) ≡ tokens d escaped done cur s
unfolding tokens
tokens_trailing d [] true done cur h = cc
tokens_trailing d [] false done cur h = refl
tokens_trailing d (c ∷ s) true done cur h = tokens_trailing d s false done _ h
tokens_trailing d (c ∷ s) false done cur h = ground (
  arith,
  tokens_trailing d s true done cur,
  tokens_trailing d s false (done ++ (cur ∷ [])) [],
  tokens_trailing d s false done (cur ++ (c ∷ [])),
)

-- A backslash behind text that ends in no open escape is lost: with it and without it the same
-- tokens come out.
split_with_escapes_trailing :
    (d : ℕ) (s : Bytes)
    → ends_escaped false s ≡ false
    → split_with_escapes (s ++ (b'\\' ∷ [])) d ≡ split_with_escapes s d
unfolding split_with_escapes
split_with_escapes_trailing d s h = tokens_trailing d s false [] [] h
