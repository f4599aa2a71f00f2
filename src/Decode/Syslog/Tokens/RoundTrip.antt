-- ===== src/Decode/Syslog/Tokens/RoundTrip.antt =====
-- `parseKeyValueTokens` of internal/decode/syslog.go, on pairs that were written with quotes.
use worm.Base.{
  ℕ, zero, suc, Bool, true, false, ◌≡◌, refl, ◌∙◌, ap, ◌≤◌, ◌||◌, [], ◌∷◌, ◌++◌, some, Bytes, ◌==◌,
  length, length-append, put, if◌then◌else◌, Bool-cases, inl, inr, arith,
}
use worm.Store.Action.{ok}
use worm.Decode.Syslog.Tokens.{
  Pairs, span, space, in_key, with_byte, quoted, read, close_quote, turn_value, turn_key, turn,
  turns, parse_key_value_tokens,
}

abbrev pub is_quote : ℕ → Bool
is_quote q = q == b'"' || q == b'\''

-- A value with a backslash in front of each quote and each backslash.
abbrev pub escape : ℕ → Bytes → Bytes
escape q [] = []
escape q (c ∷ v) = (if c == q || c == b'\\' then b'\\' ∷ c ∷ [] else c ∷ []) ++ escape q v

-- ` key="value"`
abbrev pub written : ℕ → Bytes × Bytes → Bytes → Bytes
written q kv rest = b' ' ∷ (kv.0 ++ (b'=' ∷ q ∷ (escape q kv.1 ++ (q ∷ rest))))

abbrev pub write : ℕ → Pairs → Bytes
write q [] = []
write q (kv ∷ kvs) = written q kv (write q kvs)

-- A later pair takes the place of an earlier one.
abbrev pub collect : Pairs → Pairs → Pairs
collect found [] = found
collect found (kv ∷ kvs) = collect (put kv.0 kv.1 found) kvs

abbrev pub All : (ℕ → Bool) → Bytes → Type 0
All p [] = Unit
All p (c ∷ s) = (p c ≡ true) × All p s

-- At least one byte, and neither spaces nor `=`.
abbrev pub IsKey : Bytes → Type 0
IsKey [] = ⊥
IsKey (c ∷ s) = All in_key (c ∷ s)

abbrev pub AreKeys : Pairs → Type 0
AreKeys [] = Unit
AreKeys (kv ∷ kvs) = IsKey kv.0 × AreKeys kvs

span-All :
    (p : ℕ → Bool) (s : Bytes) (c : ℕ) (rest : Bytes)
    → All p s
    → p c ≡ false
    → span p (s ++ (c ∷ rest)) ≡ (s, c ∷ rest)
unfolding span
span-All p [] c rest all h = rw h refl
span-All p (x ∷ s) c rest (e, all) h = rw (e, span-All p s c rest all h) refl

key_no_space : (c : ℕ) → in_key c ≡ true → space c ≡ false
key_no_space c h = ground arith

-- The space in front of a key is skipped.
skip-key : (c : ℕ) (s : Bytes) → in_key c ≡ true → span space (b' ' ∷ c ∷ s) ≡ (b' ' ∷ [], c ∷ s)
unfolding span
skip-key c s h = rw (key_no_space c h) refl

module _ (q : ℕ) (quote : is_quote q ≡ true) where
  quoted_end : (rest : Bytes) → quoted q (q ∷ rest) ≡ some ([], rest)
  unfolding quoted
  quoted_end [] = ground arith
  quoted_end (d ∷ s) = ground arith

  quoted_other :
      (c : ℕ) (s : Bytes)
      → (c == q || c == b'\\') ≡ false
      → quoted q (c ∷ s) ≡ with_byte c (quoted q s)
  unfolding quoted
  quoted_other c [] h = ground arith
  quoted_other c (d ∷ s) h = ground arith

  quoted_escaped :
      (c : ℕ) (s : Bytes)
      → (c == q || c == b'\\') ≡ true
      → quoted q (b'\\' ∷ c ∷ s) ≡ with_byte c (quoted q s)
  unfolding quoted
  quoted_escaped c s h = rw (quoted, h) refl

  quoted-escape : (v rest : Bytes) → quoted q (escape q v ++ (q ∷ rest)) ≡ some (v, rest)
  quoted-escape [] rest = quoted_end rest
  quoted-escape (c ∷ v) rest = elim (Bool-cases (c == q || c == b'\\')) [
    | inl e ↦ rw e (quoted_escaped c _ e ∙ ap (with_byte c) (quoted-escape v rest))
    | inr e ↦ rw e (quoted_other c _ e ∙ ap (with_byte c) (quoted-escape v rest))
  ]

  value_quoted : (key s : Bytes) → turn_value key (q ∷ s) ≡ close_quote key (quoted q s)
  unfolding turn_value
  value_quoted key s = rw (turn_value, quote) refl

  turn-written :
      (kv : Bytes × Bytes) (rest : Bytes)
      → IsKey kv.0
      → turn (written q kv rest) ≡ read kv.0 kv.1 rest
  unfolding turn turn_key close_quote
  turn-written ([], v) rest key = absurd key
  turn-written (c ∷ k, v) rest (e, all) =
      let value = q ∷ (escape q v ++ (q ∷ rest)) in
      rw (skip-key c (k ++ (b'=' ∷ value)) e, span-All in_key (c ∷ k) b'=' value (e, all) refl)
        (value_quoted (c ∷ k) (escape q v ++ (q ∷ rest))
          ∙ ap (close_quote (c ∷ k)) (quoted-escape v rest))

  turns-write :
      (n : ℕ) (found kvs : Pairs)
      → length kvs ≤ n
      → AreKeys kvs
      → turns n found (write q kvs) ≡ some (ok (collect found kvs))
  unfolding turns
  turns-write n found [] le keys = refl
  turns-write zero found (kv ∷ kvs) le keys = absurd (omega (arith, le))
  turns-write (suc n) found (kv ∷ kvs) le (key, keys) =
      rw (turn-written kv (write q kvs) key)
        (turns-write n (put kv.0 kv.1 found) kvs (omega (arith, le)) keys)

  length-write : (kvs : Pairs) → length kvs ≤ length (write q kvs)
  length-write [] = omega arith
  length-write (kv ∷ kvs) = omega (
    arith,
    length-append kv.0 (b'=' ∷ q ∷ (escape q kv.1 ++ (q ∷ write q kvs))),
    length-append (escape q kv.1) (q ∷ write q kvs),
    length-write kvs,
  )

  -- `parseKeyValueTokens` reads back any pairs that were written as ` key="value"`, each key of at
  -- least one byte and without spaces and `=`, each value with a backslash in front of every quote
  -- and backslash: it finds exactly these pairs, a later one in the place of an earlier one of the
  -- same key. The quote may be a single or a double one.
  pub parse_key_value_tokens-write :
      (kvs : Pairs)
      → AreKeys kvs
      → parse_key_value_tokens (write q kvs) ≡ some (ok (collect [] kvs))
  unfolding parse_key_value_tokens
  parse_key_value_tokens-write kvs keys =
      turns-write (length (write q kvs)) [] kvs (length-write kvs) keys
