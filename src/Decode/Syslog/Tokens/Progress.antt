-- ===== src/Decode/Syslog/Tokens/Progress.antt =====
-- `parseKeyValueTokens` of internal/decode/syslog.go: how far a turn of its loop gets.
use worm.Base.{
  ℕ, zero, suc, Bool, true, false, ◌≡◌, refl, ◌≤◌, ◌+◌, ◌&&◌, ◌||◌, ◌<◌, not, [], ◌∷◌, Option, none,
  some, Bytes, ◌==◌, length, put, Bool-cases, inl, inr, arith,
}
use worm.Library.{invalid}
use worm.Store.Action.{Result, ok, err}
use worm.Decode.Syslog.Tokens.{
  Pairs, span, space, no_space, in_key, with_byte, quoted, Turn, skipped, read, unterminated,
  follow, close_quote, plain_value, turn_value, turn_key, turn, turns, parse_key_value_tokens,
}

span-length : (p : ℕ → Bool) (s : Bytes) → length (span p s).0 + length (span p s).1 ≡ length s
unfolding span
span-length p [] = refl
span-length p (c ∷ s) = ground (arith, span-length p s)

-- The text behind a quoted value is shorter.
abbrev Shorter : ℕ → Option (Bytes × Bytes) → Type 0
Shorter n none = Unit
Shorter n (some r) = length r.1 < n

with_byte-Shorter :
    (n c : ℕ) (o : Option (Bytes × Bytes)) → Shorter n o → Shorter (suc n) (with_byte c o)
with_byte-Shorter n c none h = tt
with_byte-Shorter n c (some r) h = omega arith

later-Shorter : (n : ℕ) (o : Option (Bytes × Bytes)) → Shorter n o → Shorter (suc n) o
later-Shorter n none h = tt
later-Shorter n (some r) h = omega arith

quoted-Shorter : (q : ℕ) (s : Bytes) → Shorter (length s) (quoted q s)
unfolding quoted
quoted-Shorter q [] = tt
quoted-Shorter q (c ∷ []) = elim (Bool-cases (c == q)) [
  | inl e ↦ rw (Shorter, e) (omega arith)
  | inr e ↦ rw (Shorter, e) tt
]
quoted-Shorter q (c ∷ d ∷ s) = elim (Bool-cases (c == b'\\' && (d == q || d == b'\\'))) [
  | inl e ↦
      rw (Shorter, e)
        (later-Shorter _ (with_byte d (quoted q s))
          (with_byte-Shorter _ d (quoted q s) (quoted-Shorter q s)))
  | inr e ↦
      rw (Shorter, e)
        (elim (Bool-cases (not (c == b'\\') && c == q)) [
          | inl e' ↦ rw (Shorter, e') (omega arith)
          | inr e' ↦
              rw (Shorter, e') (with_byte-Shorter _ c (quoted q (d ∷ s)) (quoted-Shorter q (d ∷ s)))
        ])
]

-- A turn gets forward in a text of `n` bytes.
abbrev pub Forward : ℕ → Turn → Type 0
Forward n (skipped rest) = length rest < n
Forward n (read key value rest) = length rest < n
Forward n (unterminated key) = Unit

close_quote-Forward :
    (n : ℕ) (key : Bytes) (o : Option (Bytes × Bytes))
    → Shorter n o
    → Forward (suc n) (close_quote key o)
unfolding close_quote
close_quote-Forward n key none h = tt
close_quote-Forward n key (some r) h = omega arith

plain_value-Forward :
    (n : ℕ) (key : Bytes) (v : Bytes × Bytes)
    → length v.0 + length v.1 ≤ n
    → Forward (suc n) (plain_value key v)
unfolding plain_value
plain_value-Forward n key ([], rest) h = omega arith
plain_value-Forward n key (c ∷ v, rest) h = omega arith

turn_value-Forward : (key s : Bytes) → Forward (suc (length s)) (turn_value key s)
unfolding turn_value
turn_value-Forward key [] = omega arith
turn_value-Forward key (q ∷ s) = elim (Bool-cases (q == b'"' || q == b'\'')) [
  | inl e ↦
      rw (Forward, e)
        (close_quote-Forward _ key (quoted q s) (later-Shorter _ (quoted q s) (quoted-Shorter q s)))
  | inr e ↦
      rw (Forward, e)
        (plain_value-Forward _ key (span no_space (q ∷ s))
          (omega (arith, span-length no_space (q ∷ s))))
]

weaker-Forward : (m n : ℕ) (t : Turn) → m ≤ n → Forward m t → Forward n t
weaker-Forward m n (skipped rest) le h = omega arith
weaker-Forward m n (read key value rest) le h = omega arith
weaker-Forward m n (unterminated key) le h = tt

-- The byte in front does not pass the test.
abbrev Fails : (ℕ → Bool) → Bytes → Type 0
Fails p [] = Unit
Fails p (c ∷ s) = p c ≡ false

span-Fails : (p : ℕ → Bool) (s : Bytes) → Fails p (span p s).1
unfolding span
span-Fails p [] = tt
span-Fails p (c ∷ s) = elim (Bool-cases (p c)) [
  | inl e ↦ rw (Fails, e) (span-Fails p s)
  | inr e ↦ rw (Fails, e) e
]

-- No key, and a byte that is not a space.
abbrev Begins : Bytes × Bytes → Type 0
Begins ([], c ∷ s) = no_space c ≡ true
Begins ([], []) = Unit
Begins (k ∷ key, s) = Unit

key-Begins : (s : Bytes) → Fails space s → Begins (span in_key s)
unfolding span
key-Begins [] h = tt
key-Begins (c ∷ s) h = elim (Bool-cases (in_key c)) [
  | inl e ↦ rw (Begins, e) tt
  | inr e ↦ rw (Begins, e, h) refl
]

skip-length : (c : ℕ) (s : Bytes) → no_space c ≡ true → length (span no_space (c ∷ s)).1 ≤ length s
unfolding span
skip-length c s h = rw (h, length) (omega (arith, span-length no_space s))

turn_key-Forward :
    (n : ℕ) (r : Bytes × Bytes)
    → length r.0 + length r.1 ≤ n
    → 0 < n
    → Begins r
    → Forward n (turn_key r)
unfolding turn_key
turn_key-Forward n ([], []) le pos b = pos
turn_key-Forward n (k ∷ key, []) le pos b = pos
turn_key-Forward n ([], c ∷ s) le pos b = omega (arith, skip-length c s b)
turn_key-Forward n (k ∷ key, c ∷ s) le pos b = elim (Bool-cases (c == b'=')) [
  | inl e ↦ rw (Forward, e) (weaker-Forward _ n _ (omega arith) (turn_value-Forward (k ∷ key) s))
  | inr e ↦ rw (Forward, e) (omega (arith, span-length no_space (c ∷ s)))
]

pub turn-Forward : (c : ℕ) (s : Bytes) → Forward (length (c ∷ s)) (turn (c ∷ s))
unfolding turn
turn-Forward c s =
    turn_key-Forward _ _
      (omega (arith, span-length in_key (span space (c ∷ s)).1, span-length space (c ∷ s)))
      (omega arith) (key-Begins _ (span-Fails space (c ∷ s)))

-- Where the texts that are shorter have a result, so has what follows a turn.
follow_total :
    (next : Pairs → Bytes → Option (Result Pairs)) (n : ℕ) (found : Pairs) (t : Turn)
    → ((found' : Pairs) (s : Bytes) → length s < n → (r : Result Pairs) × (next found' s ≡ some r))
    → Forward n t
    → (r : Result Pairs) × (follow next found t ≡ some r)
follow_total next n found (skipped rest) all h = all found rest h
follow_total next n found (read key value rest) all h = all (put key value found) rest h
follow_total next n found (unterminated key) all h = (err (invalid key), refl)

-- Any fuel of the length of the text or more is enough.
pub turns_enough :
    (n : ℕ) (found : Pairs) (s : Bytes)
    → length s ≤ n
    → (r : Result Pairs) × (turns n found s ≡ some r)
unfolding turns
turns_enough n found [] le = (ok found, refl)
turns_enough zero found (c ∷ s) le = absurd (omega (arith, le))
turns_enough (suc n) found (c ∷ s) le =
    follow_total (turns n) _ found (turn (c ∷ s))
      (λ found' s' lt. turns_enough n found' s' (omega (arith, lt, le))) (turn-Forward c s)

-- `parseKeyValueTokens` ends for every text: the loop takes no more turns than the text has bytes.
pub parse_key_value_tokens_total :
    (s : Bytes) → (r : Result Pairs) × (parse_key_value_tokens s ≡ some r)
unfolding parse_key_value_tokens
parse_key_value_tokens_total s = turns_enough (length s) [] s (omega arith)
