-- ===== src/Decode/Syslog/Structured/RoundTrip.antt =====
-- `splitRFC5424StructuredData` of internal/decode/syslog.go, on elements that were written.
use worm.Base.{
  ℕ, Bool, true, false, ◌≡◌, refl, sym, ◌∙◌, ap, ◌||◌, List, [], ◌∷◌, ◌++◌, Option, some, Bytes,
  ◌==◌, if◌then◌else◌, Bool-cases, inl, inr, arith, append_assoc,
}
use worm.Store.Action.{ok}
use worm.Decode.Syslog.Structured.{
  between, inside, with_front, behind, scan, split_structured_data, split_found,
}

-- What stands in an element: a byte that is no quote, backslash or closing bracket, or any text in
-- quotes, with a backslash in front of its quotes, backslashes and closing brackets.
pub data Piece : Type 0 where
  plain : ℕ → Piece
  text : Bytes → Piece

abbrev special : ℕ → Bool
special c = c == b'\\' || c == b'"' || c == b']'

abbrev escape : Bytes → Bytes
escape [] = []
escape (c ∷ v) = (if special c then b'\\' ∷ c ∷ [] else c ∷ []) ++ escape v

abbrev pub piece : Piece → Bytes
piece (plain c) = c ∷ []
piece (text v) = b'"' ∷ (escape v ++ (b'"' ∷ []))

abbrev pub pieces : List Piece → Bytes
pieces [] = []
pieces (p ∷ ps) = piece p ++ pieces ps

abbrev pub elements : List (List Piece) → Bytes
elements [] = []
elements (e ∷ es) = b'[' ∷ (pieces e ++ (b']' ∷ elements es))

abbrev pub ArePlain : List Piece → Type 0
ArePlain [] = Unit
ArePlain (plain c ∷ ps) = (special c ≡ false) × ArePlain ps
ArePlain (text v ∷ ps) = ArePlain ps

abbrev pub AllPlain : List (List Piece) → Type 0
AllPlain [] = Unit
AllPlain (e ∷ es) = ArePlain e × AllPlain es

-- No further element.
abbrev pub IsBehind : Bytes → Type 0
IsBehind [] = Unit
IsBehind (c ∷ s) = (c == b'[') ≡ false

-- The bytes in front of what a scan reads.
abbrev with_all : Bytes → Option (Bytes × Bytes) → Option (Bytes × Bytes)
with_all [] o = o
with_all (c ∷ s) o = with_front c (with_all s o)

with_all-some : (a : Bytes) (r : Bytes × Bytes) → with_all a (some r) ≡ some (a ++ r.0, r.1)
with_all-some [] r = refl
with_all-some (c ∷ a) r = ap (with_front c) (with_all-some a r)

with_all-append :
    (a b : Bytes) (o : Option (Bytes × Bytes)) → with_all (a ++ b) o ≡ with_all a (with_all b o)
with_all-append [] b o = refl
with_all-append (c ∷ a) b o = ap (with_front c) (with_all-append a b o)

behind_plain :
    (quoted : Bool) (c : ℕ) → special c ≡ false → behind quoted false c ≡ inside quoted false
unfolding behind
behind_plain true c h = ground arith
behind_plain false c h = ground arith

scan_inside :
    (quoted escaped : Bool) (c : ℕ) (s : Bytes)
    → scan (inside quoted escaped) (c ∷ s) ≡ with_front c (scan (behind quoted escaped c) s)
unfolding scan
scan_inside quoted escaped c s = refl

scan_plain :
    (quoted : Bool) (c : ℕ) (s : Bytes)
    → special c ≡ false
    → scan (inside quoted false) (c ∷ s) ≡ with_front c (scan (inside quoted false) s)
scan_plain quoted c s h =
    scan_inside quoted false c s ∙ ap (λ m. with_front c (scan m s)) (behind_plain quoted c h)

scan-escape :
    (v s : Bytes)
    → scan (inside true false) (escape v ++ s) ≡ with_all (escape v) (scan (inside true false) s)
unfolding scan behind
scan-escape [] s = refl
scan-escape (c ∷ v) s = elim (Bool-cases (special c)) [
  | inl e ↦ rw e (ap (λ x. with_front b'\\' (with_front c x)) (scan-escape v s))
  | inr e ↦ rw e (scan_plain true c (escape v ++ s) e ∙ ap (with_front c) (scan-escape v s))
]

scan-piece :
    (p : Piece) (s : Bytes)
    → ArePlain (p ∷ [])
    → scan (inside false false) (piece p ++ s) ≡ with_all (piece p) (scan (inside false false) s)
unfolding scan behind
scan-piece (plain c) s (h, _) = scan_plain false c s h
scan-piece (text v) s h = ap (with_front b'"') (
    ap (scan (inside true false)) (append_assoc (escape v) (b'"' ∷ []) s)
    ∙ scan-escape v (b'"' ∷ s)
    ∙ sym (with_all-append (escape v) (b'"' ∷ []) (scan (inside false false) s)))

scan-pieces :
    (ps : List Piece) (s : Bytes)
    → ArePlain ps
    → scan (inside false false) (pieces ps ++ s)
      ≡ with_all (pieces ps) (scan (inside false false) s)
scan-pieces [] s h = refl
scan-pieces (p ∷ ps) s h =
    ap (scan (inside false false)) (append_assoc (piece p) (pieces ps) s)
    ∙ scan-piece p (pieces ps ++ s) (first p h)
    ∙ ap (with_all (piece p)) (scan-pieces ps s (rest p h))
    ∙ sym (with_all-append (piece p) (pieces ps) (scan (inside false false) s))
  where
    first : (p : Piece) → ArePlain (p ∷ ps) → ArePlain (p ∷ [])
    first (plain c) h = (h.0, tt)
    first (text v) h = tt

    rest : (p : Piece) → ArePlain (p ∷ ps) → ArePlain ps
    rest (plain c) h = h.1
    rest (text v) h = h

scan-elements :
    (es : List (List Piece)) (s : Bytes)
    → AllPlain es
    → IsBehind s
    → scan between (elements es ++ s) ≡ some (elements es, s)
unfolding scan behind
scan-elements [] [] h b = refl
scan-elements [] (c ∷ s) h b = rw (scan, b) refl
scan-elements (e ∷ es) s (h, hs) b = ap (with_front b'[') (
    ap (scan (inside false false)) (append_assoc (pieces e) (b']' ∷ elements es) s)
    ∙ scan-pieces e (b']' ∷ (elements es ++ s)) h
    ∙ ap (λ x. with_all (pieces e) (with_front b']' x)) (scan-elements es s hs b)
    ∙ with_all-some (pieces e) (b']' ∷ elements es, s))

-- Of one or more elements that were written with quotes, backslashes and closing brackets escaped
-- in their quoted texts, and of what is behind them, which does not begin with a further bracket,
-- `splitRFC5424StructuredData` returns the elements unchanged, and the rest less its outer spaces.
pub split_structured_data-elements :
    (trim_space : Bytes → Bytes) (e : List Piece) (es : List (List Piece)) (message : Bytes)
    → AllPlain (e ∷ es)
    → IsBehind message
    → split_structured_data trim_space (elements (e ∷ es) ++ message)
      ≡ ok (elements (e ∷ es), trim_space message)
unfolding split_structured_data split_found
split_structured_data-elements trim_space e es message h b =
    ap (split_found trim_space _) (scan-elements (e ∷ es) message h b)
