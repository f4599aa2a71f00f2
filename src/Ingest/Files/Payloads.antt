-- ===== src/Ingest/Files/Payloads.antt =====
-- The lines of a file for `IngestFile` of internal/ingest/file.go, told by themselves.
use worm.Base.{
  ℕ, ◌≡◌, refl, sym, ◌∙◌, ap, Bool, true, false, ◌||◌, List, [], ◌∷◌, ◌++◌, Bytes, ◌==◌,
  trim_newlines, drop_newline, append_assoc, append-nil, Bool-cases, inl, inr, ==_iff,
}
use worm.Ingest.Frames.Lines.{line_of}
use worm.Ingest.Frames.Written.{trim_newlines-append}

-- The lines of a text, as parted by its line feeds.
lines_from : Bytes → Bytes → List Bytes
lines_from cur [] = cur ∷ []
lines_from cur (c ∷ s) = elim (c == b'\n') [
  | true ↦ cur ∷ lines_from [] s
  | false ↦ lines_from (cur ++ (c ∷ [])) s
]

-- In front of the payloads that follow, unless it is empty.
abbrev pub add_payload : Bytes → List Bytes → List Bytes
add_payload [] ps = ps
add_payload (c ∷ p) ps = (c ∷ p) ∷ ps

payloads_of : List Bytes → List Bytes
payloads_of [] = []
payloads_of (l ∷ ls) = add_payload (trim_newlines l) (payloads_of ls)

-- What a file holds: its lines, less the line breaks at their ends, and less the empty ones.
unfoldable pub payloads : Bytes → List Bytes
unfolding lines_from payloads_of
payloads s = payloads_of (lines_from [] s)

payloads-from :
    (cur s : Bytes)
    → payloads_of (lines_from cur s)
      ≡ add_payload
          (trim_newlines (cur ++ (line_of b'\n' s).text))
          (payloads (line_of b'\n' s).rest)
unfolding lines_from payloads_of payloads line_of trim_newlines
payloads-from cur [] = rw append-nil refl
payloads-from cur (c ∷ s) = elim (Bool-cases (c == b'\n')) [
  | inl e ↦
      let p = (==_iff c b'\n').0 e in
      rw (lines_from, line_of, e)
        (ap (λ t. add_payload t (payloads s))
          (sym (trim_newlines-append cur) ∙ ap (λ x. trim_newlines (cur ++ (x ∷ []))) (sym p)))
  | inr e ↦
      rw (lines_from, line_of, e)
        (payloads-from (cur ++ (c ∷ [])) s
          ∙ ap (λ t. add_payload (trim_newlines t) (payloads (line_of b'\n' s).rest))
              (append_assoc cur (c ∷ []) (line_of b'\n' s).text))
]

payloads-line :
    (s : Bytes)
    → payloads s
      ≡ add_payload (trim_newlines (line_of b'\n' s).text) (payloads (line_of b'\n' s).rest)
unfolding payloads
payloads-line s = payloads-from [] s

-- What is trimmed off the end of a line.
pub trimmed_off : (s : Bytes) → (t : Bytes) × (s ≡ trim_newlines s ++ t)
unfolding trim_newlines
trimmed_off [] = ([], refl)
trimmed_off (c ∷ s) = let (t, h) = trimmed_off s in off c (trim_newlines s) t s h
  where
    off : (c : ℕ) (p t s : Bytes) → s ≡ p ++ t → (t' : Bytes) × (c ∷ s ≡ drop_newline c p ++ t')
    off c [] t s h = elim (Bool-cases (c == b'\r' || c == b'\n')) [
      | inl e ↦ rw e (c ∷ s, refl)
      | inr e ↦ rw e (s, refl)
    ]
    off c (d ∷ p) t s h = (t, ap (λ x. c ∷ x) h)

-- The payloads of a text whose first line is known.
pub line_payloads :
    (s part rest : Bytes) (ended : Bool)
    → line_of b'\n' s ≡ record { text = part; ended = ended; rest = rest }
    → payloads s ≡ add_payload (trim_newlines part) (payloads rest)
line_payloads s part rest ended h =
    payloads-line s ∙ ap (λ l. add_payload (trim_newlines l.text) (payloads l.rest)) h
