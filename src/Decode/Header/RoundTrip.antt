-- ===== src/Decode/Header/RoundTrip.antt =====
-- internal/decode/cef.go and leef.go: headers as a sender writes them, for the header scanners.
use worm.Base.{
  ℕ, Bool, true, false, List, [], ◌∷◌, ◌++◌, ◌≡◌, refl, ◌∙◌, ap, some, ◌==◌, ◌||◌, if◌then◌else◌,
  Bytes, codes, has_prefix, arith, append-nil, append_assoc,
}
use worm.Decode.Header.{
  unescaped, step, header, scan, cef_full, cef_result, split_cef_header, first_has, leef_full,
  leef_result, split_leef_header,
}

-- One byte of a part, as a sender writes it.
pub escaped_byte : ℕ → Bytes
escaped_byte c = if c == b'|' || c == b'\\' then b'\\' ∷ c ∷ [] else c ∷ []

escape_part : Bytes → Bytes → Bytes
escape_part [] rest = rest
escape_part (c ∷ p) rest = escaped_byte c ++ escape_part p rest

-- The parts, each with the separator behind it, in front of what follows.
unfoldable pub written : List Bytes → Bytes → Bytes
unfolding escape_part escaped_byte
written [] rest = rest
written (p ∷ parts) rest = escape_part p (b'|' ∷ written parts rest)

-- The header is full behind the last of the parts, and not before.
abbrev pub Fills : (List Bytes → Bool) → List Bytes → List Bytes → Type 0
Fills is_full before [] = ⊥
Fills is_full before (p ∷ []) = is_full (before ++ (p ∷ [])) ≡ true
Fills is_full before (p ∷ q ∷ parts) =
    (is_full (before ++ (p ∷ [])) ≡ false) × Fills is_full (before ++ (p ∷ [])) (q ∷ parts)

module _ (is_full : List Bytes → Bool) where
  scan-escaped_byte :
      (parts : List Bytes) (cur : Bytes) (c : ℕ) (rest : Bytes)
      → scan is_full (record { parts = parts; cur = cur; escaped = false }) (escaped_byte c ++ rest)
        ≡ scan is_full (record { parts = parts; cur = cur ++ (c ∷ []); escaped = false }) rest
  unfolding scan step unescaped escaped_byte
  scan-escaped_byte parts cur c rest = ground arith

  scan-escape_part :
      (p : Bytes) (parts : List Bytes) (cur rest : Bytes)
      → scan is_full (record { parts = parts; cur = cur; escaped = false }) (escape_part p rest)
        ≡ scan is_full (record { parts = parts; cur = cur ++ p; escaped = false }) rest
  unfolding escape_part
  scan-escape_part [] parts cur rest = rw append-nil refl
  scan-escape_part (c ∷ p) parts cur rest =
      scan-escaped_byte parts cur c (escape_part p rest)
      ∙ scan-escape_part p parts (cur ++ (c ∷ [])) rest
      ∙ rw append_assoc refl

  scan_last :
      (parts : List Bytes) (cur rest : Bytes)
      → is_full (parts ++ (cur ∷ [])) ≡ true
      → scan is_full (record { parts = parts; cur = cur; escaped = false }) (b'|' ∷ rest)
        ≡ header (parts ++ (cur ∷ [])) rest
  unfolding scan step
  scan_last parts cur rest h = ground arith

  scan_next :
      (parts : List Bytes) (cur rest : Bytes)
      → is_full (parts ++ (cur ∷ [])) ≡ false
      → scan is_full (record { parts = parts; cur = cur; escaped = false }) (b'|' ∷ rest)
        ≡ scan is_full (record { parts = parts ++ (cur ∷ []); cur = []; escaped = false }) rest
  unfolding scan step
  scan_next parts cur rest h = ground arith

  scan-written :
      (parts before : List Bytes) (rest : Bytes)
      → Fills is_full before parts
      → scan is_full (record { parts = before; cur = []; escaped = false }) (written parts rest)
        ≡ header (before ++ parts) rest
  unfolding written
  scan-written [] before rest f = absurd f
  scan-written (p ∷ []) before rest f =
      scan-escape_part p before [] (b'|' ∷ rest) ∙ scan_last before p rest f
  scan-written (p ∷ q ∷ parts) before rest f =
      scan-escape_part p before [] (b'|' ∷ written (q ∷ parts) rest)
      ∙ scan_next before p _ f.0
      ∙ scan-written (q ∷ parts) (before ++ (p ∷ [])) rest f.1
      ∙ rw append_assoc refl

-- Any seven header fields of a CEF event, written with their separators and backslashes escaped,
-- come back as they were, with the extension behind them.
pub split_cef_header-written :
    (version vendor product device class name severity extension : Bytes)
    → split_cef_header
        (written (version ∷ vendor ∷ product ∷ device ∷ class ∷ name ∷ severity ∷ []) extension)
      ≡ some ((version ∷ vendor ∷ product ∷ device ∷ class ∷ name ∷ severity ∷ []), extension)
unfolding split_cef_header
split_cef_header-written version vendor product device class name severity extension =
    ap cef_result (
      scan-written cef_full (version ∷ vendor ∷ product ∷ device ∷ class ∷ name ∷ severity ∷ []) []
        extension (unfold cef_full in (refl, (refl, (refl, (refl, (refl, (refl, refl))))))))

-- The five fields of a LEEF header whose first one starts with `LEEF:1.0`, written with their
-- separators and backslashes escaped, come back as they were, with the attributes behind them.
pub split_leef_header-written_v1 :
    (version vendor product release event attributes : Bytes)
    → has_prefix version (codes "LEEF:1.0") ≡ true
    → split_leef_header (written (version ∷ vendor ∷ product ∷ release ∷ event ∷ []) attributes)
      ≡ some ((version ∷ vendor ∷ product ∷ release ∷ event ∷ []), attributes)
unfolding split_leef_header
split_leef_header-written_v1 version vendor product release event attributes h = ap leef_result (
    scan-written leef_full (version ∷ vendor ∷ product ∷ release ∷ event ∷ []) [] attributes
      (unfold leef_full first_has in rw h (refl, (refl, (refl, (refl, refl))))))
