-- ===== src/Decode/Syslog/Detect.antt =====
-- `Detect` of internal/decode/syslog.go. A confidence is kept in hundredths; strconv.Atoi is a
-- parameter.
pub mod Agrees
use worm.Base.{
  ℕ, Bool, true, false, ◌&&◌, ◌||◌, List, [], ◌∷◌, Option, none, some, Bytes, codes, ◌==◌, leb, ltb,
  length, drop, has_prefix, ℤ, pos, negsuc, if◌then◌else◌,
}
use worm.Decode.Syslog.Tokens.{span, space}
use worm.Decode.Syslog.Message.{cut}

abbrev months : List Bytes
months =
    codes "Jan"
    ∷ codes "Feb"
    ∷ codes "Mar"
    ∷ codes "Apr"
    ∷ codes "May"
    ∷ codes "Jun"
    ∷ codes "Jul"
    ∷ codes "Aug"
    ∷ codes "Sep"
    ∷ codes "Oct"
    ∷ codes "Nov"
    ∷ codes "Dec"
    ∷ []

starts_with_one : List Bytes → Bytes → Bool
starts_with_one [] s = false
starts_with_one (p ∷ ps) s = has_prefix s p || starts_with_one ps s

unfoldable pub variant_confidence : Bytes → ℕ
unfolding starts_with_one
variant_confidence rest =
    if ltb 2 (length rest) && has_prefix rest (codes "1 ")
    then 98
    else if starts_with_one months rest
    then 95
    else 85

module _ (atoi : Bytes → Option ℤ) where
  unfoldable pub number_confidence : Bytes → Option ℤ → ℕ
  unfolding variant_confidence
  number_confidence rest none = 0
  number_confidence rest (some (negsuc n)) = 0
  number_confidence rest (some (pos n)) = if leb n 191 then variant_confidence rest else 0

  unfoldable pub tag_confidence : Option (Bytes × Bytes) → ℕ
  unfolding number_confidence
  tag_confidence none = 0
  tag_confidence (some (front, rest)) =
      if ltb (length front) 2 || ltb 5 (length front)
      then 0
      else number_confidence rest (atoi (drop 1 front))

  unfoldable pub start_confidence : Bytes → ℕ
  unfolding tag_confidence
  start_confidence [] = 0
  start_confidence (c ∷ s) = if c == b'<' then tag_confidence (cut (codes ">") (c ∷ s)) else 0

  -- The text less the spaces in front of it.
  unfoldable pub trimmed_confidence : Bytes → ℕ
  unfolding start_confidence
  trimmed_confidence s = if ltb (length s) 4 then 0 else start_confidence s

  unfoldable pub syslog_detect : Bytes → ℕ
  unfolding trimmed_confidence
  syslog_detect raw = trimmed_confidence (span space raw).1
