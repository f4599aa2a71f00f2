-- ===== src/Tests/Decode.antt =====
-- Headers, values and decoders.
use worm.Base.{count_where, ltb, ℕ, List, [], ◌∷◌, ◌≡◌, refl, Bytes, codes, map}
use worm.Store.Action.{ok}
use worm.Decode.Values.{unescape_leef_value, split_with_escapes}
use worm.Decode.Values.Leef.{IsPlain, joined, split_with_escapes-joined}
use worm.Decode.Detect.{Decoder, detect_ranked}
use worm.Decode.Detect.Ranked.{detect_ranked-IsRanked, IsRanked}

abbrev cef_parts : List Bytes
cef_parts =
    codes "CEF:0" ∷ codes "a|b" ∷ codes "p" ∷ codes "1" ∷ codes "c\\" ∷ codes "n" ∷ codes "5" ∷ []

caret_IsPlain : IsPlain b'^'
caret_IsPlain = record { not_backslash = refl; not_t = refl; not_n = refl; not_r = refl }

split_with_escapes-joined_example :
    map
      (λ t. unescape_leef_value t b'^')
      (split_with_escapes (joined b'^' (codes "a=^") (codes "b=\\" ∷ [])) b'^')
    ≡ codes "a=^" ∷ codes "b=\\" ∷ []
split_with_escapes-joined_example =
    split_with_escapes-joined b'^' caret_IsPlain (codes "a=^") (codes "b=\\") []

abbrev claims : Bytes → ℕ → Decoder
claims name confidence = record { name = name; detect = λ raw. confidence; decode = λ raw. ok [] }

abbrev registry : List Decoder
registry = claims (codes "text") 50 ∷ claims (codes "csv") 40 ∷ claims (codes "json") 95 ∷ []

detect_ranked-IsRanked_example :
    (count_where (λ c. ltb 50 c.confidence) (detect_ranked registry (codes "m")) ≡ 1)
    × IsRanked (detect_ranked registry (codes "m"))
unfolding count_where
detect_ranked-IsRanked_example =
    detect_ranked-IsRanked registry (codes "m") (λ c. ltb 50 c.confidence)
