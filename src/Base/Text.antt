-- ===== src/Base/Text.antt =====
-- Numbers and space in the text of a Go string.
use Prim.Native.Nat.{ℕ, ◌+◌, ◌*◌, ◌-◌}
use mathlib.Core.Bool.{Bool, true, false, ◌&&◌, ◌||◌}
use mathlib.Core.List.{[], ◌∷◌}
use mathlib.Core.Option.{Option, none, some}
use worm.Base.Tests.{leb, ◌==◌, if◌then◌else◌}
use worm.Base.Lists.{Bytes}

abbrev pub is_digit : ℕ → Bool
is_digit c = leb b'0' c && leb c b'9'

unfoldable pub digits : ℕ → Bytes → Option ℕ
digits n [] = some n
digits n (c ∷ s) = elim (is_digit c) [ true ↦ digits (n * 10 + (c - 48)) s | false ↦ none ]

-- `strconv.Atoi` of a text with no sign.
unfoldable pub atoi : Bytes → Option ℕ
unfolding digits
atoi [] = none
atoi (c ∷ s) = digits 0 (c ∷ s)

-- The text is one character that `unicode.IsSpace` takes, in UTF-8.
abbrev pub is_space_rune : Bytes → Bool
is_space_rune (a ∷ []) = leb 9 a && leb a 13 || a == b' '
is_space_rune (a ∷ b ∷ []) = a == 194 && (b == 133 || b == 160)
is_space_rune (a ∷ b ∷ c ∷ []) =
    a == 225 && b == 154 && c == 128
    || a == 226 && b == 128 && (leb 128 c && leb c 138 || c == 168 || c == 169 || c == 175)
    || a == 226 && b == 129 && c == 159
    || a == 227 && b == 128 && c == 128
is_space_rune _ = false

abbrev pub drop_space : ℕ → Bytes → Bytes
drop_space c s = if is_space_rune (c ∷ s) then [] else c ∷ s

-- `strings.TrimSpace` of a text that begins with no space.
unfoldable pub trim_space_right : Bytes → Bytes
trim_space_right [] = []
trim_space_right (c ∷ s) = drop_space c (trim_space_right s)

abbrev pub drop_newline : ℕ → Bytes → Bytes
drop_newline c [] = if c == b'\r' || c == b'\n' then [] else c ∷ []
drop_newline c (d ∷ s) = c ∷ d ∷ s

-- `bytes.TrimRight(s, "\r\n")`
unfoldable pub trim_newlines : Bytes → Bytes
trim_newlines [] = []
trim_newlines (c ∷ s) = drop_newline c (trim_newlines s)
