-- ===== src/Base/Text.antt =====
-- Texts, and what the program uses of package strings. A Go string is a native String; its
-- characters are `codes`. Case folding is that of ASCII letters.
use Prim.Native.Nat.{ℕ, zero, suc, ◌+◌, ◌-◌}
use Prim.Native.Char.{Char, code}
use Prim.Native.String.{String}
use mathlib.Core.Bool.{Bool, true, false, not, ◌&&◌, ◌||◌}
use mathlib.Core.List.{List, [], ◌∷◌, map}
use text.Mathlib.Text.{◌==◌ as str_eq}
use trading_bot.Base.Tests.{ltb, leb, ◌==◌, if◌then◌else◌}
use trading_bot.Base.Lists.{trim_left, trim_right, is_nil}

abbrev pub codes : String → List ℕ
codes String.[] = []
codes (String.◌∷◌ c s) = code c ∷ codes s

-- unicode.IsSpace
unfoldable pub is_space : ℕ → Bool
is_space c =
    (leb 9 c && leb c 13)
    || (c == 32 || c == 0x85 || c == 0xA0 || c == 0x1680)
    || (leb 0x2000 c && leb c 0x200A)
    || (c == 0x2028 || c == 0x2029 || c == 0x202F || c == 0x205F || c == 0x3000)

-- strings.TrimSpace
unfoldable pub trim_space : List ℕ → List ℕ
unfolding is_space
trim_space s = trim_right is_space (trim_left is_space s)

-- `strings.TrimSpace(s) == ""`
unfoldable pub is_blank : String → Bool
unfolding trim_space trim_left trim_right
is_blank s = is_nil (trim_space (codes s))

abbrev pub lower : ℕ → ℕ
lower c = if leb b'A' c && leb c b'Z' then c + 32 else c

abbrev pub same_codes : List ℕ → List ℕ → Bool
same_codes [] [] = true
same_codes (c ∷ s) (d ∷ t) = (c == d) && same_codes s t
same_codes _ _ = false

-- strings.EqualFold
unfoldable pub equal_fold : String → String → Bool
equal_fold s t = same_codes (map lower (codes s)) (map lower (codes t))

-- `s == t` and `s == ""` on strings.
abbrev pub is_empty : String → Bool
is_empty s = str_eq s ""

abbrev pub chars : String → List Char
chars String.[] = []
chars (String.◌∷◌ c s) = c ∷ chars s

abbrev pub text_of : List Char → String
text_of [] = String.[]
text_of (c ∷ cs) = String.◌∷◌ c (text_of cs)

-- The character at a place of a text, or the given one past its end.
abbrev char_or : Char → ℕ → String → Char
char_or d n String.[] = d
char_or d zero (String.◌∷◌ c s) = c
char_or d (suc n) (String.◌∷◌ c s) = char_or d n s

abbrev lower_char : Char → Char
lower_char c =
    if leb b'A' (code c) && leb (code c) b'Z'
    then char_or c (code c - b'A') "abcdefghijklmnopqrstuvwxyz"
    else c

-- `strings.TrimSpace` and `strings.ToLower` on a text.
unfoldable pub trim_text : String → String
unfolding trim_left trim_right is_space
trim_text s =
    text_of (trim_right (λ c. is_space (code c)) (trim_left (λ c. is_space (code c)) (chars s)))

unfoldable pub lower_text : String → String
lower_text s = text_of (map lower_char (chars s))

-- The order of strings, by their characters: not after.
abbrev pub lex : List ℕ → List ℕ → Bool
lex [] t = true
lex (c ∷ s) [] = false
lex (c ∷ s) (d ∷ t) = ltb c d || (c == d && lex s t)

-- `s < t`
abbrev pub less_text : String → String → Bool
less_text s t = not (lex (codes t) (codes s))
