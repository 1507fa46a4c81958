-- ===== src/Accounting/Text.antt =====
-- `Parse` and `String` of internal/accounting/decimal.go, on texts as lists of code points.
-- Go's `len` counts the bytes of the UTF-8 encoding.
use trading_bot.Base.{
  zero, suc, ℕ, ◌+◌, Bool, if◌then◌else◌, List, ◌∷◌, is_nil, leb, suc, trim_right, ltb, false, ◌%◌,
  ◌*◌, ◌++◌, ◌||◌, ◌==◌, ◌&&◌, ◌-◌, magnitude, replicate, any, ◌/◌, true, [], all, length, pos,
  take, neg, drop, is_neg, not, trim_space,
}
use trading_bot.Accounting.Decimal
use trading_bot.Accounting.Decimal.{Decimal, units, integer, sign_of}

pub data ParseError : Type 0 where
  invalid scale_exceeded : ParseError

pub data Parsed : Type 0 where
  ok : Decimal → Parsed
  err : ParseError → Parsed

-- The bytes of a code point in UTF-8.
abbrev pub width : ℕ → ℕ
width c = if ltb c 0x80 then 1 else if ltb c 0x800 then 2 else if ltb c 0x10000 then 3 else 4

abbrev pub byte_length : List ℕ → ℕ
byte_length [] = 0
byte_length (c ∷ s) = width c + byte_length s

abbrev pub is_digit : ℕ → Bool
is_digit c = leb b'0' c && leb c b'9'

-- strings.Split: never the empty list.
abbrev pub attach : ℕ → List (List ℕ) → List (List ℕ)
attach c [] = (c ∷ []) ∷ []
attach c (part ∷ parts) = (c ∷ part) ∷ parts

unfoldable pub split : ℕ → List ℕ → List (List ℕ)
split sep [] = [] ∷ []
split sep (c ∷ s) = let rest = split sep s in if c == sep then [] ∷ rest else attach c rest

-- big.Int.SetString in base 10, on digits.
unfoldable pub eval : ℕ → List ℕ → ℕ
eval acc [] = acc
eval acc (c ∷ s) = eval (acc * 10 + (c - b'0')) s

-- The body of `Parse` after the sign, on the parts between the dots.
unfoldable pub read_digits : Bool → List ℕ → List ℕ → Parsed
read_digits negative whole fraction =
    let digits = whole ++ fraction ++ replicate (Decimal.scale - byte_length fraction) b'0' in
    let value = pos (eval 0 digits) in
    if ltb Decimal.scale (byte_length fraction)
    then err scale_exceeded
    else if all is_digit digits
    then ok (units (if negative then neg value else value))
    else err invalid

unfoldable pub read_parts : Bool → List (List ℕ) → Parsed
unfolding read_digits
read_parts negative ([] ∷ rest) = err invalid
read_parts negative (whole ∷ []) = read_digits negative whole []
read_parts negative (whole ∷ fraction ∷ []) = read_digits negative whole fraction
read_parts negative _ = err invalid

-- The optional sign: strings.HasPrefix with "-" and "+".
unfoldable pub signed_body : List ℕ → Bool × List ℕ
signed_body [] = (false, [])
signed_body (c ∷ s) =
    if c == b'-' then (true, s) else if c == b'+' then (false, s) else (false, c ∷ s)

unfoldable pub parse : List ℕ → Parsed
unfolding trim_space read_parts signed_body
parse text =
    let input = trim_space text in
    if is_nil input || any (λ c. c == b'e' || c == b'E') input
    then err invalid
    else let (negative, body) = signed_body input in read_parts negative (split b'.' body)

-- big.Int.String of a natural number; `n + 1` rounds are enough for `n`.
unfoldable pub print : ℕ → ℕ → List ℕ → List ℕ
print zero n acc = acc
print (suc fuel) n acc =
    let digits = (b'0' + n % 10) ∷ acc in
    let rest = print fuel (n / 10) digits in if ltb n 10 then digits else rest

-- `for len(digits) <= Scale { digits = "0" + digits }`, on the rounds left.
unfoldable pub pad : ℕ → List ℕ → List ℕ
pad zero digits = digits
pad (suc k) digits = pad k (b'0' ∷ digits)

-- The trailing zeros, then the point if nothing follows it.
unfoldable pub trim_fraction : List ℕ → List ℕ
trim_fraction dotted =
    let trimmed = trim_right (λ c. c == b'.') (trim_right (λ c. c == b'0') dotted) in
    if is_nil trimmed then b'0' ∷ [] else trimmed

unfoldable pub is_zero_text : List ℕ → Bool
is_zero_text (c ∷ []) = c == b'0'
is_zero_text _ = false

unfoldable pub to_string : Decimal → List ℕ
unfolding print pad trim_fraction is_zero_text
to_string d =
    let value = integer d in
    let plain = print (suc (magnitude value)) (magnitude value) [] in
    let digits = pad (suc Decimal.scale - length plain) plain in
    let point = length digits - Decimal.scale in
    let result = trim_fraction (take point digits ++ b'.' ∷ drop point digits) in
    if is_neg value && not (is_zero_text result) then b'-' ∷ result else result
