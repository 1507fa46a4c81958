-- ===== src/Accounting/RoundTrip.antt =====
-- `Parse` reads back what `String` prints (decimal.go).
use trading_bot.Base.{
  is_space, trim_space, length-drop, take-drop, all-append, trim_right-append, trim_right-drop, ℕ,
  zero, suc, ◌-◌, ◌≤◌, ◌<◌, ◌≡◌, refl, Bool, true, false, not, ◌&&◌, ◌||◌, List, [], ◌∷◌, ◌++◌,
  if◌then◌else◌, arith, length, take, drop, is_nil, all, any, trim_left, trim_right, ◌==◌, ℤ, pos,
  negsuc, neg, is_neg, magnitude, Bool-cases, inl, inr, ap, sym, ◌∙◌, trim_left_none,
  trim_right_none, ==_iff, take-drop,
}
use mathlib.Core.List.{append-nil, append_assoc}
use trading_bot.Accounting.Decimal
use trading_bot.Accounting.Decimal.{Decimal, units, integer}
use trading_bot.Accounting.Text.{
  ok, is_digit, split, eval, read_digits, read_parts, signed_body, parse, print, pad, trim_fraction,
  is_zero_text, to_string,
}
use trading_bot.Accounting.Digits.{
  is_zero_char, is_point, eval-print, print-digits, eval-pad, pad-digits, length-pad,
  byte_length-digits, length-trim, trim-digits, trim-restore, digits-no_point, split-none,
  split-point,
}

-- The point and the digits after it, if any are left.
abbrev fraction_text : List ℕ → List ℕ
fraction_text [] = []
fraction_text (c ∷ s) = b'.' ∷ c ∷ s

abbrev plain_char : ℕ → Bool
plain_char c = is_digit c || c == b'.' || c == b'-'

nil-append : (xs ys : List ℕ) → is_nil ys ≡ false → is_nil (xs ++ ys) ≡ false
nil-append [] ys h = h
nil-append (x ∷ xs) ys h = refl

trim_right-kept :
    (p : ℕ → Bool) (xs ys : List ℕ)
    → trim_right p ys ≡ ys
    → is_nil ys ≡ false
    → trim_right p (xs ++ ys) ≡ xs ++ ys
unfolding trim_right
trim_right-kept p [] ys h n = h
trim_right-kept p (x ∷ xs) ys h n =
    rw (trim_right-kept p xs ys h n) (ground (arith, nil-append xs ys))

points_kept :
    (whole : List ℕ) (c : ℕ) (rest : List ℕ)
    → all is_digit (c ∷ rest) ≡ true
    → trim_right is_point (whole ++ b'.' ∷ c ∷ rest) ≡ whole ++ b'.' ∷ c ∷ rest
unfolding trim_right
points_kept whole c rest k =
    let n = trim_right_none is_point (c ∷ rest) (digits-no_point (c ∷ rest) k) in
    trim_right-kept is_point whole (b'.' ∷ c ∷ rest) (rw n) refl

trim_points-fraction :
    (whole rest : List ℕ)
    → all is_digit whole ≡ true
    → all is_digit rest ≡ true
    → trim_right is_point (whole ++ b'.' ∷ rest) ≡ whole ++ fraction_text rest
trim_points-fraction whole [] h k =
    trim_right-drop is_point whole (b'.' ∷ []) refl
    ∙ trim_right_none is_point whole (digits-no_point whole h)
    ∙ sym (append-nil whole)
trim_points-fraction whole (c ∷ rest) h k = points_kept whole c rest k

trim_fraction_lem :
    (w : ℕ) (whole fraction : List ℕ)
    → all is_digit (w ∷ whole) ≡ true
    → all is_digit fraction ≡ true
    → trim_fraction (w ∷ whole ++ b'.' ∷ fraction)
      ≡ w ∷ whole ++ fraction_text (trim_right is_zero_char fraction)
unfolding trim_fraction
trim_fraction_lem w whole fraction h k =
    rw (trim_right-append is_zero_char (w ∷ whole) fraction b'.' refl) (
      rw (
        trim_points-fraction (w ∷ whole) (trim_right is_zero_char fraction) h
          (trim-digits is_zero_char fraction k)))

plain-digits : (s : List ℕ) → all is_digit s ≡ true → all plain_char s ≡ true
plain-digits [] h = refl
plain-digits (c ∷ s) h = ground (arith, plain-digits s)

plain-text :
    (whole rest : List ℕ)
    → all is_digit whole ≡ true
    → all is_digit rest ≡ true
    → all plain_char (whole ++ fraction_text rest) ≡ true
plain-text [] [] h k = refl
plain-text [] (c ∷ rest) h k = plain-digits (c ∷ rest) k
plain-text (w ∷ whole) rest h k = ground (arith, plain-text whole rest)

plain-no_space : (s : List ℕ) → all plain_char s ≡ true → any is_space s ≡ false
unfolding is_space
plain-no_space [] h = refl
plain-no_space (c ∷ s) h = ground (arith, plain-no_space s)

abbrev is_exponent : ℕ → Bool
is_exponent c = c == b'e' || c == b'E'

plain-no_exponent : (s : List ℕ) → all plain_char s ≡ true → any is_exponent s ≡ false
plain-no_exponent [] h = refl
plain-no_exponent (c ∷ s) h = ground (arith, plain-no_exponent s)

trim_space-plain : (s : List ℕ) → all plain_char s ≡ true → trim_space s ≡ s
unfolding trim_space
trim_space-plain s h =
    let n = plain-no_space s h in rw (trim_left_none is_space s n) (trim_right_none is_space s n)

-- The digits before the point, and those after it without their trailing zeros, give the number.
read_digits_lem :
    (negative : Bool) (whole fraction : List ℕ)
    → all is_digit whole ≡ true
    → all is_digit fraction ≡ true
    → length fraction ≡ Decimal.scale
    → read_digits negative whole (trim_right is_zero_char fraction) ≡ (
        let value = pos (eval 0 (whole ++ fraction)) in
        ok (units (if negative then neg value else value)))
unfolding read_digits
read_digits_lem negative whole fraction h k n =
    let t = trim-digits is_zero_char fraction k in
    let b = byte_length-digits (trim_right is_zero_char fraction) t in
    rw b (
      rw (← n) (
        rw (append_assoc whole, trim-restore fraction, all-append is_digit whole fraction, h, k)
          (ground (arith, length-trim fraction))))

-- What `parse` makes of a sign, the digits before the point and the fraction's text.
read_parts_lem :
    (negative : Bool) (w : ℕ) (whole rest : List ℕ)
    → all is_digit (w ∷ whole) ≡ true
    → all is_digit rest ≡ true
    → read_parts negative (split b'.' (w ∷ whole ++ fraction_text rest))
      ≡ read_digits negative (w ∷ whole) rest
unfolding read_parts
read_parts_lem negative w whole [] h k =
    ap (λ s. read_parts negative (split b'.' s)) (append-nil (w ∷ whole))
    ∙ ap (read_parts negative) (split-none (w ∷ whole) (digits-no_point (w ∷ whole) h))
read_parts_lem negative w whole (c ∷ rest) h k = rw (
  split-point (w ∷ whole) (c ∷ rest) (digits-no_point (w ∷ whole) h),
  split-none (c ∷ rest) (digits-no_point (c ∷ rest) k),
)

signed_body-digit : (w : ℕ) (s : List ℕ) → is_digit w ≡ true → signed_body (w ∷ s) ≡ (false, w ∷ s)
unfolding signed_body
signed_body-digit w s h = ground arith

-- The text of a number without and with a minus sign.
module _ (w : ℕ) (whole fraction : List ℕ) (digits : all is_digit (w ∷ whole) ≡ true)
    (places : all is_digit fraction ≡ true) (places_length : length fraction ≡ Decimal.scale) where
  abbrev body : List ℕ
  body = w ∷ whole ++ fraction_text (trim_right is_zero_char fraction)

  abbrev number : ℤ
  number = pos (eval 0 (w ∷ whole ++ fraction))

  trimmed : all is_digit (trim_right is_zero_char fraction) ≡ true
  trimmed = trim-digits is_zero_char fraction places

  body-plain : all plain_char body ≡ true
  body-plain = plain-text (w ∷ whole) (trim_right is_zero_char fraction) digits trimmed

  first_digit : is_digit w ≡ true
  first_digit = ground arith

  parse-body : parse body ≡ ok (units number)
  unfolding parse
  parse-body = rw (
    trim_space-plain body body-plain,
    plain-no_exponent body body-plain,
    signed_body-digit w (whole ++ fraction_text (trim_right is_zero_char fraction)) first_digit,
    read_parts_lem false w whole (trim_right is_zero_char fraction) digits trimmed,
    read_digits_lem false (w ∷ whole) fraction digits places places_length,
  )

  parse-minus : parse (b'-' ∷ body) ≡ ok (units (neg number))
  unfolding parse signed_body
  parse-minus = rw (
    trim_space-plain (b'-' ∷ body) body-plain,
    plain-no_exponent (b'-' ∷ body) body-plain,
    read_parts_lem true w whole (trim_right is_zero_char fraction) digits trimmed,
    read_digits_lem true (w ∷ whole) fraction digits places places_length,
  )

-- What `to_string` cuts the padded digits into.
padded : ℕ → List ℕ
padded m = let plain = print (suc m) m [] in pad (suc Decimal.scale - length plain) plain

length-padded : (m : ℕ) → suc Decimal.scale ≤ length (padded m)
unfolding padded
length-padded m =
    omega (arith, length-pad (suc Decimal.scale - length (print (suc m) m [])) (print (suc m) m []))

padded-digits : (m : ℕ) → all is_digit (padded m) ≡ true
unfolding padded
padded-digits m =
    pad-digits (suc Decimal.scale - length (print (suc m) m [])) (print (suc m) m [])
      (print-digits (suc m) m [] refl)

eval-padded : (m : ℕ) → eval 0 (padded m) ≡ m
unfolding padded
eval-padded m =
    eval-pad (suc Decimal.scale - length (print (suc m) m [])) (print (suc m) m [])
    ∙ eval-print (suc m) m [] (omega arith)
    ∙ (unfold eval in refl)

-- The digits before the point: at least one.
cut :
    (s : List ℕ)
    → suc Decimal.scale ≤ length s
    → (w : ℕ) × (whole : List ℕ) × (take (length s - Decimal.scale) s ≡ w ∷ whole)
cut s h = go (length s - Decimal.scale) s (omega arith) (omega arith)
  where
    go :
        (n : ℕ) (t : List ℕ)
        → 0 < n
        → 0 < length t
        → (w : ℕ) × (whole : List ℕ) × (take n t ≡ w ∷ whole)
    go zero t p q = absurd (omega arith)
    go (suc n) [] p q = absurd (omega arith)
    go (suc n) (x ∷ t) p q = (x, take n t, refl)

zero_text : (s : List ℕ) → is_zero_text s ≡ true → s ≡ b'0' ∷ []
unfolding is_zero_text
zero_text [] h = cc
zero_text (c ∷ []) h = ground (arith, ==_iff c b'0')
zero_text (c ∷ x ∷ s) h = cc

parse-zero_text : parse (b'0' ∷ []) ≡ ok (units (pos 0))
unfolding parse trim_space read_parts read_digits signed_body split eval trim_left trim_right
parse-zero_text = refl

ok-injective : {d e : Decimal} → ok d ≡ ok e → d ≡ e
ok-injective h = cc

-- The text of a number that is not 0 is not "0".
not_zero_text : (s : List ℕ) (n : ℕ) → parse s ≡ ok (units (pos (suc n))) → is_zero_text s ≡ false
not_zero_text s n h = elim (Bool-cases (is_zero_text s)) [
  | inl z ↦ absurd (cc (rw (zero_text s z) at h, parse-zero_text))
  | inr z ↦ z
]

neg-suc : (n : ℕ) → neg (pos (suc n)) ≡ negsuc n
unfolding neg
neg-suc n = ground arith

print_signed :
    (z : ℤ) (m : ℕ) (s : List ℕ)
    → magnitude z ≡ m
    → parse s ≡ ok (units (pos m))
    → parse (b'-' ∷ s) ≡ ok (units (neg (pos m)))
    → parse (if is_neg z && not (is_zero_text s) then b'-' ∷ s else s) ≡ ok (units z)
print_signed (pos n) m s e h k = let f : m ≡ n = omega arith in rw f at h
print_signed (negsuc n) m s e h k =
    let f : m ≡ suc n = omega arith in rw (not_zero_text s n (rw f at h)) (rw (f, neg-suc n) at k)

abbrev text_of : List ℕ → List ℕ
text_of digits =
    let point = length digits - Decimal.scale in
    trim_fraction (take point digits ++ b'.' ∷ drop point digits)

to_string_lem :
    (d : Decimal)
    → to_string d ≡ (
        let s = text_of (padded (magnitude (integer d))) in
        if is_neg (integer d) && not (is_zero_text s) then b'-' ∷ s else s)
unfolding to_string padded
to_string_lem d = refl

abbrev Reads : List ℕ → ℕ → Type 0
Reads s m = (parse s ≡ ok (units (pos m))) × (parse (b'-' ∷ s) ≡ ok (units (neg (pos m))))

parts-Reads :
    (t fraction : List ℕ) (w : ℕ) (whole : List ℕ)
    → t ≡ w ∷ whole
    → all is_digit t ≡ true
    → all is_digit fraction ≡ true
    → length fraction ≡ Decimal.scale
    → Reads (trim_fraction (t ++ b'.' ∷ fraction)) (eval 0 (t ++ fraction))
parts-Reads t fraction w whole e digits places n =
    let digits' : all is_digit (w ∷ whole) ≡ true = rw e at digits in
    rw e (
      rw (trim_fraction_lem w whole fraction digits' places) (
        parse-body w whole fraction digits' places n,
        parse-minus w whole fraction digits' places n,
      ))

-- The digits of a number, with the point put in and the zeros after it trimmed, read as it.
text_of-Reads :
    (s : List ℕ)
    → suc Decimal.scale ≤ length s
    → all is_digit s ≡ true
    → Reads (text_of s) (eval 0 s)
text_of-Reads s h k =
    let point = length s - Decimal.scale in
    let both = take-drop point s in
    let split_digits =
      sym (all-append is_digit (take point s) (drop point s)) ∙ ap (all is_digit) both ∙ k in
    let (w, whole, e) = cut s h in
    rw both at (
      parts-Reads (take point s) (drop point s) w whole e (ground arith) (ground arith)
        (omega (arith, length-drop point s)))

-- `Parse` gives back the number that `String` printed, for every Decimal; one whose value is nil
-- prints as 0.
pub parse-to_string : (d : Decimal) → parse (to_string d) ≡ ok (units (integer d))
parse-to_string d =
    let m = magnitude (integer d) in
    let r = text_of-Reads (padded m) (length-padded m) (padded-digits m) in
    rw (to_string_lem d) (
      print_signed (integer d) m (text_of (padded m)) refl (rw (eval-padded m) at r.0)
        (rw (eval-padded m) at r.1))
