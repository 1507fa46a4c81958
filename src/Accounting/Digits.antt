-- ===== src/Accounting/Digits.antt =====
-- The digit strings that `print`, `pad` and the trimming in `String` make (decimal.go).
use trading_bot.Base.{
  ℕ, zero, suc, ◌+◌, ◌-◌, ◌*◌, ◌/◌, ◌%◌, ◌≤◌, ◌<◌, ◌≡◌, refl, Bool, true, false, List, [], ◌∷◌,
  ◌++◌, Bool-cases, inl, inr, ==_iff, ap, ◌&&◌, if◌then◌else◌, arith, length, replicate, is_nil,
  all, any, trim_right, ◌==◌,
}
use trading_bot.Accounting.Text.{is_digit, byte_length, eval, print, pad, split}

abbrev pub is_zero_char : ℕ → Bool
is_zero_char c = c == b'0'

abbrev pub is_point : ℕ → Bool
is_point c = c == b'.'

-- The digits of a number below its fuel read back as the number, whatever digits follow.
pub eval-print : (fuel n : ℕ) (acc : List ℕ) → n < fuel → eval 0 (print fuel n acc) ≡ eval n acc
unfolding eval print
eval-print zero n acc h = absurd (omega arith)
eval-print (suc fuel) n acc h = ground (arith, eval-print fuel (n / 10) ((b'0' + n % 10) ∷ acc))

pub print-digits :
    (fuel n : ℕ) (acc : List ℕ) → all is_digit acc ≡ true → all is_digit (print fuel n acc) ≡ true
unfolding print
print-digits zero n acc h = h
print-digits (suc fuel) n acc h = ground (arith, print-digits fuel (n / 10) ((b'0' + n % 10) ∷ acc))

pub eval-pad : (k : ℕ) (s : List ℕ) → eval 0 (pad k s) ≡ eval 0 s
unfolding eval pad
eval-pad zero s = refl
eval-pad (suc k) s = rw (eval-pad k (b'0' ∷ s))

pub pad-digits : (k : ℕ) (s : List ℕ) → all is_digit s ≡ true → all is_digit (pad k s) ≡ true
unfolding pad
pad-digits zero s h = h
pad-digits (suc k) s h = pad-digits k (b'0' ∷ s) h

pub length-pad : (k : ℕ) (s : List ℕ) → length (pad k s) ≡ k + length s
unfolding pad
length-pad zero s = omega arith
length-pad (suc k) s = omega (arith, length-pad k (b'0' ∷ s))

pub eval-append : (a : ℕ) (xs ys : List ℕ) → eval a (xs ++ ys) ≡ eval (eval a xs) ys
unfolding eval
eval-append a [] ys = refl
eval-append a (x ∷ xs) ys = eval-append (a * 10 + (x - b'0')) xs ys

pub byte_length-digits : (s : List ℕ) → all is_digit s ≡ true → byte_length s ≡ length s
byte_length-digits [] h = refl
byte_length-digits (c ∷ s) h = ground (arith, byte_length-digits s)

pub length-trim : (s : List ℕ) → length (trim_right is_zero_char s) ≤ length s
unfolding trim_right
length-trim [] = omega arith
length-trim (c ∷ s) = ground (arith, length-trim s)

pub trim-digits :
    (p : ℕ → Bool) (s : List ℕ) → all is_digit s ≡ true → all is_digit (trim_right p s) ≡ true
unfolding trim_right
trim-digits p [] h = refl
trim-digits p (c ∷ s) h = ground (arith, trim-digits p s)

trim-step :
    (c : ℕ) (s t : List ℕ)
    → t ++ replicate (length s - length t) b'0' ≡ s
    → let u = if is_zero_char c && is_nil t then [] else c ∷ t in
      u ++ replicate (suc (length s) - length u) b'0' ≡ c ∷ s
trim-step c s [] h =
    let n : suc (length s) - 0 ≡ suc (length s - 0) = omega arith in
    let m : suc (length s) - 1 ≡ length s - 0 = omega arith in
    elim (Bool-cases (is_zero_char c)) [
      | inl z ↦ rw (z, n) (ground (arith, ==_iff c b'0'))
      | inr z ↦ rw (z, m) (rw h)
    ]
trim-step c s (x ∷ t) h =
    let m : suc (length s) - suc (suc (length t)) ≡ length s - suc (length t) = omega arith in
    elim (Bool-cases (is_zero_char c)) [
      | inl z ↦ rw (z, m) (ap (λ l. c ∷ l) h)
      | inr z ↦ rw (z, m) (ap (λ l. c ∷ l) h)
    ]

-- The zeros that were trimmed are what `Parse` appends again.
pub trim-restore :
    (s : List ℕ)
    → trim_right is_zero_char s ++ replicate (length s - length (trim_right is_zero_char s)) b'0'
      ≡ s
unfolding trim_right
trim-restore [] = refl
trim-restore (c ∷ s) = trim-step c s (trim_right is_zero_char s) (trim-restore s)

pub digits-no_point : (s : List ℕ) → all is_digit s ≡ true → any is_point s ≡ false
digits-no_point [] h = refl
digits-no_point (c ∷ s) h = ground (arith, digits-no_point s)

pub split-none : (s : List ℕ) → any is_point s ≡ false → split b'.' s ≡ s ∷ []
unfolding split
split-none [] h = refl
split-none (c ∷ s) h = ground (arith, split-none s)

pub split-point :
    (s t : List ℕ) → any is_point s ≡ false → split b'.' (s ++ b'.' ∷ t) ≡ s ∷ split b'.' t
unfolding split
split-point [] t h = refl
split-point (c ∷ s) t h = ground (arith, split-point s t)
