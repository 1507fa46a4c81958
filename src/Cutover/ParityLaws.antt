-- ===== src/Cutover/ParityLaws.antt =====
-- What holds of the comparisons of internal/cutover/parity.go.
use trading_bot.Base.{
  ℕ, ◌≡◌, refl, ap, ◌∙◌, true, false, List, [], ◌∷◌, String, eq_refl, inl, inr, Bool-cases, arith,
}
use trading_bot.Base.{codes}
use trading_bot.Base.{lex}
use trading_bot.Cutover.Parity.{insert, sort, same_texts}

lex_total : (s t : List ℕ) → lex s t ≡ false → lex t s ≡ true
lex_total [] t h = ground arith
lex_total (c ∷ s) [] h = refl
lex_total (c ∷ s) (d ∷ t) h = (let ih = lex_total s t in ground arith)

-- Every text is at most the next one.
abbrev IsSorted : List String → Type 0
IsSorted [] = Unit
IsSorted (x ∷ []) = Unit
IsSorted (x ∷ y ∷ ys) = (lex (codes x) (codes y) ≡ true) × IsSorted (y ∷ ys)

IsSorted-tail : (x : String) (xs : List String) → IsSorted (x ∷ xs) → IsSorted xs
IsSorted-tail x [] h = tt
IsSorted-tail x (y ∷ ys) h = h.1

insert_below :
    (x y : String) (ys : List String)
    → lex (codes y) (codes x) ≡ true
    → IsSorted (y ∷ ys)
    → IsSorted (insert x ys)
    → IsSorted (y ∷ insert x ys)
insert_below x y [] l h k = (l, tt)
insert_below x y (z ∷ zs) l h k = elim (Bool-cases (lex (codes x) (codes z))) [
  | inl p ↦ rw (p) (l, rw (p) at k)
  | inr p ↦ rw (p) (h.0, rw (p) at k)
]

insert-IsSorted : (x : String) (ys : List String) → IsSorted ys → IsSorted (insert x ys)
insert-IsSorted x [] h = tt
insert-IsSorted x (y ∷ ys) h = elim (Bool-cases (lex (codes x) (codes y))) [
  | inl p ↦ rw (p) (p, h)
  | inr p ↦ rw (p) (
      insert_below x y ys (lex_total (codes x) (codes y) p) h
        (insert-IsSorted x ys (IsSorted-tail y ys h)))
]

sort-IsSorted : (xs : List String) → IsSorted (sort xs)
unfolding sort
sort-IsSorted [] = tt
sort-IsSorted (x ∷ xs) = insert-IsSorted x (sort xs) (sort-IsSorted xs)

IsSorted-sort : (xs : List String) → IsSorted xs → sort xs ≡ xs
unfolding sort
IsSorted-sort [] h = refl
IsSorted-sort (x ∷ []) h = refl
IsSorted-sort (x ∷ y ∷ ys) h = ap (insert x) (IsSorted-sort (y ∷ ys) h.1) ∙ rw (h.0) refl

pub sort-sort : (xs : List String) → sort (sort xs) ≡ sort xs
sort-sort xs = IsSorted-sort (sort xs) (sort-IsSorted xs)

pub same_texts_refl : (xs : List String) → same_texts xs xs ≡ true
same_texts_refl [] = refl
same_texts_refl (x ∷ xs) = rw (eq_refl x, same_texts_refl xs) refl
