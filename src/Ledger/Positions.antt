-- ===== src/Ledger/Positions.antt =====
-- The positions table under a save and a create: lookups by symbol, keys and symbols.
use trading_bot.Base.{
  ℕ, suc, ◌≡◌, ◌≢◌, refl, true, false, Option, none, some, List, [], ◌∷◌, ◌++◌, String,
  if◌then◌else◌, str_eq, eq_iff, arith,
}
use trading_bot.Ledger.Error.{default_account_id}
use trading_bot.Ledger.Rows.{Position}
use trading_bot.Ledger.Store.{find_position, replace_position}
use trading_bot.Ledger.Books.{Apart, IsKeyed}

abbrev pub lookup : String → List Position → Option Position
lookup s ps = find_position default_account_id s ps

replace-Apart :
    (q p : Position) (ps : List Position) → q.id ≡ p.id → Apart p ps → replace_position q ps ≡ ps
replace-Apart q p [] e h = refl
replace-Apart q p (x ∷ xs) e h = ground (arith, replace-Apart q p xs e h.2)

pub lookup-Apart :
    (x p : Position) (s : String) (ps : List Position)
    → Apart x ps
    → lookup s ps ≡ some p
    → (p.id ≢ x.id) × (str_eq x.symbol p.symbol ≡ false)
lookup-Apart x p s [] h e = cc
lookup-Apart x p s (y ∷ ys) h e = ground (arith, lookup-Apart x p s ys h.2)

pub lookup-symbol :
    (p : Position) (s : String) (ps : List Position)
    → lookup s ps ≡ some p
    → (str_eq p.symbol s ≡ true) × (str_eq p.account_id default_account_id ≡ true)
lookup-symbol p s [] e = cc
lookup-symbol p s (x ∷ xs) e = ground (arith, lookup-symbol p s xs)

Apart-replace :
    (x q : Position) (ps : List Position)
    → Apart x ps
    → q.id ≢ x.id
    → str_eq x.symbol q.symbol ≡ false
    → Apart x (replace_position q ps)
Apart-replace x q [] h n m = tt
Apart-replace x q (y ∷ ys) h n m = ground (arith, Apart-replace x q ys h.2 n m)

Apart-same :
    (x q : Position) (ps : List Position)
    → q.id ≡ x.id
    → q.symbol ≡ x.symbol
    → Apart x ps
    → Apart q ps
Apart-same x q [] i s h = tt
Apart-same x q (y ∷ ys) i s h = (rw i h.0, rw s h.1, Apart-same x q ys i s h.2)

-- The row that a lookup found, saved with its key, symbol and account unchanged.
module _ (p q : Position) (id_same : q.id ≡ p.id) (symbol_same : q.symbol ≡ p.symbol)
    (account_same : q.account_id ≡ p.account_id) where
  pub lookup-replace :
      (bound : ℕ) (s t : String) (ps : List Position)
      → IsKeyed bound ps
      → lookup s ps ≡ some p
      → lookup t (replace_position q ps) ≡ (if str_eq s t then some q else lookup t ps)
  lookup-replace bound s t [] k e = cc
  lookup-replace bound s t (x ∷ xs) k e = ground (
    arith,
    lookup-Apart x p s xs k.2,
    lookup-replace bound s t xs k.3,
    replace-Apart q x xs,
    eq_iff x.symbol s,
    eq_iff x.symbol t,
    eq_iff q.symbol t,
    eq_iff s t,
  )

  pub IsKeyed-replace :
      (bound : ℕ) (s : String) (ps : List Position)
      → IsKeyed bound ps
      → lookup s ps ≡ some p
      → IsKeyed bound (replace_position q ps)
  IsKeyed-replace bound s [] k e = tt
  IsKeyed-replace bound s (x ∷ xs) k e = ground (
    arith,
    lookup-Apart x p s xs k.2,
    IsKeyed-replace bound s xs k.3,
    replace-Apart q x xs,
    Apart-same x q xs,
    Apart-replace x q xs k.2,
  )

pub lookup-append :
    (q : Position) (s t : String) (ps : List Position)
    → str_eq q.account_id default_account_id ≡ true
    → q.symbol ≡ s
    → lookup s ps ≡ none
    → lookup t (ps ++ q ∷ []) ≡ (if str_eq s t then some q else lookup t ps)
lookup-append q s t [] a n e = ground arith
lookup-append q s t (x ∷ xs) a n e =
    ground (arith, lookup-append q s t xs a n, eq_iff x.symbol s, eq_iff x.symbol t, eq_iff s t)

Apart-append :
    (x q : Position) (ps : List Position)
    → Apart x ps
    → q.id ≢ x.id
    → str_eq x.symbol q.symbol ≡ false
    → Apart x (ps ++ q ∷ [])
Apart-append x q [] h n m = ground arith
Apart-append x q (y ∷ ys) h n m = (h.0, h.1, Apart-append x q ys h.2 n m)

pub IsKeyed-append :
    (bound : ℕ) (q : Position) (s : String) (ps : List Position)
    → q.id ≡ bound
    → str_eq q.account_id default_account_id ≡ true
    → q.symbol ≡ s
    → lookup s ps ≡ none
    → IsKeyed bound ps
    → IsKeyed (suc bound) (ps ++ q ∷ [])
IsKeyed-append bound q s [] i a n e k = ground arith
IsKeyed-append bound q s (x ∷ xs) i a n e k =
    ground (arith, IsKeyed-append bound q s xs i a n, Apart-append x q xs k.2)
