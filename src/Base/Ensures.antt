-- ===== src/Base/Ensures.antt =====
-- Postconditions of statements: what holds of the result and the tables where none fails.
use mathlib.Core.Path.{◌≡◌, refl}
use mathlib.Core.Bool.{Bool, true, false}
use mathlib.Core.Option.{Option, none, some}
use trading_bot.Base.Tests.{if◌then◌else◌}
use trading_bot.Base.Statements.{
  Outcome, ok, err, StatementOn, continue, ◌>>=◌, or_fail, guard, check, lift,
}

module _ {D E : Type 0} where
  abbrev pub Ensures {ℓ} : {A : Type 0} → (A → D → Type ℓ) → Outcome E (A × D) → Type ℓ
  Ensures P (ok (a, db)) = P a db
  Ensures P (err e) = Unit

  module _ {ℓ κ} {A B : Type 0} (P : A → D → Type ℓ) (Q : B → D → Type κ) where
    pub Ensures-bind :
        (r : Outcome E (A × D)) (f : A → StatementOn D E B)
        → Ensures P r
        → ((a : A) (db : D) → P a db → Ensures Q (f a db))
        → Ensures Q (continue r f)
    Ensures-bind (ok (a, db)) f h k = k a db h
    Ensures-bind (err e) f h k = tt

    pub Ensures-weaken :
        {P' : A → D → Type κ} (r : Outcome E (A × D))
        → ((a : A) (db : D) → P a db → P' a db)
        → Ensures P r
        → Ensures P' r
    Ensures-weaken (ok (a, db)) f h = f a db h
    Ensures-weaken (err e) f h = tt

  pub Ensures-and :
      {A : Type 0} (P Q : A → D → Type 0) (r : Outcome E (A × D))
      → Ensures P r
      → Ensures Q r
      → Ensures (λ a db. P a db × Q a db) r
  Ensures-and P Q (ok (a, db)) p q = (p, q)
  Ensures-and P Q (err e) p q = tt

  module _ {ℓ} {A : Type 0} (P : A → D → Type ℓ) where
    pub Ensures-found :
        (o : Option A) (e : E) (db : D)
        → ((a : A) → o ≡ some a → P a db)
        → Ensures P (or_fail o e db)
    Ensures-found none e db k = tt
    Ensures-found (some a) e db k = k a refl

  module _ {κ} {A B : Type 0} (Q : B → D → Type κ) where
    -- The part that follows may use what the statement returned.
    pub Ensures-then :
        (r : Outcome E (A × D)) (f : A → StatementOn D E B)
        → ((a : A) (db : D) → r ≡ ok (a, db) → Ensures Q (f a db))
        → Ensures Q (continue r f)
    Ensures-then (ok (a, db)) f k = k a db refl
    Ensures-then (err e) f k = tt

    pub Ensures-or_fail :
        (o : Option A) (e : E) (f : A → StatementOn D E B) (db : D)
        → ((a : A) → o ≡ some a → Ensures Q (f a db))
        → Ensures Q ((or_fail o e >>= f) db)
    Ensures-or_fail none e f db k = tt
    Ensures-or_fail (some a) e f db k = k a refl

    pub Ensures-lift :
        (r : Outcome E A) (f : A → StatementOn D E B) (db : D)
        → ((a : A) → r ≡ ok a → Ensures Q (f a db))
        → Ensures Q ((lift r >>= f) db)
    Ensures-lift (ok a) f db k = k a refl
    Ensures-lift (err e) f db k = tt

  module _ {κ} {B : Type 0} (Q : B → D → Type κ) where
    pub Ensures-guard :
        (b : Bool) (e : E) (k : StatementOn D E B) (db : D)
        → (b ≡ true → Ensures Q (k db))
        → Ensures Q ((guard b e >>= λ _. k) db)
    Ensures-guard true e k db h = h refl
    Ensures-guard false e k db h = tt

    pub Ensures-check :
        (o : Option E) (k : StatementOn D E B) (db : D)
        → Ensures Q (k db)
        → Ensures Q ((check o >>= λ _. k) db)
    Ensures-check none k db h = h
    Ensures-check (some e) k db h = tt

    pub Ensures-if :
        (b : Bool) (m k : StatementOn D E B) (db : D)
        → (b ≡ true → Ensures Q (m db))
        → (b ≡ false → Ensures Q (k db))
        → Ensures Q ((if b then m else k) db)
    Ensures-if true m k db h g = h refl
    Ensures-if false m k db h g = g refl
