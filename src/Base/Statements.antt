-- ===== src/Base/Statements.antt =====
-- Results with an error, statements on the tables of a database, and what holds after them.
use mathlib.Core.Path.{◌≡◌, refl}
use mathlib.Core.Logic.{◌⊎◌, inl, inr}
use mathlib.Core.Bool.{Bool, true, false}
use mathlib.Core.Option.{Option, none, some}
use mathlib.Core.List.{List, [], ◌∷◌}
use trading_bot.Base.Tests.{if◌then◌else◌}

pub data Outcome {ℓ} (E : Type 0) (A : Type ℓ) : Type ℓ where
  ok : A → Outcome E A
  err : E → Outcome E A

abbrev pub StatementOn : Type 0 → Type 0 → Type 0 → Type 0
StatementOn D E A = D → Outcome E (A × D)

module _ {D E : Type 0} where
  abbrev pub continue :
      {A B : Type 0} → Outcome E (A × D) → (A → StatementOn D E B) → Outcome E (B × D)
  continue (ok (a, db)) f = f a db
  continue (err e) f = err e

  infixl 5 ◌>>=◌ ◌>>◌
  abbrev pub ◌>>=◌ :
      {A B : Type 0} → StatementOn D E A → (A → StatementOn D E B) → StatementOn D E B
  ◌>>=◌ m f db = continue (m db) f

  abbrev pub ◌>>◌ : {A B : Type 0} → StatementOn D E A → StatementOn D E B → StatementOn D E B
  m >> k = m >>= λ _. k

  module _ {A : Type 0} where
    abbrev pub pure : A → StatementOn D E A
    pure a db = ok (a, db)

    abbrev pub fail : E → StatementOn D E A
    fail e db = err e

    abbrev pub or_fail : Option A → E → StatementOn D E A
    or_fail none e = fail e
    or_fail (some a) e = pure a

    abbrev pub lift : Outcome E A → StatementOn D E A
    lift (ok a) = pure a
    lift (err e) = fail e

    abbrev pub get : (D → A) → StatementOn D E A
    get f db = ok (f db, db)

  abbrev pub check : Option E → StatementOn D E (Unit {0})
  check none = pure tt
  check (some e) = fail e

  abbrev pub guard : Bool → E → StatementOn D E (Unit {0})
  guard true e = pure tt
  guard false e = fail e

  abbrev pub modify : (D → D) → StatementOn D E (Unit {0})
  modify f db = ok (tt, f db)

  -- A transaction: an error rolls every statement back.
  abbrev pub settle : {A : Type 0} → D → Outcome E (A × D) → Outcome E A × D
  settle db (ok (a, db')) = (ok a, db')
  settle db (err e) = (err e, db)

-- The first row that passes a test.
abbrev pub find {ℓ} : {A : Type ℓ} → (A → Bool) → List A → Option A
find p [] = none
find p (x ∷ xs) = if p x then some x else find p xs

pub Outcome-cases {ℓ} :
    {E : Type 0} {A : Type ℓ} (r : Outcome E A) → ((a : A) × (r ≡ ok a)) ⊎ ((e : E) × (r ≡ err e))
Outcome-cases (ok a) = inl (a, refl)
Outcome-cases (err e) = inr (e, refl)
