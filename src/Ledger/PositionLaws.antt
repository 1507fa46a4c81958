-- ===== src/Ledger/PositionLaws.antt =====
-- What `applyPosition` does to the tables and to the projections (internal/ledger/service.go).
use mathlib.Core.Path.{subst}
use trading_bot.Base.{
  sym, ap, pos_part, neg_part, eq_of_parts, -ℤ_parts, ℕ, ◌≡◌, ◌≢◌, refl, Bool, true, false, not,
  Option, none, some, String, if◌then◌else◌, str_eq, eq_iff, arith, pos, ◌+ℤ◌, ◌-ℤ◌, int_laws,
  Bool-cases, inl, inr, ◌∙◌, ltb_ℤ,
}
use trading_bot.Accounting.Decimal.{
  units, Decimal, integer, add, sub, negate, is_zero, is_positive, cmp,
}
use trading_bot.Accounting.Rounding.{mul_div_all}
use trading_bot.Ledger.Error.{
  default_account_id, err_insufficient_asset, err_projection_unavailable,
}
use trading_bot.Ledger.Rows.{Position, Database}
use trading_bot.Ledger.Store.{
  ◌>>=◌, ◌>>◌, create_position, save_position, find_position, pure, fail,
}
use trading_bot.Base.Ensures.{Ensures, Ensures-bind}
use trading_bot.Ledger.Command.{FillCommand}
use trading_bot.Ledger.Position.{
  PositionChange, or_zero, is_open, is_exact, new_position, reopen, bought, bought_change,
  buy_position, sold, released_basis, sell_position, apply_position,
}
use trading_bot.Ledger.Fill.{asset_delta_of}
use trading_bot.Ledger.Books.{held, IsKeyed, IsSettled}
use trading_bot.Ledger.Positions.{
  lookup, lookup-replace, IsKeyed-replace, lookup-append, IsKeyed-append,
}

-- The projections of a position after a change, against those before it.
pub record Balances (c : FillCommand) (before : Option Position) (ch : PositionChange)
    : Type 0 where
  pub settled : IsSettled (some ch.position)
  pub amount :
      integer (or_zero ch.position.amount_exact)
      ≡ held (λ p. p.amount_exact) before +ℤ integer (asset_delta_of c)
  pub basis :
      integer (or_zero ch.position.cost_basis_exact)
      ≡ held (λ p. p.cost_basis_exact) before +ℤ integer ch.basis_delta
  pub fees :
      integer (or_zero ch.position.fees_exact) ≡ held (λ p. p.fees_exact) before +ℤ integer c.fee
  pub profit :
      integer (or_zero ch.position.realized_pnl_exact)
      ≡ held (λ p. p.realized_pnl_exact) before +ℤ (integer ch.realized -ℤ integer c.fee)

pub record Moved (c : FillCommand) (db : Database) (ch : PositionChange) (db' : Database)
    : Type 0 where
  pub rest : db' ≡ record db { positions = db'.positions; next_position_id = db'.next_position_id }
  pub lookups :
      (t : String)
      → lookup t db'.positions
        ≡ (if str_eq c.symbol t then some ch.position else lookup t db.positions)
  pub keyed : IsKeyed db'.next_position_id db'.positions
  pub balances : Balances c (lookup c.symbol db.positions) ch

positive-ne : (d e : Decimal) → integer d ≡ integer e → is_positive d ≡ true → integer e ≢ pos 0
positive-ne d e same h = ground arith

zero-sub : (d e : Decimal) → is_zero (sub d e) ≡ true → integer (sub d e) ≡ pos 0
unfolding sub
zero-sub d e h = ground arith

sub-equal : (d e : Decimal) → integer (sub d e) ≡ pos 0 → integer e ≡ integer d
unfolding sub
sub-equal d e h =
    eq_of_parts (integer e) (integer d)
      (omega (arith, ap pos_part h, ap neg_part h, -ℤ_parts (integer d) (integer e)))

sub_self : (d e : Decimal) → integer e ≡ integer d → integer (sub d e) ≡ pos 0
unfolding sub
sub_self d e h = rw h (omega int_laws)

module _ (c : FillCommand) (gross : Decimal) where
  new-Balances :
      (i : ℕ)
      → str_eq c.side "buy" ≡ true
      → Balances c none
          (bought_change gross (record (bought true c gross (new_position c)) { id = i }))
  unfolding bought new_position add sub asset_delta_of
  new-Balances i h = record {
    settled = ground arith;
    amount = rw h (omega int_laws);
    basis = omega int_laws;
    fees = omega int_laws;
    profit = omega int_laws;
  }

  bought-Balances :
      (p : Position)
      → str_eq c.side "buy" ≡ true
      → is_open p ≡ true
      → Balances c (some p) (bought_change gross (bought false c gross p))
  unfolding bought add sub asset_delta_of
  bought-Balances p h o = record {
    settled = ground arith;
    amount = rw h (omega int_laws);
    basis = omega int_laws;
    fees = omega int_laws;
    profit = omega int_laws;
  }

  reopened-Balances :
      (p : Position)
      → str_eq c.side "buy" ≡ true
      → is_open p ≡ false
      → IsSettled (some p)
      → Balances c (some p) (bought_change gross (bought true c gross (reopen c p)))
  unfolding bought reopen add sub asset_delta_of
  reopened-Balances p h o s = record {
    settled = ground arith;
    amount = rw (h, s.1 o) (omega int_laws);
    basis = rw (s.2 o) (omega int_laws);
    fees = omega int_laws;
    profit = omega int_laws;
  }

  -- A sale of the whole amount releases the whole basis.
  released_basis_all :
      (p : Position)
      → integer c.quantity ≡ integer (or_zero p.amount_exact)
      → is_positive c.quantity ≡ true
      → integer (released_basis c p) ≡ integer (or_zero p.cost_basis_exact)
  unfolding released_basis
  released_basis_all p e h = rw (
    mul_div_all (or_zero p.cost_basis_exact) c.quantity (or_zero p.amount_exact) e
        (positive-ne c.quantity (or_zero p.amount_exact) e h),
    released_basis,
  )

  sold-IsSettled :
      (p : Position)
      → is_positive c.quantity ≡ true
      → is_open p ≡ true
      → IsSettled (some (sold c gross (released_basis c p) p).position)
  unfolding sold
  sold-IsSettled p q o = elim (Bool-cases (is_zero (sub (or_zero p.amount_exact) c.quantity))) [
    | inl z ↦
        let gone = zero-sub (or_zero p.amount_exact) c.quantity z in
        let all = released_basis_all p (sub-equal (or_zero p.amount_exact) c.quantity gone) q in
        (refl, λ _. gone, λ _. sub_self (or_zero p.cost_basis_exact) (released_basis c p) all, refl)
    | inr z ↦ rw z (refl, λ k. cc, λ k. cc, refl)
  ]

  sold-Balances :
      (p : Position)
      → str_eq c.side "buy" ≡ false
      → is_positive c.quantity ≡ true
      → is_open p ≡ true
      → Balances c (some p) (sold c gross (released_basis c p) p)
  unfolding sold add sub negate asset_delta_of
  sold-Balances p h q o = record {
    settled = sold-IsSettled p q o;
    amount = rw h (omega int_laws);
    basis = omega int_laws;
    fees = omega int_laws;
    profit = omega int_laws;
  }

  abbrev SameKey : Position → Position → Type 0
  SameKey q p = (q.id ≡ p.id) × (q.symbol ≡ p.symbol) × (q.account_id ≡ p.account_id)

  bought-key : (b : Bool) (p : Position) → SameKey (bought b c gross p) p
  unfolding bought
  bought-key b p = (refl, refl, refl)

  reopen-key : (p : Position) → SameKey (reopen c p) p
  unfolding reopen
  reopen-key p = (refl, refl, refl)

  sold-key : (r : Decimal) (p : Position) → SameKey (sold c gross r p).position p
  unfolding sold
  sold-key r p = (refl, refl, refl)

  new-key : ((new_position c).symbol ≡ c.symbol) × ((new_position c).account_id ≡ c.account_id)
  unfolding new_position
  new-key = (refl, refl)

  -- The tables around the row that is written.
  module _ (db : Database) (keyed : IsKeyed db.next_position_id db.positions) where
    created-Moved :
        (p : Position) (r d : Decimal)
        → p.symbol ≡ c.symbol
        → str_eq p.account_id default_account_id ≡ true
        → lookup c.symbol db.positions ≡ none
        → ((i : ℕ)
            → Balances c none
                (record { position = record p { id = i }; realized = r; basis_delta = d }))
        → Ensures
            (λ q db'. Moved c db (record { position = q; realized = r; basis_delta = d }) db')
            (create_position p db)
    unfolding create_position
    created-Moved p r d e a n b = record {
      rest = refl;
      lookups =
          λ t. lookup-append (record p { id = db.next_position_id }) c.symbol t db.positions a e n;
      keyed =
          IsKeyed-append db.next_position_id (record p { id = db.next_position_id }) c.symbol
            db.positions refl a e n keyed;
      balances = rw n (b db.next_position_id);
    }

    saved-Moved :
        (p q : Position) (r d : Decimal)
        → lookup c.symbol db.positions ≡ some p
        → q.id ≡ p.id
        → q.symbol ≡ p.symbol
        → q.account_id ≡ p.account_id
        → Balances c (some p) (record { position = q; realized = r; basis_delta = d })
        → Ensures
            (λ q' db'. Moved c db (record { position = q'; realized = r; basis_delta = d }) db')
            (save_position q db)
    unfolding save_position
    saved-Moved p q r d f i s a b = record {
      rest = refl;
      lookups = λ t. lookup-replace p q i s a db.next_position_id c.symbol t db.positions keyed f;
      keyed = IsKeyed-replace p q i s a db.next_position_id c.symbol db.positions keyed f;
      balances = rw f b;
    }

    buy-Moved :
        (found : Option Position)
        → lookup c.symbol db.positions ≡ found
        → str_eq c.account_id default_account_id ≡ true
        → str_eq c.side "buy" ≡ true
        → IsSettled found
        → Ensures (Moved c db) (buy_position c gross found db)
    unfolding buy_position
    buy-Moved none f a h s =
        let key = bought-key true (new_position c) in
        Ensures-bind (λ p db'. Moved c db (bought_change gross p) db') (Moved c db)
          (create_position (bought true c gross (new_position c)) db)
          (λ p. pure (bought_change gross p))
          (created-Moved (bought true c gross (new_position c)) (units (pos 0)) gross
            (key.1 ∙ new-key.0) (rw (key.2, new-key.1) a) f (λ i. new-Balances i h))
          (λ p db' m. m)
    buy-Moved (some p) f a h s = elim (Bool-cases (is_exact p)) [
      | inr missing ↦ rw missing tt
      | inl exact ↦ rw exact (saved (is_open p) refl)
    ]
      where
        saved :
            (o : Bool)
            → is_open p ≡ o
            → Ensures (Moved c db) (
                (save_position
                      (if o then bought false c gross p else bought true c gross (reopen c p))
                    >>= λ q. pure (bought_change gross q))
                  db)
        saved true o =
            let key = bought-key false p in
            Ensures-bind (λ p db'. Moved c db (bought_change gross p) db') (Moved c db)
              (save_position (bought false c gross p) db) (λ q. pure (bought_change gross q))
              (saved-Moved p (bought false c gross p) (units (pos 0)) gross f key.0 key.1 key.2
                (bought-Balances p h o))
              (λ q db' m. m)
        saved false o =
            let key = bought-key true (reopen c p) in
            let key' = reopen-key p in
            Ensures-bind (λ p db'. Moved c db (bought_change gross p) db') (Moved c db)
              (save_position (bought true c gross (reopen c p)) db)
              (λ q. pure (bought_change gross q))
              (saved-Moved p (bought true c gross (reopen c p)) (units (pos 0)) gross f
                (key.0 ∙ key'.0) (key.1 ∙ key'.1) (key.2 ∙ key'.2) (reopened-Balances p h o s))
              (λ q db' m. m)

    sell-Moved :
        (found : Option Position)
        → lookup c.symbol db.positions ≡ found
        → str_eq c.side "buy" ≡ false
        → is_positive c.quantity ≡ true
        → Ensures (Moved c db) (sell_position c gross found db)
    unfolding sell_position save_position
    sell-Moved none f h q = tt
    sell-Moved (some p) f h q = elim (Bool-cases (is_open p)) [
      | inr shut ↦ rw shut tt
      | inl live ↦ rw live (exact_sale live (is_exact p))
    ]
      where
        sale : Decimal → PositionChange
        sale r = sold c gross r p

        saved :
            is_open p ≡ true
            → Ensures (Moved c db) (
                (save_position (sale (released_basis c p)).position
                    >> pure (sale (released_basis c p)))
                  db)
        saved live =
            let ch = sale (released_basis c p) in
            let key = sold-key (released_basis c p) p in
            saved-Moved p ch.position ch.realized ch.basis_delta f key.0 key.1 key.2
              (sold-Balances p h q live)

        enough :
            is_open p ≡ true
            → (b : Bool)
            → Ensures (Moved c db) (
                (if b
                    then fail err_insufficient_asset
                    else (save_position (sale (released_basis c p)).position
                        >> pure (sale (released_basis c p))))
                  db)
        enough live true = tt
        enough live false = saved live

        exact_sale :
            is_open p ≡ true
            → (b : Bool)
            → Ensures (Moved c db) (
                (if not b
                    then fail err_projection_unavailable
                    else if ltb_ℤ (pos 0) (cmp c.quantity (or_zero p.amount_exact))
                    then fail err_insufficient_asset
                    else (save_position (sale (released_basis c p)).position
                        >> pure (sale (released_basis c p))))
                  db)
        exact_sale live false = tt
        exact_sale live true = enough live (ltb_ℤ (pos 0) (cmp c.quantity (or_zero p.amount_exact)))

-- Under a valid fill every position row is exact, a closed one is empty, and the columns change by
-- the fill's postings.
pub apply_position-Moved :
    (c : FillCommand) (gross : Decimal) (db : Database)
    → str_eq c.account_id default_account_id ≡ true
    → is_positive c.quantity ≡ true
    → IsKeyed db.next_position_id db.positions
    → IsSettled (lookup c.symbol db.positions)
    → Ensures (Moved c db) (apply_position c gross db)
unfolding apply_position
apply_position-Moved c gross db a q k s =
    let account : c.account_id ≡ default_account_id =
      (eq_iff c.account_id default_account_id).0 a in
    subst
      (λ (owner : String). Ensures (Moved c db) (
        (if str_eq c.side "buy"
            then buy_position c gross (find_position owner c.symbol db.positions)
            else sell_position c gross (find_position owner c.symbol db.positions))
          db))
      (sym account)
      (elim (Bool-cases (str_eq c.side "buy")) [
        | inl h ↦ rw h (buy-Moved c gross db k (lookup c.symbol db.positions) refl a h s)
        | inr h ↦ rw h (sell-Moved c gross db k (lookup c.symbol db.positions) refl h q)
      ])
