-- ===== src/Ledger/Totals.antt =====
-- The maps of sums that the reconciliation builds (internal/ledger/reconcile.go).
use mathlib.Core.Path.{subst}
use trading_bot.Accounting.Decimal.{add, integer, Decimal, is_zero}
use trading_bot.Base.{
  ◌≡◌, ◌⊎◌, refl, sym, Bool, true, false, not, ◌&&◌, [], ◌∷◌, String, if◌then◌else◌, str_eq, eq_iff,
  eq_refl, inl, inr, Bool-cases, arith, pos, ◌+ℤ◌, int_laws,
}
use trading_bot.Ledger.Reconcile.{stray, accumulate, Totals, total, missing_projection}

pub total-accumulate :
    (key : String) (delta : Decimal) (ts : Totals) (s : String)
    → integer (total (accumulate key delta ts) s)
      ≡ integer (total ts s) +ℤ (if str_eq key s then integer delta else pos 0)
unfolding accumulate add
total-accumulate key delta [] s = elim (Bool-cases (str_eq key s)) [
  | inl h ↦ rw h (omega int_laws)
  | inr h ↦ rw h (omega int_laws)
]
total-accumulate key delta (t ∷ ts) s = elim (Bool-cases (str_eq t.0 key)) [
  | inl h ↦ rw (h, (eq_iff t.0 key).0 h) (same (str_eq key s))
  | inr h ↦ elim (Bool-cases (str_eq t.0 s)) [
    | inl k ↦ rw (h, k, other h k) (omega int_laws)
    | inr k ↦ rw (h, k) (total-accumulate key delta ts s)
  ]
]
  where
    same :
        (b : Bool)
        → integer (if b then add t.1 delta else total ts s)
          ≡ integer (if b then t.1 else total ts s) +ℤ (if b then integer delta else pos 0)
    same true = omega int_laws
    same false = omega int_laws

    other : str_eq t.0 key ≡ false → str_eq t.0 s ≡ true → str_eq key s ≡ false
    other h k = elim (Bool-cases (str_eq key s)) [
      | inr n ↦ n
      | inl e ↦ ground (arith, eq_iff t.0 key, eq_iff t.0 s, eq_iff key s)
    ]

-- Different keys.
abbrev pub Fresh : String → Totals → Type 0
Fresh key [] = Unit
Fresh key (t ∷ ts) = (str_eq t.0 key ≡ false) × Fresh key ts

abbrev pub IsMap : Totals → Type 0
IsMap [] = Unit
IsMap (t ∷ ts) = Fresh t.0 ts × IsMap ts

accumulate-Fresh :
    (key : String) (delta : Decimal) (s : String) (ts : Totals)
    → str_eq key s ≡ false
    → Fresh s ts
    → Fresh s (accumulate key delta ts)
unfolding accumulate
accumulate-Fresh key delta s [] n f = (n, tt)
accumulate-Fresh key delta s (t ∷ ts) n f = ground (arith, accumulate-Fresh key delta s ts n)

differs_sym : (s t : String) → str_eq s t ≡ false → str_eq t s ≡ false
differs_sym s t h = elim (Bool-cases (str_eq t s)) [
  | inr n ↦ n
  | inl e ↦ ground (arith, eq_iff s t, eq_iff t s)
]

pub accumulate-IsMap :
    (key : String) (delta : Decimal) (ts : Totals) → IsMap ts → IsMap (accumulate key delta ts)
unfolding accumulate
accumulate-IsMap key delta [] m = (tt, tt)
accumulate-IsMap key delta (t ∷ ts) m = elim (Bool-cases (str_eq t.0 key)) [
  | inl h ↦ rw h m
  | inr h ↦ rw h (
    accumulate-Fresh key delta t.0 ts (differs_sym t.0 key h) m.0,
    accumulate-IsMap key delta ts m.1,
  )
]

total-Fresh : (s : String) (ts : Totals) → Fresh s ts → integer (total ts s) ≡ pos 0
total-Fresh s [] f = refl
total-Fresh s (t ∷ ts) f = rw f.0 (total-Fresh s ts f.1)

-- A total of 0 is no stray.
pub stray_none :
    (dimension : String) (test : String → Bool) (ts : Totals)
    → IsMap ts
    → ((s : String) → test s ≡ true → integer (total ts s) ≡ pos 0)
    → stray dimension test ts ≡ []
unfolding stray
stray_none dimension test [] m h = refl
stray_none dimension test (t ∷ ts) m h =
    rw (stray_none dimension test ts m.1 (λ s k. tail s k (Bool-cases (str_eq t.0 s))))
      (head (Bool-cases (test t.0)))
  where
    tail :
        (s : String)
        → test s ≡ true
        → (str_eq t.0 s ≡ true) ⊎ (str_eq t.0 s ≡ false)
        → integer (total ts s) ≡ pos 0
    tail s k (inl e) = rw (sym ((eq_iff t.0 s).0 e)) (total-Fresh t.0 ts m.0)
    tail s k (inr e) =
        subst (λ (b : Bool). integer (if b then t.1 else total ts s) ≡ pos 0) e (h s k)

    value : test t.0 ≡ true → integer t.1 ≡ pos 0
    value k =
        subst (λ (b : Bool). integer (if b then t.1 else total ts t.0) ≡ pos 0) (eq_refl t.0)
          (h t.0 k)

    head :
        (test t.0 ≡ true) ⊎ (test t.0 ≡ false)
        → (if test t.0 && not (is_zero t.1) then missing_projection dimension t ∷ [] else []) ≡ []
    head (inl k) = ground (arith, value k)
    head (inr k) = rw k refl
