-- ===== src/Base/Float.antt =====
-- The values of Go's float64 and their comparisons (IEEE 754): a finite one is a whole number of
-- units of 2 ^ -1074, the smallest step.
use trading_bot.Base.Int.{ℤ, ltb_ℤ, leb_ℤ}
use mathlib.Core.Bool.{Bool, true, false}

pub data Float : Type 0 where
  nan : Float
  infinity : Bool → Float
  units : ℤ → Float

-- math.IsNaN and math.IsInf: neither.
abbrev pub finite : Float → Bool
finite (units n) = true
finite _ = false

-- `a < b`; `infinity true` is the negative one.
abbrev pub float_lt : Float → Float → Bool
float_lt (units a) (units b) = ltb_ℤ a b
float_lt (units a) (infinity false) = true
float_lt (infinity true) (units b) = true
float_lt (infinity true) (infinity false) = true
float_lt _ _ = false

-- `a <= b`
abbrev pub float_le : Float → Float → Bool
float_le (units a) (units b) = leb_ℤ a b
float_le (units a) (infinity false) = true
float_le (infinity false) (infinity false) = true
float_le (infinity true) (units b) = true
float_le (infinity true) (infinity s) = true
float_le _ _ = false
