-- ===== src/Base/Entries.antt =====
-- Maps of texts, as the lists of their entries.
use Prim.Native.String.{String}
use mathlib.Core.Option.{Option, none, some}
use mathlib.Core.List.{List, [], ◌∷◌}
use text.Mathlib.Text.{◌==◌ as str_eq}
use trading_bot.Base.Tests.{if◌then◌else◌}

abbrev pub lookup : String → List (String × String) → Option String
lookup k [] = none
lookup k ((j, v) ∷ xs) = let rest = lookup k xs in if str_eq j k then some v else rest

-- `m[k] = v`
abbrev pub set_key : String → String → List (String × String) → List (String × String)
set_key k v [] = (k, v) ∷ []
set_key k v ((j, w) ∷ xs) =
    let rest = set_key k v xs in if str_eq j k then (j, v) ∷ xs else (j, w) ∷ rest
