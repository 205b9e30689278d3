-- ===== src/Prelude/Text.antt =====
-- Texts: the truth value that Python gives an optional text, `x or y`, and `str` of a number.
use Prim.Native.Nat.{ℕ, zero, suc, ◌/◌, ◌%◌}
use Prim.Native.String.{String}
use Prim.Native.String.{◌++◌ as ◌<>◌}
use mathlib.Core.Bool.{Bool, true, false}
use mathlib.Core.Option.{Option, none, some}
use prd_api_wrapper.Prelude.Tests.{ltb, if◌then◌else◌}

-- `s + t`
abbrev pub join : String → String → String
join s t = s <> t

-- An empty text is false.
abbrev pub truthy : String → Bool
truthy String.[] = false
truthy (String.◌∷◌ c s) = true

-- `text or default` for `text: str | None`.
abbrev pub or_default : Option String → String → String
or_default none d = d
or_default (some String.[]) d = d
or_default (some (String.◌∷◌ c s)) d = String.◌∷◌ c s

-- `text or None`.
abbrev pub non_empty : Option String → Option String
non_empty none = none
non_empty (some String.[]) = none
non_empty (some (String.◌∷◌ c s)) = some (String.◌∷◌ c s)

-- `len(text)`, in code points.
abbrev pub length : String → ℕ
length String.[] = 0
length (String.◌∷◌ c s) = suc (length s)

abbrev digit_from : ℕ → String
digit_from zero = "0"
digit_from (suc zero) = "1"
digit_from (suc (suc zero)) = "2"
digit_from (suc (suc (suc zero))) = "3"
digit_from (suc (suc (suc (suc zero)))) = "4"
digit_from (suc (suc (suc (suc (suc zero))))) = "5"
digit_from (suc (suc (suc (suc (suc (suc zero)))))) = "6"
digit_from (suc (suc (suc (suc (suc (suc (suc zero))))))) = "7"
digit_from (suc (suc (suc (suc (suc (suc (suc (suc zero)))))))) = "8"
digit_from _ = "9"

-- The decimal digits of a number; the fuel bounds their count.
show_fuel : ℕ → ℕ → String
show_fuel zero n = digit_from n
show_fuel (suc f) n =
    let front = show_fuel f (n / 10) in
    if ltb n 10 then digit_from n else front <> digit_from (n % 10)

unfoldable pub show : ℕ → String
unfolding show_fuel
show n = show_fuel n n
