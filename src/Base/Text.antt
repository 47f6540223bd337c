-- ===== src/Base/Text.antt =====
-- Numbers written out in a template string, in decimal as JavaScript does.
use Prim.Native.Nat.{ℕ, zero, suc, ◌/◌, ◌%◌, ◌^◌}
use Prim.Native.String
use Prim.Native.String.{String}
use mathlib.Core.List.{List, [], ◌∷◌}
use mathlib.Core.Path.{◌≡◌, refl}
use mes_copy.Base.Tests.{ltb, if◌then◌else◌}

infixr 65 ◌<>◌
abbrev pub ◌<>◌ : String → String → String
s <> t = String.◌++◌ s t

abbrev digit_in : List String → ℕ → String
digit_in [] n = ""
digit_in (d ∷ ds) zero = d
digit_in (d ∷ ds) (suc n) = digit_in ds n

abbrev digit : ℕ → String
digit = digit_in ("0" ∷ "1" ∷ "2" ∷ "3" ∷ "4" ∷ "5" ∷ "6" ∷ "7" ∷ "8" ∷ "9" ∷ [])

-- The digits of `n` before `rest`; a number has fewer digits than its successor counts.
show_from : ℕ → ℕ → String → String
show_from zero n rest = rest
show_from (suc fuel) n rest =
    let text = digit (n % 10) <> rest in
    let longer = show_from fuel (n / 10) text in if ltb n 10 then text else longer

unfoldable pub show : ℕ → String
unfolding show_from
show n = show_from (suc n) n ""

show_test : show 4071 ≡ "4071"
unfolding show
show_test = refl

-- `String(n).padStart(suc k, '0')` has these zeros before the digits of `n`.
unfoldable pub zeros : ℕ → ℕ → String
zeros zero n = ""
zeros (suc k) n = let rest = zeros k n in if ltb n (10 ^ suc k) then "0" <> rest else rest
