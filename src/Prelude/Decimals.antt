-- ===== src/Prelude/Decimals.antt =====
-- The verb %d on a number that is not negative.
use Prim.Native.Nat.{ℕ, zero, suc, ◌+◌, ◌/◌, ◌%◌}
use mathlib.Core.Bool.{true, false}
use mathlib.Core.List.{[], ◌∷◌, ◌++◌}
use orkano.Prelude.Tests.{ltb}
use orkano.Prelude.Strings.{Text}

-- A number has at most as many digits as it counts, or one.
digits_from : ℕ → ℕ → Text
digits_from zero n = []
digits_from (suc fuel) n = elim (ltb n 10) [
  | true ↦ (48 + n) ∷ []
  | false ↦ digits_from fuel (n / 10) ++ (48 + n % 10) ∷ []
]

unfoldable pub decimal : ℕ → Text
unfolding digits_from
decimal n = digits_from (suc n) n
