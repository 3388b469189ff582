-- ===== src/Prelude/Cutting.antt =====
-- `strings.TrimPrefix`, and `strings.Trim` and `strings.TrimRight` with a cutset of bytes.
use Prim.Native.Nat.{ℕ}
use mathlib.Core.Bool.{Bool, ◌&&◌}
use mathlib.Core.List.{[], ◌∷◌}
use mathlib.Core.Option.{Option, none, some}
use orkano.Prelude.Tests.{if◌then◌else◌, ◌==◌}
use orkano.Prelude.Strings.{Text, is_empty}

-- What follows a prefix.
unfoldable pub after : Text → Text → Option Text
after [] s = some s
after (c ∷ p) [] = none
after (c ∷ p) (d ∷ s) = let rest = after p s in if c == d then rest else none

unfoldable pub trim_prefix : Text → Text → Text
unfolding after
trim_prefix s p = elim (after p s) [ none ↦ s | some rest ↦ rest ]

unfoldable pub trim_left_of : (ℕ → Bool) → Text → Text
trim_left_of cut [] = []
trim_left_of cut (c ∷ s) = let rest = trim_left_of cut s in if cut c then rest else c ∷ s

-- A byte is dropped where it is in the cutset and only such bytes follow.
unfoldable pub trim_right_of : (ℕ → Bool) → Text → Text
trim_right_of cut [] = []
trim_right_of cut (c ∷ s) =
    let rest = trim_right_of cut s in if is_empty rest && cut c then [] else c ∷ rest

unfoldable pub trim_of : (ℕ → Bool) → Text → Text
unfolding trim_left_of trim_right_of
trim_of cut s = trim_right_of cut (trim_left_of cut s)
