-- ===== src/Prelude/Splitting.antt =====
-- `strings.Split` with a separator of one byte, and how it undoes `strings.Join`.
use Prim.Native.Nat.{ℕ}
use mathlib.Core.Path.{◌≡◌, refl}
use mathlib.Core.Bool.{true, not}
use mathlib.Core.List.{List, [], ◌∷◌, ◌++◌}
use native.Mathlib.Omega.{arith}
use orkano.Prelude.Tests.{◌==◌, if◌then◌else◌}
use orkano.Prelude.Lists.{All, all_of}
use orkano.Prelude.Strings.{Text, join}

cons_head : ℕ → List Text → List Text
cons_head x [] = (x ∷ []) ∷ []
cons_head x (p ∷ ps) = (x ∷ p) ∷ ps

unfoldable pub split_on : ℕ → Text → List Text
unfolding cons_head
split_on sep [] = [] ∷ []
split_on sep (x ∷ s) = let rest = split_on sep s in if x == sep then [] ∷ rest else cons_head x rest

-- The separator does not occur.
abbrev pub Lacks : ℕ → Text → Type 0
Lacks sep s = all_of (λ x. not (x == sep)) s ≡ true

pub split_on-Lacks : (sep : ℕ) (s : Text) → Lacks sep s → split_on sep s ≡ s ∷ []
unfolding split_on
split_on-Lacks sep [] h = refl
split_on-Lacks sep (x ∷ s) h = ground (arith, split_on-Lacks sep s)

pub split_on-append :
    (sep : ℕ) (s t : Text) → Lacks sep s → split_on sep (s ++ sep ∷ t) ≡ s ∷ split_on sep t
unfolding split_on
split_on-append sep [] t h = ground arith
split_on-append sep (x ∷ s) t h = ground (arith, split_on-append sep s t)

-- Splitting gives back the parts that were joined, where none holds the separator.
pub split_on-join :
    (sep : ℕ) (p : Text) (ps : List Text)
    → All (Lacks sep) (p ∷ ps)
    → split_on sep (join (sep ∷ []) (p ∷ ps)) ≡ p ∷ ps
unfolding join
split_on-join sep p [] h = split_on-Lacks sep p h.0
split_on-join sep p (q ∷ ps) h =
    ground (arith, split_on-append sep p (join (sep ∷ []) (q ∷ ps)) h.0, split_on-join sep q ps h.1)
