-- ===== src/Prelude/Counts.antt =====
-- How often a text occurs in a list, which serves as membership (0 < count), absence (count ≡ 0)
-- and freedom from duplicates (count ≤ 1).
use Prim.Native.Nat.{ℕ, suc, ◌+◌, ◌≤◌, ◌<◌}
use mathlib.Core.Path.{◌≡◌}
use mathlib.Core.Logic.{inl, inr}
use mathlib.Core.Bool.{true}
use mathlib.Core.List.{List, [], ◌∷◌, ◌++◌}
use native.Mathlib.Omega.{arith}
use orkano.Prelude.Tests.{if◌then◌else◌, Bool-cases, ltb}
use orkano.Prelude.Lists.{length}
use orkano.Prelude.Strings.{Text, text_eq, text_eq_iff, text_eq_refl}

abbrev pub count : Text → List Text → ℕ
count x [] = 0
count x (y ∷ ys) = (if text_eq x y then 1 else 0) + count x ys

pub count-append : (x : Text) (ys zs : List Text) → count x (ys ++ zs) ≡ count x ys + count x zs
count-append x [] zs = omega arith
count-append x (y ∷ ys) zs = omega (arith, count-append x ys zs)

-- One occurrence taken out.
remove : Text → List Text → List Text
remove x [] = []
remove x (y ∷ ys) = let rest = remove x ys in if text_eq x y then ys else y ∷ rest

count-remove :
    (x z : Text) (ys : List Text)
    → 0 < count x ys
    → count z (remove x ys) + (if text_eq z x then 1 else 0) ≡ count z ys
unfolding remove
count-remove x z [] h = elim h [ ]
count-remove x z (y ∷ ys) h =
    ground (arith, count-remove x z ys, text_eq_iff x y, text_eq_iff z x, text_eq_iff z y)

length-remove :
    (x : Text) (ys : List Text) → 0 < count x ys → suc (length (remove x ys)) ≡ length ys
unfolding remove
length-remove x [] h = elim h [ ]
length-remove x (y ∷ ys) h = ground (arith, length-remove x ys)

-- A list that has every text at most as often as another is no longer.
pub length_le_of_count :
    (xs ys : List Text) → ((z : Text) → count z xs ≤ count z ys) → length xs ≤ length ys
length_le_of_count [] ys h = omega arith
length_le_of_count (x ∷ xs) ys h =
    let present : 0 < count x ys = ground (arith, h x, text_eq_refl x) in
    omega (
      arith,
      length-remove x ys present,
      length_le_of_count xs (remove x ys) (λ z. omega (arith, h z, count-remove x z ys present)),
    )

with_one_more :
    (z w : Text) (xs ys : List Text)
    → ltb (count z xs) (count z ys) ≡ true
    → count w xs ≤ count w ys
    → count w (z ∷ xs) ≤ count w ys
with_one_more z w xs ys less h = ground (arith, text_eq_iff w z)

-- If it is as long, it has every text as often.
pub count_eq_of_length :
    (xs ys : List Text)
    → ((z : Text) → count z xs ≤ count z ys)
    → length ys ≤ length xs
    → (z : Text) → count z xs ≡ count z ys
count_eq_of_length xs ys h l z = elim (Bool-cases (ltb (count z xs) (count z ys))) [
  | inl less ↦
      absurd
        (omega (arith, length_le_of_count (z ∷ xs) ys (λ w. with_one_more z w xs ys less (h w))))
  | inr enough ↦ ground (arith, h z)
]
