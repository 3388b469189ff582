-- ===== src/Prelude/Lists.antt =====
-- Lists measured by native numbers, and predicates and Boolean tests over lists.
use Prim.Native.Nat.{ℕ, zero, suc, ◌+◌}
use mathlib.Core.Path.{◌≡◌, refl, sym, ap, ◌∙◌, subst}
use mathlib.Core.Logic.{◌⊎◌, inl, inr}
use mathlib.Core.Bool.{Bool, true, false, ◌&&◌, ◌||◌}
use mathlib.Core.List.{List, [], ◌∷◌, ◌++◌}
use native.Mathlib.Omega.{arith}
use orkano.Prelude.Tests.{if◌then◌else◌, Bool-cases}

module _ {ℓ} {A : Type ℓ} where
  abbrev pub length : List A → ℕ
  length [] = 0
  length (x ∷ xs) = suc (length xs)

  abbrev pub take : ℕ → List A → List A
  take zero xs = []
  take (suc n) [] = []
  take (suc n) (x ∷ xs) = x ∷ take n xs

  abbrev pub drop : ℕ → List A → List A
  drop zero xs = xs
  drop (suc n) [] = []
  drop (suc n) (x ∷ xs) = drop n xs

  -- Every element satisfies `P`; computes to tuples, which the tactics read and build.
  abbrev pub All {κ} : (A → Type κ) → List A → Type κ
  All P [] = Unit
  All P (x ∷ xs) = P x × All P xs

  abbrev pub all_of : (A → Bool) → List A → Bool
  all_of p [] = true
  all_of p (x ∷ xs) = p x && all_of p xs

  abbrev pub any_of : (A → Bool) → List A → Bool
  any_of p [] = false
  any_of p (x ∷ xs) = p x || any_of p xs

  -- The elements that pass a Boolean test, in order.
  abbrev pub select : (A → Bool) → List A → List A
  select p [] = []
  select p (x ∷ xs) = let rest = select p xs in if p x then x ∷ rest else rest

module _ {ℓ} {A : Type ℓ} where
  pub List-cases : (l : List A) → (l ≡ []) ⊎ ((x : A) × (xs : List A) × (l ≡ x ∷ xs))
  List-cases [] = inl refl
  List-cases (x ∷ xs) = inr (x, xs, refl)

  pub length-append : (xs ys : List A) → length (xs ++ ys) ≡ length xs + length ys
  length-append [] ys = omega arith
  length-append (x ∷ xs) ys = omega (arith, length-append xs ys)

  pub All-append {κ} : (Q : A → Type κ) (us vs : List A) → All Q us → All Q vs → All Q (us ++ vs)
  All-append Q [] vs front back = back
  All-append Q (u ∷ us) vs (now, front) back = (now, All-append Q us vs front back)

  pub All_map {κ μ} :
      {P : A → Type κ} {Q : A → Type μ} (f : (a : A) → P a → Q a) (xs : List A)
      → All P xs
      → All Q xs
  All_map f [] h = tt
  All_map f (x ∷ xs) (now, rest) = (f x now, All_map f xs rest)

module _ {A : Type 0} where
  -- Membership, by recursion.
  abbrev pub In : A → List A → Type 0
  In a [] = ⊥
  In a (x ∷ xs) = (a ≡ x) ⊎ In a xs

  pub All_at {κ} : (P : A → Type κ) (xs : List A) (a : A) → All P xs → In a xs → P a
  All_at P [] a h m = elim m [ ]
  All_at P (x ∷ xs) a h (inl e) = subst P (sym e) h.0
  All_at P (x ∷ xs) a h (inr m) = All_at P xs a h.1 m

  pub In_select : (p : A → Bool) (a : A) (xs : List A) → In a (select p xs) → In a xs × (p a ≡ true)
  In_select p a [] m = elim m [ ]
  In_select p a (x ∷ xs) m = elim (Bool-cases (p x)) [
    | inr skip ↦
        let (rest, passes) =
          In_select p a xs
            (subst (λ b. In a (if b then x ∷ select p xs else select p xs)) skip m) in
        (inr rest, passes)
    | inl take ↦ elim (subst (λ b. In a (if b then x ∷ select p xs else select p xs)) take m) [
      | inl e ↦ (inl e, ap p e ∙ take)
      | inr rest ↦ let (there, passes) = In_select p a xs rest in (inr there, passes)
    ]
  ]

  pub select-All_back :
      (p q : A → Bool) (xs : List A)
      → All (λ x. q x ≡ false) (select p xs)
      → All (λ x. (p x && q x) ≡ false) xs
  select-All_back p q [] h = tt
  select-All_back p q (x ∷ xs) h = elim (Bool-cases (p x)) [
    | inr skip ↦
        let rest =
          subst (λ b. All (λ y. q y ≡ false) (if b then x ∷ select p xs else select p xs)) skip h in
        (ground arith, select-All_back p q xs rest)
    | inl take ↦
        let both =
          subst (λ b. All (λ y. q y ≡ false) (if b then x ∷ select p xs else select p xs)) take h in
        (ground (arith, both.0), select-All_back p q xs both.1)
  ]
