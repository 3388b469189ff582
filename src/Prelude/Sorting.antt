-- ===== src/Prelude/Sorting.antt =====
-- `sort.Strings`: byte-wise lexicographic order.
use Prim.Native.Nat.{◌<◌}
use mathlib.Core.Path.{◌≡◌, refl, ap₂}
use mathlib.Core.Bool.{Bool, true, false, ◌&&◌, ◌||◌}
use mathlib.Core.List.{List, [], ◌∷◌}
use native.Mathlib.Omega.{arith}
use mathlib.Core.Logic.{inl, inr}
use orkano.Prelude.Lists.{All}
use orkano.Prelude.Tests.{◌==◌, ltb, if◌then◌else◌, Bool-cases}
use orkano.Prelude.Strings.{Text, text_eq, text_eq_iff, text_eq_refl}
use orkano.Prelude.Counts.{count}

-- `a < b` on strings.
unfoldable pub less : Text → Text → Bool
less s [] = false
less [] (b ∷ t) = true
less (a ∷ s) (b ∷ t) = ltb a b || (a == b && less s t)

pub less_irrefl : (s : Text) → less s s ≡ false
unfolding less
less_irrefl [] = refl
less_irrefl (a ∷ s) = ground (arith, less_irrefl s)

pub less_trans : (s t u : Text) → less s t ≡ true → less t u ≡ true → less s u ≡ true
unfolding less
less_trans s t [] h k = cc
less_trans s [] (c ∷ u) h k = ground arith
less_trans [] (b ∷ t) (c ∷ u) h k = refl
less_trans (a ∷ s) (b ∷ t) (c ∷ u) h k = ground (arith, less_trans s t u)

pub less_total : (s t : Text) → less s t ≡ false → less t s ≡ false → s ≡ t
unfolding less
less_total [] [] h k = refl
less_total [] (b ∷ t) h k = cc
less_total (a ∷ s) [] h k = cc
less_total (a ∷ s) (b ∷ t) h k = ground (arith, less_total s t)

insert_sorted : Text → List Text → List Text
insert_sorted x [] = x ∷ []
insert_sorted x (y ∷ ys) =
    let rest = insert_sorted x ys in if less y x then y ∷ rest else x ∷ y ∷ ys

unfoldable pub sort_texts : List Text → List Text
unfolding insert_sorted
sort_texts [] = []
sort_texts (x ∷ xs) = insert_sorted x (sort_texts xs)

count-insert_sorted :
    (z x : Text) (ys : List Text) → count z (insert_sorted x ys) ≡ count z (x ∷ ys)
unfolding insert_sorted
count-insert_sorted z x [] = refl
count-insert_sorted z x (y ∷ ys) = ground (arith, count-insert_sorted z x ys)

pub count-sort_texts : (z : Text) (xs : List Text) → count z (sort_texts xs) ≡ count z xs
unfolding sort_texts
count-sort_texts z [] = refl
count-sort_texts z (x ∷ xs) =
    omega (arith, count-insert_sorted z x (sort_texts xs), count-sort_texts z xs)

-- Nothing later is smaller.
abbrev pub Sorted : List Text → Type 0
Sorted [] = Unit
Sorted (x ∷ xs) = All (λ y. less y x ≡ false) xs × Sorted xs

pub All_of_count :
    (P : Text → Type 0) (xs : List Text) → ((z : Text) → 0 < count z xs → P z) → All P xs
All_of_count P [] h = tt
All_of_count P (x ∷ xs) h =
    (h x (ground (arith, text_eq_refl x)), All_of_count P xs (λ z k. h z (omega (arith, k))))

pub count_of_All :
    (P : Text → Type 0) (xs : List Text) → All P xs → (z : Text) → 0 < count z xs → P z
count_of_All P [] h z k = elim k [ ]
count_of_All P (x ∷ xs) h z k = elim (Bool-cases (text_eq z x)) [
  | inl e ↦ rw ((text_eq_iff z x).0 e) h.0
  | inr n ↦ count_of_All P xs h.1 z (ground arith)
]

less_asym : (s t : Text) → less s t ≡ true → less t s ≡ false
less_asym s t h = ground (arith, less_trans s t s h, less_irrefl s)

le_trans : (s t u : Text) → less t s ≡ false → less u t ≡ false → less u s ≡ false
le_trans s t u h k = ground (arith, less_total s t, less_trans u s t, less_asym t s)

above_head :
    (x y : Text) (ys : List Text)
    → Sorted (y ∷ ys)
    → less y x ≡ true
    → (z : Text) → 0 < count z (insert_sorted x ys)
    → less z y ≡ false
above_head x y ys h below z k = elim (Bool-cases (text_eq z x)) [
  | inl e ↦ rw ((text_eq_iff z x).0 e) (less_asym y x below)
  | inr n ↦ count_of_All _ ys h.0 z (ground (arith, count-insert_sorted z x ys))
]

insert_sorted-Sorted : (x : Text) (ys : List Text) → Sorted ys → Sorted (insert_sorted x ys)
unfolding insert_sorted
insert_sorted-Sorted x [] h = (tt, tt)
insert_sorted-Sorted x (y ∷ ys) h = elim (Bool-cases (less y x)) [
  | inl below ↦
      rw below (All_of_count _ _ (above_head x y ys h below), insert_sorted-Sorted x ys h.1)
  | inr above ↦
      rw above
        ((above, All_of_count _ ys (λ z k. le_trans x y z above (count_of_All _ ys h.0 z k))), h)
]

pub sort_texts-Sorted : (xs : List Text) → Sorted (sort_texts xs)
unfolding sort_texts
sort_texts-Sorted [] = tt
sort_texts-Sorted (x ∷ xs) = insert_sorted-Sorted x (sort_texts xs) (sort_texts-Sorted xs)

-- A sorted list is known by how often it holds each text.
pub Sorted-unique :
    (xs ys : List Text) → Sorted xs → Sorted ys → ((z : Text) → count z xs ≡ count z ys) → xs ≡ ys
Sorted-unique [] [] h k c = refl
Sorted-unique [] (y ∷ ys) h k c = absurd (ground (arith, c y, text_eq_refl y))
Sorted-unique (x ∷ xs) [] h k c = absurd (ground (arith, c x, text_eq_refl x))
Sorted-unique (x ∷ xs) (y ∷ ys) h k c =
    ap₂ (λ a l. a ∷ l) heads (Sorted-unique xs ys h.1 k.1 λ z. ground (arith, c z, heads))
  where
    not_below :
        (a b : Text) (l : List Text)
        → All (λ z. less z a ≡ false) l
        → 0 < count b (a ∷ l)
        → less b a ≡ false
    not_below a b l m n = elim (Bool-cases (text_eq b a)) [
      | inl e ↦ rw ((text_eq_iff b a).0 e) (less_irrefl a)
      | inr e ↦ count_of_All _ l m b (ground arith)
    ]

    heads : x ≡ y
    heads =
        less_total x y (not_below y x ys k.0 (ground (arith, c x, text_eq_refl x)))
          (not_below x y xs h.0 (ground (arith, c y, text_eq_refl y)))
