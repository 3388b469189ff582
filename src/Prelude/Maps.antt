-- ===== src/Prelude/Maps.antt =====
-- A Go map with string keys, as an association list with one entry for each key.
use Prim.Native.Nat.{◌+◌, ◌≤◌}
use mathlib.Core.Path.{◌≡◌, refl}
use mathlib.Core.Bool.{Bool}
use mathlib.Core.Option.{Option, none, some}
use mathlib.Core.List.{List, [], ◌∷◌}
use native.Mathlib.Omega.{arith}
use orkano.Prelude.Tests.{if◌then◌else◌, is_some, ltb}
use orkano.Prelude.Strings.{Text, text_eq, text_eq_iff}
use orkano.Prelude.Counts.{count}

-- `m[k]` and `m[k] = v` on a map with string keys.
module _ {V : Type 0} where
  unfoldable pub lookup : Text → List (Text × V) → Option V
  lookup k [] = none
  lookup k ((j, v) ∷ m) = if text_eq k j then some v else lookup k m

  unfoldable pub insert : Text → V → List (Text × V) → List (Text × V)
  insert k v [] = (k, v) ∷ []
  insert k v ((j, w) ∷ m) = if text_eq k j then (k, v) ∷ m else (j, w) ∷ insert k v m

  pub lookup-insert :
      (k j : Text) (v : V) (m : List (Text × V))
      → lookup j (insert k v m) ≡ (if text_eq j k then some v else lookup j m)
  unfolding lookup insert
  lookup-insert k j v [] = ground arith
  lookup-insert k j v ((i, w) ∷ m) =
      ground (arith, text_eq_iff k i, text_eq_iff j k, text_eq_iff j i, lookup-insert k j v m)

  -- Writing what is there changes nothing.
  pub insert_same :
      (k : Text) (v : V) (m : List (Text × V)) → lookup k m ≡ some v → insert k v m ≡ m
  unfolding lookup insert
  insert_same k v [] h = cc
  insert_same k v ((j, w) ∷ m) h = ground (arith, text_eq_iff k j, insert_same k v m)

module _ {V : Type 0} where
  -- The entries that pass a test.
  unfoldable pub retain : (V → Bool) → List (Text × V) → List (Text × V)
  retain p [] = []
  retain p ((k, v) ∷ m) = let rest = retain p m in if p v then (k, v) ∷ rest else rest

  abbrev pub keys : List (Text × V) → List Text
  keys [] = []
  keys ((k, v) ∷ m) = k ∷ keys m

  -- No key has two entries.
  abbrev pub IsMap : List (Text × V) → Type 0
  IsMap m = (k : Text) → count k (keys m) ≤ 1

  is_some-lookup :
      (k : Text) (m : List (Text × V)) → is_some (lookup k m) ≡ ltb 0 (count k (keys m))
  unfolding lookup
  is_some-lookup k [] = refl
  is_some-lookup k ((j, v) ∷ m) = ground (arith, is_some-lookup k m)

  count-insert :
      (k j : Text) (v : V) (m : List (Text × V))
      → count j (keys (insert k v m)) ≡ (
          if text_eq j k
          then (if is_some (lookup k m) then count j (keys m) else 1 + count j (keys m))
          else count j (keys m))
  unfolding lookup insert
  count-insert k j v [] = ground arith
  count-insert k j v ((i, w) ∷ m) =
      ground (arith, count-insert k j v m, text_eq_iff k i, text_eq_iff j k, text_eq_iff j i)

  pub insert-IsMap : (k : Text) (v : V) (m : List (Text × V)) → IsMap m → IsMap (insert k v m)
  insert-IsMap k v m h j =
      ground (arith, count-insert k j v m, is_some-lookup k m, h j, text_eq_iff j k)

  count-retain :
      (p : V → Bool) (k : Text) (m : List (Text × V))
      → count k (keys (retain p m)) ≤ count k (keys m)
  unfolding retain
  count-retain p k [] = omega arith
  count-retain p k ((j, v) ∷ m) = ground (arith, count-retain p k m)

  pub retain-IsMap : (p : V → Bool) (m : List (Text × V)) → IsMap m → IsMap (retain p m)
  retain-IsMap p m h k = omega (arith, count-retain p k m, h k)

  abbrev pub kept : (V → Bool) → Option V → Option V
  kept p none = none
  kept p (some v) = if p v then some v else none

  pub lookup-retain :
      (p : V → Bool) (k : Text) (m : List (Text × V))
      → IsMap m
      → lookup k (retain p m) ≡ kept p (lookup k m)
  unfolding lookup retain
  lookup-retain p k [] h = refl
  lookup-retain p k ((j, v) ∷ m) h = ground (
    arith,
    lookup-retain p k m (λ i. omega (arith, h i)),
    h k,
    text_eq_iff k j,
    is_some-lookup k m,
  )
