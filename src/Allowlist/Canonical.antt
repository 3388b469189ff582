-- ===== src/Allowlist/Canonical.antt =====
-- The canonical form of the allowlist of internal/repoallowlist: what `Normalize` returns.
use orkano.Prelude.{
  ℕ, ◌+◌, suc, ◌≤◌, ◌≡◌, inl, inr, All-append, refl, ap, ◌∙◌, Text, is_empty, List, [], ◌∷◌, ◌++◌,
  map, Bool, true, false, not, ◌||◌, ◌==◌, ltb, if◌then◌else◌, length, all_of, arith, All, text_eq,
  text_eq_iff, Bool-cases, length-append,
}
use orkano.Prelude.Counts.{count, count-append}
use orkano.Prelude.Trimming.{trim_space, trim_space_graphic, is_graphic, to_lower, lower}
use orkano.Prelude.Splitting.{Lacks}
use orkano.Allowlist.{name_byte, owner_part, matches, add, max_repositories, max_repository_length}

-- An entry in the form in which the policy stores it.
pub record IsCanonical (s : Text) : Type 0 where
  pub named : matches s ≡ true
  pub fits : length s ≤ max_repository_length
  pub lowered : map lower s ≡ s

abbrev repo_byte : ℕ → Bool
repo_byte c = name_byte c || c == b'/'

name_byte-repo : (c : ℕ) → name_byte c ≡ true → repo_byte c ≡ true
name_byte-repo c h = ground arith

all_of_imp :
    (p q : ℕ → Bool)
    → ((c : ℕ) → p c ≡ true → q c ≡ true)
    → (s : Text) → all_of p s ≡ true
    → all_of q s ≡ true
all_of_imp p q i [] h = refl
all_of_imp p q i (c ∷ s) h = ground (arith, i c, all_of_imp p q i s)

bytes_of_owner_part : (b : Bool) (s : Text) → owner_part b s ≡ true → all_of repo_byte s ≡ true
unfolding owner_part
bytes_of_owner_part b [] h = refl
bytes_of_owner_part b (c ∷ s) h =
    ground (arith, bytes_of_owner_part true s, all_of_imp name_byte repo_byte name_byte-repo s)

bytes_of_matches : (s : Text) → matches s ≡ true → all_of repo_byte s ≡ true
unfolding matches
bytes_of_matches s h = bytes_of_owner_part false s h

name_byte-lower : (c : ℕ) → name_byte (lower c) ≡ name_byte c
unfolding name_byte lower
name_byte-lower c = ground arith

slash-lower : (c : ℕ) → (lower c == b'/') ≡ (c == b'/')
unfolding lower
slash-lower c = ground arith

lower-lower : (c : ℕ) → lower (lower c) ≡ lower c
unfolding lower
lower-lower c = ground arith

repo_byte-graphic : (c : ℕ) → repo_byte c ≡ true → is_graphic c ≡ true
unfolding name_byte
repo_byte-graphic c h = ground arith

repo_byte-ascii : (c : ℕ) → repo_byte c ≡ true → ltb c 128 ≡ true
unfolding name_byte
repo_byte-ascii c h = ground arith

repo_byte-newline : (c : ℕ) → repo_byte c ≡ true → not (c == b'\n') ≡ true
unfolding name_byte
repo_byte-newline c h = ground arith

map-lower-map-lower : (s : Text) → map lower (map lower s) ≡ map lower s
map-lower-map-lower [] = refl
map-lower-map-lower (c ∷ s) = ground (arith, lower-lower c, map-lower-map-lower s)

all_name_lower : (s : Text) → all_of name_byte (map lower s) ≡ all_of name_byte s
all_name_lower [] = refl
all_name_lower (c ∷ s) = ground (arith, name_byte-lower c, all_name_lower s)

owner_part-lower : (b : Bool) (s : Text) → owner_part b (map lower s) ≡ owner_part b s
unfolding owner_part
owner_part-lower b [] = refl
owner_part-lower b (c ∷ s) = elim (Bool-cases (c == b'/')) [
  | inl e ↦ ground (arith, slash-lower c, all_name_lower s, empty s)
  | inr e ↦ ground (arith, slash-lower c, name_byte-lower c, owner_part-lower true s)
]
  where
    empty : (s : Text) → is_empty (map lower s) ≡ is_empty s
    empty [] = refl
    empty (c ∷ s) = refl

matches-lower : (s : Text) → matches (map lower s) ≡ matches s
unfolding matches
matches-lower s = owner_part-lower false s

length-lower : (s : Text) → length (map lower s) ≡ length s
length-lower [] = refl
length-lower (c ∷ s) = ap suc (length-lower s)

to_lower_of_matches : (u : Text → Text) (s : Text) → matches s ≡ true → to_lower u s ≡ map lower s
unfolding to_lower
to_lower_of_matches u s h =
    ground (arith, all_of_imp repo_byte (λ c. ltb c 128) repo_byte-ascii s (bytes_of_matches s h))

pub IsCanonical-of_entry :
    (u : Text → Text) (s : Text)
    → matches s ≡ true
    → length s ≤ max_repository_length
    → IsCanonical (to_lower u s)
IsCanonical-of_entry u s m l = rw (to_lower_of_matches u s m) (record {
  named = matches-lower s ∙ m;
  fits = omega (arith, l, length-lower s);
  lowered = map-lower-map-lower s;
})

module _ (u : Text → Text) where
  pub to_lower_canonical : (s : Text) → IsCanonical s → to_lower u s ≡ s
  to_lower_canonical s c = to_lower_of_matches u s c.named ∙ c.lowered

  pub trim_canonical : (s : Text) → IsCanonical s → trim_space s ≡ s
  trim_canonical s c =
      trim_space_graphic s
        (all_of_imp repo_byte is_graphic repo_byte-graphic s (bytes_of_matches s c.named))

  pub Lacks-newline : (s : Text) → IsCanonical s → Lacks b'\n' s
  Lacks-newline s c =
      all_of_imp repo_byte (λ x. not (x == b'\n')) repo_byte-newline s (bytes_of_matches s c.named)

-- The policy entries that some lines stand for: the lines that are not blank, trimmed, in lower case.
abbrev pub entry : (Text → Text) → Text → List Text
entry u t = if is_empty t then [] else to_lower u t ∷ []

abbrev pub entries : (Text → Text) → List Text → List Text
entries u [] = []
entries u (r ∷ rs) = entry u (trim_space r) ++ entries u rs

-- The set while `Normalize` reads its lines.
pub record Collected (n : ℕ) (set : List Text) : Type 0 where
  pub once : (z : Text) → count z set ≤ 1
  pub canonical : All IsCanonical set
  pub few : length set ≤ n
  pub bounded : n ≤ max_repositories

pub count-add :
    (z x : Text) (set : List Text)
    → count z (add x set)
      ≡ (if text_eq z x then (if ltb 0 (count x set) then count x set else 1) else count z set)
unfolding add
count-add z x set = ground (arith, count-append z set (x ∷ []), text_eq_iff z x)

pub add-Collected :
    (n : ℕ) (x : Text) (set : List Text)
    → IsCanonical x
    → n + 1 ≤ max_repositories
    → Collected n set
    → Collected (n + 1) (add x set)
add-Collected n x set c l h = record {
  once = λ z. ground (arith, count-add z x set, h.once z, h.once x);
  canonical = add_canonical (ltb 0 (count x set)) refl;
  few = unfold add in ground (arith, h.few, length-append set (x ∷ []));
  bounded = l;
}
  where
    add_canonical : (b : Bool) → ltb 0 (count x set) ≡ b → All IsCanonical (add x set)
    add_canonical true e = unfold add in rw e h.canonical
    add_canonical false e =
        unfold add in rw e (All-append IsCanonical set (x ∷ []) h.canonical (c, tt))
