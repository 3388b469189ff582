-- ===== src/Prelude/Trimming.antt =====
-- `strings.TrimSpace` and `strings.ToLower` on the bytes of a string.
use Prim.Native.Nat.{ℕ, ◌+◌}
use mathlib.Core.Path.{◌≡◌, refl, ◌∙◌}
use mathlib.Core.Bool.{Bool, true, ◌&&◌, ◌||◌}
use mathlib.Core.List.{[], ◌∷◌, ◌++◌, map, reverse, reverse-reverse, reverse-cons}
use native.Mathlib.Omega.{arith}
use orkano.Prelude.Tests.{◌==◌, ltb, leb, if◌then◌else◌}
use orkano.Prelude.Lists.{all_of}
use orkano.Prelude.Strings.{Text}

-- `unicode.IsSpace` by the length of a character's UTF-8 encoding.
abbrev pub is_space : ℕ → Bool
is_space c = c == 32 || (leb 9 c && leb c 13)

-- U+0085 and U+00A0.
abbrev is_space_2 : ℕ → ℕ → Bool
is_space_2 a b = a == 194 && (b == 133 || b == 160)

-- U+1680, U+2000 to U+200A, U+2028, U+2029, U+202F, U+205F and U+3000.
abbrev is_space_3 : ℕ → ℕ → ℕ → Bool
is_space_3 a b c =
    (a == 225 && b == 154 && c == 128)
    || (a == 226 && b == 128 && ((leb 128 c && leb c 138) || c == 168 || c == 169 || c == 175))
    || (a == 226 && b == 129 && c == 159)
    || (a == 227 && b == 128 && c == 128)

-- The white space at the front taken off.
unfoldable pub trim_front : Text → Text
trim_front [] = []
trim_front (a ∷ []) = if is_space a then [] else a ∷ []
trim_front (a ∷ b ∷ []) =
    let one = trim_front (b ∷ []) in
    if is_space a then one else if is_space_2 a b then [] else a ∷ b ∷ []
trim_front (a ∷ b ∷ c ∷ s) =
    let one = trim_front (b ∷ c ∷ s) in
    let two = trim_front (c ∷ s) in
    let three = trim_front s in
    if is_space a
    then one
    else if is_space_2 a b
    then two
    else if is_space_3 a b c
    then three
    else a ∷ b ∷ c ∷ s

-- The same from the end, on the reversed text.
unfoldable pub trim_back : Text → Text
trim_back [] = []
trim_back (a ∷ []) = if is_space a then [] else a ∷ []
trim_back (b ∷ a ∷ []) =
    let one = trim_back (a ∷ []) in
    if is_space b then one else if is_space_2 a b then [] else b ∷ a ∷ []
trim_back (c ∷ b ∷ a ∷ s) =
    let one = trim_back (b ∷ a ∷ s) in
    let two = trim_back (a ∷ s) in
    let three = trim_back s in
    if is_space c
    then one
    else if is_space_2 b c
    then two
    else if is_space_3 a b c
    then three
    else c ∷ b ∷ a ∷ s

-- `strings.TrimSpace`.
unfoldable pub trim_space : Text → Text
unfolding trim_front trim_back
trim_space s = reverse (trim_back (reverse (trim_front s)))

-- A printable ASCII byte that is no space.
abbrev pub is_graphic : ℕ → Bool
is_graphic c = leb 33 c && leb c 126

trim_front_graphic : (s : Text) → all_of is_graphic s ≡ true → trim_front s ≡ s
unfolding trim_front
trim_front_graphic [] h = refl
trim_front_graphic (a ∷ []) h = ground arith
trim_front_graphic (a ∷ b ∷ []) h = ground arith
trim_front_graphic (a ∷ b ∷ c ∷ s) h = ground arith

trim_back_graphic : (s : Text) → all_of is_graphic s ≡ true → trim_back s ≡ s
unfolding trim_back
trim_back_graphic [] h = refl
trim_back_graphic (a ∷ []) h = ground arith
trim_back_graphic (b ∷ a ∷ []) h = ground arith
trim_back_graphic (c ∷ b ∷ a ∷ s) h = ground arith

pub all_of-append : (p : ℕ → Bool) (s t : Text) → all_of p (s ++ t) ≡ (all_of p s && all_of p t)
all_of-append p [] t = refl
all_of-append p (a ∷ s) t = ground (arith, all_of-append p s t)

all_of-reverse : (p : ℕ → Bool) (s : Text) → all_of p (reverse s) ≡ all_of p s
all_of-reverse p [] = refl
all_of-reverse p (a ∷ s) =
    rw (reverse-cons) (ground (arith, all_of-append p (reverse s) (a ∷ []), all_of-reverse p s))

-- A text without white space is left as it is.
pub trim_space_graphic : (s : Text) → all_of is_graphic s ≡ true → trim_space s ≡ s
unfolding trim_space
trim_space_graphic s h =
    rw (trim_front_graphic s h)
      (rw (trim_back_graphic (reverse s) (all_of-reverse is_graphic s ∙ h)) (reverse-reverse s))

-- One ASCII letter in lower case.
unfoldable pub lower : ℕ → ℕ
lower c = if leb 65 c && leb c 90 then c + 32 else c

abbrev pub is_ascii : Text → Bool
is_ascii s = all_of (λ c. ltb c 128) s

-- `strings.ToLower`: an ASCII text is mapped byte by byte; `unicode_lower` stands for the mapping by
-- the Unicode tables, which is made for any other text.
unfoldable pub to_lower : (Text → Text) → Text → Text
unfolding lower
to_lower unicode_lower s = if is_ascii s then map lower s else unicode_lower s
