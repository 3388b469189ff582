-- ===== src/Prelude/Strings.antt =====
-- Go strings as lists of bytes, with the operations of package strings that the program calls.
use Prim.Native.Nat.{ℕ, ◌+◌, ◌/◌, ◌%◌}
use Prim.Native.Char.{code}
use Prim.Native.String.{String}
use mathlib.Core.Path.{◌≡◌, refl}
use mathlib.Core.Logic.{◌↔◌}
use mathlib.Core.Bool.{Bool, true, false, ◌&&◌, ◌||◌}
use mathlib.Core.List.{List, [], ◌∷◌, ◌++◌, flat_map}
use native.Mathlib.Omega.{arith}
use orkano.Prelude.Tests.{◌==◌, ltb, if◌then◌else◌}

-- A Go string is a sequence of bytes.
abbrev pub Text : Type 0
Text = List ℕ

-- An ASCII literal.
abbrev pub lit : String → Text
lit String.[] = []
lit (String.◌∷◌ c s) = code c ∷ lit s

-- `a == b` on strings.
unfoldable pub text_eq : Text → Text → Bool
text_eq [] [] = true
text_eq [] (_ ∷ _) = false
text_eq (_ ∷ _) [] = false
text_eq (a ∷ s) (b ∷ t) = a == b && text_eq s t

text_eq_sound : (s t : Text) → text_eq s t ≡ true → s ≡ t
unfolding text_eq
text_eq_sound [] [] h = refl
text_eq_sound [] (_ ∷ _) h = cc
text_eq_sound (_ ∷ _) [] h = cc
text_eq_sound (a ∷ s) (b ∷ t) h = ground (arith, text_eq_sound s t)

pub text_eq_refl : (s : Text) → text_eq s s ≡ true
unfolding text_eq
text_eq_refl [] = refl
text_eq_refl (a ∷ s) = ground (arith, text_eq_refl s)

text_eq_complete : (s t : Text) → s ≡ t → text_eq s t ≡ true
text_eq_complete s t e = rw e (text_eq_refl t)

pub text_eq_iff : (s t : Text) → (text_eq s t ≡ true) ↔ (s ≡ t)
text_eq_iff s t = (text_eq_sound s t, text_eq_complete s t)

abbrev pub is_empty : Text → Bool
is_empty [] = true
is_empty (_ ∷ _) = false

-- `strings.Join(parts, sep)`.
unfoldable pub join : Text → List Text → Text
join sep [] = []
join sep (p ∷ []) = p
join sep (p ∷ q ∷ ps) = p ++ (sep ++ join sep (q ∷ ps))

-- The `[a b]` that the verb %v prints for a slice of strings.
unfoldable pub show_list : List Text → Text
unfolding join
show_list parts = lit "[" ++ join (lit " ") parts ++ lit "]"

hex_digit : ℕ → ℕ
hex_digit d = if ltb d 10 then 48 + d else 87 + d

-- One byte of `strconv.Quote`. Bytes of a multi-byte character are copied, as they are in Go where
-- the character is printable.
quote_byte : ℕ → Text
unfolding hex_digit
quote_byte c =
    if c == 34 || c == 92
    then 92 ∷ c ∷ []
    else if c == 7
    then lit "\\a"
    else if c == 8
    then lit "\\b"
    else if c == 12
    then lit "\\f"
    else if c == 10
    then lit "\\n"
    else if c == 13
    then lit "\\r"
    else if c == 9
    then lit "\\t"
    else if c == 11
    then lit "\\v"
    else if ltb c 32 || c == 127
    then lit "\\x" ++ hex_digit (c / 16) ∷ hex_digit (c % 16) ∷ []
    else c ∷ []

-- The verb %q on a string.
unfoldable pub quote : Text → Text
unfolding quote_byte
quote s = 34 ∷ (flat_map quote_byte s ++ 34 ∷ [])
