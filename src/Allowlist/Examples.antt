-- ===== src/Allowlist/Examples.antt =====
-- The allowlist of internal/repoallowlist on three lines, and the theorems on them.
use orkano.Prelude.{◌≡◌, refl, Text, lit, List, [], ◌∷◌, ok, text_eq, join}
use orkano.Allowlist.{matches, name_byte, normalize, parse, format}
use orkano.Allowlist.Policy.{IsPolicy, normalize-IsPolicy}
use orkano.Allowlist.RoundTrip.{parse-format}
use orkano.Prelude.Trimming.{trim_space, to_lower}
use orkano.Prelude.Sorting.{sort_texts, less}

abbrev plain : Text → Text
plain s = s

abbrev typed : List Text
typed = lit " Zed/app " ∷ lit "acme/Web\t" ∷ lit "ACME/web" ∷ lit "  " ∷ []

abbrev policy : List Text
policy = lit "acme/web" ∷ lit "zed/app" ∷ []

normalize-typed : normalize plain typed ≡ ok policy
unfolding normalize matches name_byte trim_space to_lower sort_texts less text_eq
normalize-typed = refl

format-typed : format plain typed ≡ ok (lit "acme/web\nzed/app\n")
unfolding format matches name_byte join trim_space to_lower sort_texts less text_eq
format-typed = refl

normalize-IsPolicy_example : IsPolicy plain typed policy
normalize-IsPolicy_example = normalize-IsPolicy plain typed normalize-typed

parse-format_example :
    (out : List Text) × (normalize plain typed ≡ ok out)
    × (parse plain (lit "acme/web\nzed/app\n") ≡ ok out)
parse-format_example = parse-format plain typed format-typed
