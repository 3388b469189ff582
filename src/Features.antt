-- ===== src/Features.antt =====
-- internal/features/features.go: the unsafe feature gates. A set is a list without duplicates; Go
-- leaves its iteration order open, and `ids` sorts it away.
pub mod Gate
pub mod RoundTrip
mod Examples
use orkano.Prelude.{
  ℕ, Text, lit, text_eq, is_empty, join, List, [], ◌∷◌, ◌++◌, Option, Bool, true, false, not, ltb,
  if◌then◌else◌, any_of, select, is_some, Result, ok, err, quote,
}
use orkano.Prelude.Counts.{count}
use orkano.Prelude.Splitting.{split_on}
use orkano.Prelude.Trimming.{trim_space}
use orkano.Prelude.Sorting.{sort_texts}
use orkano.Api.{AppSpec, Source, BuildStrategy, strategy_nixpacks}

abbrev pub source_git : Text
source_git = lit "source.git"

abbrev pub source_zip : Text
source_zip = lit "source.zip"

abbrev pub build_nixpacks : Text
build_nixpacks = lit "build.nixpacks"

-- The ids of `definitions`, in display order.
abbrev pub definitions : List Text
definitions = source_git ∷ source_zip ∷ build_nixpacks ∷ []

-- `known`.
unfoldable pub is_known : Text → Bool
is_known id = any_of (text_eq id) definitions

pub record Set : Type 0 where
  pub enabled : List Text

abbrev pub no_features : Set
no_features = record { enabled = [] }

abbrev pub has : Text → List Text → Bool
has id ids = ltb 0 (count id ids)

-- `set.enabled[id] = struct{}{}`
unfoldable pub enable : Text → Set → Set
enable id s = record { enabled = if has id s.enabled then s.enabled else s.enabled ++ id ∷ [] }

unfoldable pub allowed_csv : Text
unfolding join sort_texts
allowed_csv = join (lit ",") (sort_texts definitions)

-- The loop of `Parse`.
unfoldable pub parse_from : List Text → Set → Result Text Set
unfolding is_known enable allowed_csv
parse_from [] set = ok set
parse_from (raw ∷ values) set =
    let id = trim_space raw in
    let rest = parse_from values (enable id set) in
    if is_empty id
    then err (lit "features: feature ID must not be empty")
    else if not (is_known id)
    then err (
        lit "features: unknown unsafe feature "
        ++ (quote id ++ (lit " (allowed: " ++ (allowed_csv ++ lit ")"))))
    else rest

unfoldable pub parse : List Text → Result Text Set
unfolding parse_from
parse values = parse_from values no_features

unfoldable pub parse_csv : Text → Result Text Set
unfolding parse
parse_csv value = if is_empty (trim_space value) then parse [] else parse (split_on b',' value)

unfoldable pub enabled : Set → Text → Bool
enabled s id = has id s.enabled

unfoldable pub ids : Set → List Text
ids s = sort_texts s.enabled

unfoldable pub csv : Set → Text
unfolding ids
csv s = join (lit ",") (ids s)

unfoldable pub required_for_app : AppSpec → List Text
required_for_app spec =
    (if is_some spec.source.git then source_git ∷ [] else [])
    ++ ((if is_some spec.source.upload then source_zip ∷ [] else [])
        ++ (if text_eq spec.build.strategy strategy_nixpacks then build_nixpacks ∷ [] else []))

unfoldable pub missing_for_app : Set → AppSpec → List Text
unfolding required_for_app enabled
missing_for_app s spec = select (λ id. not (enabled s id)) (required_for_app spec)

-- `DisabledError` carries the missing gates.
abbrev pub disabled : List Text → Result (List Text) (Unit {0})
disabled [] = ok tt
disabled (id ∷ ids) = err (id ∷ ids)

unfoldable pub validate_app : Set → AppSpec → Result (List Text) (Unit {0})
unfolding missing_for_app
validate_app s spec = disabled (missing_for_app s spec)

-- `DisabledError.Error`.
unfoldable pub disabled_message : List Text → Text
unfolding join
disabled_message ids = lit "features: required unsafe feature is disabled: " ++ join (lit ",") ids
