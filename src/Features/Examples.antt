-- ===== src/Features/Examples.antt =====
-- The gates of internal/features/features.go on two values, and the theorems on them.
use orkano.Prelude.{
  ◌≡◌, ◌↔◌, refl, Text, lit, text_eq, join, List, [], ◌∷◌, none, some, true, not, ◌||◌, is_some, ok,
  err,
}
use orkano.Prelude.Trimming.{trim_space}
use orkano.Prelude.Sorting.{sort_texts, less}
use orkano.Api.{AppSpec, strategy_nixpacks}
use orkano.Features.{
  Set, is_known, parse, parse_csv, enabled, ids, csv, validate_app, source_git, source_zip,
  build_nixpacks, disabled_message,
}
use orkano.Features.Gate.{validate_app_iff}
use orkano.Features.RoundTrip.{parse_csv-csv}

abbrev values : List Text
values = lit " source.git " ∷ lit "build.nixpacks" ∷ lit "source.git" ∷ []

abbrev set : Set
set = record { enabled = lit "source.git" ∷ lit "build.nixpacks" ∷ [] }

abbrev zip_app : AppSpec
zip_app = record {
  source = record {
    github = none;
    git = some (record { url = lit "https://a"; ref = [] });
    upload = none;
    sub_path = [];
  };
  build = record {
    strategy = lit "Nixpacks";
    dockerfile_path = none;
    static_dir = none;
    nixpacks_config_path = none;
  };
}

abbrev only_git : Set
only_git = record { enabled = lit "source.git" ∷ [] }

parse-values : parse values ≡ ok set
unfolding parse is_known trim_space text_eq
parse-values = refl

csv-set : csv set ≡ lit "build.nixpacks,source.git"
unfolding csv sort_texts less join
csv-set = refl

refused : validate_app only_git zip_app ≡ err (lit "build.nixpacks" ∷ [])
unfolding validate_app text_eq
refused = refl

message :
    disabled_message (lit "source.zip" ∷ [])
    ≡ lit "features: required unsafe feature is disabled: source.zip"
unfolding disabled_message
message = refl

parse_csv-csv_example : parse_csv (csv set) ≡ ok (record { enabled = ids set })
parse_csv-csv_example = parse_csv-csv values parse-values

validate_app_iff_example : (validate_app set zip_app ≡ ok tt) ↔ (
    ((not (is_some zip_app.source.git) || enabled set source_git) ≡ true)
    × ((not (is_some zip_app.source.upload) || enabled set source_zip) ≡ true)
    × ((not (text_eq zip_app.build.strategy strategy_nixpacks) || enabled set build_nixpacks)
        ≡ true))
validate_app_iff_example = validate_app_iff set zip_app
