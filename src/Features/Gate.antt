-- ===== src/Features/Gate.antt =====
-- What the gates of internal/features/features.go let through.
use mathlib.Core.Path.{subst}
use orkano.Prelude.{
  ◌≤◌, ◌≡◌, ◌↔◌, refl, Text, text_eq, text_eq_iff, List, [], ◌∷◌, Bool, true, false, not, ◌||◌, ok,
  is_some, any_of, arith,
}
use orkano.Prelude.Counts.{count, count-append}
use orkano.Prelude.Trimming.{trim_space}
use orkano.Api.{AppSpec, strategy_nixpacks}
use orkano.Features.{
  Set, no_features, is_known, enable, parse, parse_from, enabled, required_for_app, missing_for_app,
  validate_app, source_git, source_zip, build_nixpacks,
}

enabled-enable : (id z : Text) (s : Set) → enabled (enable id s) z ≡ (text_eq z id || enabled s z)
unfolding enable enabled
enabled-enable id z s = ground (arith, count-append z s.enabled (id ∷ []), text_eq_iff z id)

enable-once :
    (id : Text) (s : Set)
    → ((z : Text) → count z s.enabled ≤ 1)
    → (z : Text) → count z (enable id s).enabled ≤ 1
unfolding enable
enable-once id s h z = ground (arith, count-append z s.enabled (id ∷ []), text_eq_iff z id, h z)

-- `z` is one of the values, trimmed.
abbrev pub listed : Text → List Text → Bool
listed z values = any_of (λ v. text_eq z (trim_space v)) values

parse_from_enabled :
    (values : List Text) (s : Set) {out : Set}
    → parse_from values s ≡ ok out
    → (z : Text) → enabled out z ≡ (listed z values || enabled s z)
unfolding parse_from
parse_from_enabled [] s {out} e z = let same : s ≡ out = ground arith in rw same refl
parse_from_enabled (v ∷ values) s {out} e z =
    let rest = parse_from_enabled values (enable (trim_space v) s) {out = out} (ground arith) z in
    ground (arith, rest, enabled-enable (trim_space v) z s)

parse_from_known :
    (values : List Text) (s : Set) {out : Set}
    → parse_from values s ≡ ok out
    → ((z : Text) → enabled s z ≡ true → is_known z ≡ true)
    → (z : Text) → enabled out z ≡ true
    → is_known z ≡ true
unfolding parse_from
parse_from_known [] s {out} e h z =
    let same : s ≡ out = ground arith in
    subst (λ t. enabled t z ≡ true → is_known z ≡ true) same (h z)
parse_from_known (v ∷ values) s e h z =
    parse_from_known values (enable (trim_space v) s) (ground arith)
      (λ y k. ground (arith, enabled-enable (trim_space v) y s, text_eq_iff y (trim_space v), h y))
      z

pub parse_from_once :
    (values : List Text) (s : Set) {out : Set}
    → parse_from values s ≡ ok out
    → ((z : Text) → count z s.enabled ≤ 1)
    → (z : Text) → count z out.enabled ≤ 1
unfolding parse_from
parse_from_once [] s {out} e h z =
    let same : s ≡ out = ground arith in subst (λ (t : Set). count z t.enabled ≤ 1) same (h z)
parse_from_once (v ∷ values) s e h z =
    parse_from_once values (enable (trim_space v) s) (ground arith) (enable-once (trim_space v) s h)
      z

empty : (z : Text) → enabled no_features z ≡ false
unfolding enabled
empty z = refl

pub record IsExact (values : List Text) (s : Set) : Type 0 where
  pub exactly : (z : Text) → enabled s z ≡ listed z values
  pub known : (z : Text) → enabled s z ≡ true → is_known z ≡ true
  pub once : (z : Text) → count z s.enabled ≤ 1

-- A set that `Parse` returns enables exactly the trimmed values that it was given, each of them a
-- known gate, and holds none twice.
pub parse-IsExact : (values : List Text) {s : Set} → parse values ≡ ok s → IsExact values s
unfolding parse
parse-IsExact values e = record {
  exactly = λ z. ground (arith, parse_from_enabled values no_features e z, empty z);
  known = parse_from_known values no_features e (λ z k. ground (arith, empty z));
  once = parse_from_once values no_features e (λ z. omega arith);
}

-- An app passes exactly when each gate that its source and its strategy need is enabled.
pub validate_app_iff :
    (s : Set) (spec : AppSpec)
    → (validate_app s spec ≡ ok tt) ↔ (
        ((not (is_some spec.source.git) || enabled s source_git) ≡ true)
        × ((not (is_some spec.source.upload) || enabled s source_zip) ≡ true)
        × ((not (text_eq spec.build.strategy strategy_nixpacks) || enabled s build_nixpacks)
            ≡ true))
unfolding validate_app missing_for_app required_for_app
validate_app_iff s spec = (λ e. (ground arith, ground arith, ground arith), λ h. ground arith)
