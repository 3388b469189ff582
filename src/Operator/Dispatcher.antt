-- ===== src/Operator/Dispatcher.antt =====
-- operator/internal/dispatcher/dispatcher.go and queue.go: deliveries of the queue become builds. The
-- only consumer is the leader, so the oldest row is the one that `ClaimNext` locks. `Answers` is what
-- the database, the Kubernetes API, GitHub and a Git server answer while one delivery is processed.
-- Parameters: SHA-256 in hex, and the Unicode part of `strings.ToLower`. Logging is left out.
pub mod Loop
pub mod Handling
pub mod Queueing
pub mod Creating
pub mod Builds
mod Examples
use orkano.Prelude.{
  ℕ, suc, zero, ◌+◌, ◌-◌, Text, lit, text_eq, is_empty, List, [], ◌∷◌, ◌++◌, Option, none, some,
  Bool, true, false, not, ◌&&◌, ◌||◌, ltb, leb, ◌==◌, if◌then◌else◌, length, take, all_of, any_of,
  select,
}
use orkano.Prelude.Cutting.{after, trim_prefix, trim_right_of}
use orkano.Prelude.Splitting.{split_on}
use orkano.Prelude.Trimming.{trim_space, to_lower}
use orkano.Api.{App, AppSpec, Source, Build, BuildStatus, BuildPhase, unset, succeeded, failed}
use orkano.Features.{Set, validate_app}

-- A claimed row.
pub record Delivery : Type 0 where
  pub id : ℕ
  pub delivery_id : Text
  pub repo : Text
  pub event_type : Text
  pub app_name : Text

-- What the API server stores of the operator's resources.
pub record Cluster : Type 0 where
  pub apps : List App
  pub builds : List Build

-- What resolving a ref gives: a commit, `ErrUnresolvable`, or any other error.
pub data Resolution : Type 0 where
  commit : Text → Resolution
  unresolvable : Resolution
  unreachable : Resolution

pub record Answers : Type 0 where
  pub claim_fails : Bool
  pub list_fails : Bool
  pub create_fails : Build → Bool
  pub ack_fails : Bool
  pub github : Option (Text → Text → Resolution)
  pub git : Option (Text → Text → Resolution)

abbrev pub is_hex : ℕ → Bool
is_hex c = leb b'0' c && leb c b'9' || leb b'a' c && leb c b'f'

abbrev pub is_alnum : ℕ → Bool
is_alnum c = leb b'a' c && leb c b'z' || leb b'0' c && leb c b'9'

-- `^manual-[0-9a-f]{32}$`
unfoldable pub manual_delivery_id : Text → Bool
unfolding after
manual_delivery_id s = elim (after (lit "manual-") s) [
  | none ↦ false
  | some rest ↦ all_of is_hex rest && length rest == 32
]

-- `[a-z0-9]([-a-z0-9]*[a-z0-9])?` to its end.
unfoldable pub is_label : Text → Bool
is_label [] = false
is_label (c ∷ []) = is_alnum c
is_label (c ∷ d ∷ s) = is_alnum c && inner d s
  where
    inner : ℕ → Text → Bool
    inner d [] = is_alnum d
    inner d (e ∷ s) = (is_alnum d || d == b'-') && inner e s

-- Such labels with dots between.
unfoldable pub manual_app_name : Text → Bool
unfolding is_label split_on
manual_app_name s = all_of is_label (split_on b'.' s)

unfoldable pub validate_delivery : Delivery → Bool
unfolding manual_delivery_id manual_app_name
validate_delivery d =
    not (is_empty d.repo)
    && (if text_eq d.event_type (lit "push")
        then not (is_empty d.delivery_id) && is_empty d.app_name
        else text_eq d.event_type (lit "manual")
          && manual_delivery_id d.delivery_id
          && manual_app_name d.app_name
          && leb (length d.app_name) 253)

abbrev pub resolve_with : Option (Text → Text → Resolution) → Text → Text → Resolution
resolve_with none url ref = unreachable
resolve_with (some resolver) url ref = resolver url ref

unfoldable pub resolve_commit : Answers → App → Resolution
unfolding trim_prefix
resolve_commit w app = elim app.spec.source.github [
  | some s ↦ resolve_with w.github s.repo s.ref
  | none ↦ elim app.spec.source.git [
    | some s ↦ resolve_with w.git s.url s.ref
    | none ↦ elim app.spec.source.upload [
      | some s ↦ commit (trim_prefix s.digest (lit "sha256:"))
      | none ↦ unresolvable
    ]
  ]
]

-- `buildFromApp`: the snapshot.
unfoldable pub build_from_app : App → Text → Text → Build
build_from_app app sha name = record {
  name = name;
  namespace = app.namespace;
  generation = 1;
  deleted = false;
  finalizers = [];
  labels = (lit "app.kubernetes.io/managed-by", lit "orkano") ∷ [];
  spec = record {
    app_name = app.name;
    commit = sha;
    source = app.spec.source;
    strategy = app.spec.build;
    timeout_seconds = 0;
  };
  status = record {
    observed_generation = 0;
    phase = unset;
    image = [];
    job_ref = none;
    started_at = none;
    completed_at = none;
    conditions = [];
  };
}

abbrev pub build_terminal : Build → Bool
build_terminal b = elim b.status.phase [ succeeded ↦ true | failed ↦ true | _ ↦ false ]

-- How many builds are not terminal.
unfoldable pub inflight : List Build → ℕ
inflight [] = 0
inflight (b ∷ bs) = (if build_terminal b then 0 else 1) + inflight bs

-- `budget`, where the builds can be listed; subtraction stops at 0.
unfoldable pub budget : ℕ → Cluster → ℕ
unfolding inflight
budget max_concurrent_builds c = max_concurrent_builds - inflight c.builds

abbrev pub is_dash_dot : ℕ → Bool
is_dash_dot c = c == b'-' || c == b'.'

module _ (sha256_hex : Text → Text) where
  unfoldable pub build_name_with_suffix : Text → Text → Text → Text
  build_name_with_suffix app_name sha suffix =
      let tail = take 12 sha ++ (if is_empty suffix then [] else lit "-" ++ suffix) in
      let name = app_name ++ (lit "-" ++ tail) in
      let hash = take 8 (sha256_hex app_name) in
      if leb (length name) 253
      then name
      else trim_right_of is_dash_dot (take (253 - length tail - length hash - 2) app_name)
        ++ (lit "-" ++ (hash ++ (lit "-" ++ tail)))

  unfoldable pub build_name : Text → Text → Text
  unfolding build_name_with_suffix
  build_name app_name sha = build_name_with_suffix app_name sha []

  unfoldable pub build_name_for_delivery : Text → Text → Delivery → Text
  unfolding build_name
  build_name_for_delivery app_name sha d =
      if text_eq d.event_type (lit "manual")
      then build_name_with_suffix app_name sha (lit "r" ++ take 8 (sha256_hex d.delivery_id))
      else build_name app_name sha
