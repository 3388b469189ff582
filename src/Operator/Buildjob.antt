-- ===== src/Operator/Buildjob.antt =====
-- operator/internal/buildjob/job.go: what a build runs. `Compose` is modelled whole; of the job that
-- `Render` returns, its name, namespace, annotations, deadline and BuildKit arguments, with every
-- refusal, but not its volumes, init containers, resources and security context. The parameter is
-- SHA-256 in hex, of which 8 digits are the first 4 bytes.
pub mod Render
pub mod Agreement
mod Examples
use orkano.Prelude.{
  ℕ, ◌+◌, ◌≤◌, Text, lit, text_eq, is_empty, quote, List, [], ◌∷◌, ◌++◌, Option, none, some, Bool,
  true, false, not, ◌&&◌, ◌||◌, ltb, leb, ◌==◌, if◌then◌else◌, length, take, is_some, Result, ok,
  err, ◌>>=◌, ◌>>◌, guard,
}
use orkano.Prelude.Cutting.{trim_prefix, trim_of, trim_right_of}
use orkano.Api.{
  Build, BuildSpec, BuildStrategy, Source, GitHubSource, GitSource, UploadSource, strategy_nixpacks,
}

abbrev pub namespace : Text
namespace = lit "orkano-builds"

abbrev pub registry_host : Text
registry_host = lit "orkano-registry.orkano-system.svc.cluster.local"

abbrev pub default_timeout_seconds : ℕ
default_timeout_seconds = 900

abbrev pub annotation_build_name : Text
annotation_build_name = lit "orkano.io/build-name"

abbrev pub annotation_build_namespace : Text
annotation_build_namespace = lit "orkano.io/build-namespace"

abbrev pub static_server_image : Text
static_server_image =
    lit
      "nginxinc/nginx-unprivileged:1.30-alpine-slim@sha256:bcb4860e2d7877cf140e4c945f5f9cb304ccb5efbe1dd4fa606a2206142241bf"

pub record LocalSource : Type 0 where
  pub git_url : Text
  pub commit : Text
  pub archive_digest : Text
  pub app_name : Text
  pub sub_path : Text

pub record Invocation : Type 0 where
  pub context_url : Text
  pub local_source : Option LocalSource
  pub dockerfile_path : Text
  pub generated_dockerfile : Text
  pub image_ref : Text
  pub nixpacks : Bool
  pub nixpacks_config_path : Text

-- `batchv1.Job` as it is rendered.
pub record RenderedJob : Type 0 where
  pub name : Text
  pub namespace : Text
  pub annotations : List (Text × Text)
  pub active_deadline_seconds : ℕ
  pub args : List Text

abbrev pub is_slash : ℕ → Bool
is_slash c = c == b'/'

unfoldable pub static_dockerfile : Text → Text
static_dockerfile dir =
    lit "FROM "
    ++ (static_server_image
        ++ (lit "\nCOPY " ++ (trim_right_of is_slash dir ++ lit "/ /usr/share/nginx/html/\n")))

-- The clone URL: the last of the sources that are set.
unfoldable pub git_url : Text → Source → Text
git_url git_base_url src = elim src.git [
  | some g ↦ g.url
  | none ↦ elim src.github [
    | some h ↦
        (if is_empty git_base_url then lit "https://github.com/" else git_base_url)
        ++ (h.repo ++ lit ".git")
    | none ↦ []
  ]
]

abbrev pub one_if : Bool → ℕ
one_if b = if b then 1 else 0

unfoldable pub source_count : Source → ℕ
source_count src =
    one_if (is_some src.github) + (one_if (is_some src.git) + one_if (is_some src.upload))

-- The switch on the strategy.
unfoldable pub with_strategy : BuildStrategy → Invocation → Result Text Invocation
unfolding static_dockerfile
with_strategy s inv =
    if text_eq s.strategy (lit "Dockerfile")
    then (if is_some s.static_dir || is_some s.nixpacks_config_path
        then err (lit "compose build invocation: Dockerfile strategy has mismatched members")
        else ok (record inv {
          dockerfile_path = elim s.dockerfile_path [
            | none ↦ lit "Dockerfile"
            | some path ↦ if is_empty path then lit "Dockerfile" else path
          ];
        }))
    else if text_eq s.strategy (lit "Static")
    then elim s.static_dir [
      | none ↦ err (lit "compose build invocation: Static strategy requires only the static member")
      | some dir ↦
          if is_some s.dockerfile_path || is_some s.nixpacks_config_path
          then err (lit "compose build invocation: Static strategy requires only the static member")
          else ok (record inv { generated_dockerfile = static_dockerfile dir })
    ]
    else if text_eq s.strategy strategy_nixpacks
    then elim s.nixpacks_config_path [
      | none ↦
          err (lit "compose build invocation: Nixpacks strategy requires only the nixpacks member")
      | some path ↦
          if is_some s.dockerfile_path || is_some s.static_dir
          then err
              (lit "compose build invocation: Nixpacks strategy requires only the nixpacks member")
          else ok (record inv {
            nixpacks = true;
            nixpacks_config_path = path;
            dockerfile_path = lit ".nixpacks/Dockerfile";
          })
    ]
    else err (lit "compose build invocation: unsupported strategy " ++ quote s.strategy)

module _ (sha256_hex : Text → Text) where
  unfoldable pub build_image_tag : Build → Text
  build_image_tag b =
      let identity =
        if is_empty b.name
        then b.spec.app_name ++ (lit "/" ++ b.spec.commit)
        else b.namespace ++ (lit "/" ++ b.name) in
      take 12 b.spec.commit ++ (lit "-" ++ sha256_hex identity)

  -- The git context: nothing for an upload, else the commit and the path inside it.
  unfoldable pub context_url : Text → Build → Text
  unfolding git_url
  context_url git_base_url b =
      let url = git_url git_base_url b.spec.source in
      let sub = trim_of is_slash b.spec.source.sub_path in
      if is_empty url
      then []
      else url ++ (lit "#" ++ (b.spec.commit ++ (if is_empty sub then [] else lit ":" ++ sub)))

  abbrev pub upload_digest : Source → Text
  upload_digest src = elim src.upload [ none ↦ [] | some u ↦ u.digest ]

  unfoldable pub invocation : Text → Build → Invocation
  unfolding context_url build_image_tag
  invocation git_base_url b =
      let src = b.spec.source in
      let needs_local = is_some src.upload || text_eq b.spec.strategy.strategy strategy_nixpacks in
      record {
        context_url = if needs_local then [] else context_url git_base_url b;
        local_source =
            if needs_local
            then some (record {
              git_url = git_url git_base_url src;
              commit = b.spec.commit;
              archive_digest = upload_digest src;
              app_name = b.spec.app_name;
              sub_path = src.sub_path;
            })
            else none;
        dockerfile_path = [];
        generated_dockerfile = [];
        image_ref =
            registry_host ++ (lit "/" ++ (b.spec.app_name ++ (lit ":" ++ build_image_tag b)));
        nixpacks = false;
        nixpacks_config_path = [];
      }

  unfoldable pub compose : Text → Build → Result Text Invocation
  unfolding invocation source_count with_strategy trim_prefix
  compose git_base_url b = do
    guard
        (not (is_some b.spec.source.upload)
          || text_eq (trim_prefix (upload_digest b.spec.source) (lit "sha256:")) b.spec.commit)
        (lit "compose build invocation: upload digest does not match Build commit")
    guard (source_count b.spec.source == 1)
        (lit "compose build invocation: exactly one source is required")
    with_strategy b.spec.strategy (invocation git_base_url b)

  abbrev pub is_dash_dot : ℕ → Bool
  is_dash_dot c = c == b'-' || c == b'.'

  unfoldable pub job_name : Text → Text
  job_name build_name =
      if leb (length build_name) 63
      then build_name
      else trim_right_of is_dash_dot (take 54 build_name)
        ++ (lit "-" ++ take 8 (sha256_hex build_name))
