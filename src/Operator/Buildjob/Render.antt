-- ===== src/Operator/Buildjob/Render.antt =====
-- `Render` of operator/internal/buildjob/job.go: the job that runs a build.
use orkano.Prelude.{
  Text, lit, is_empty, quote, List, [], ◌∷◌, ◌++◌, Option, none, some, Bool, false, not, ◌&&◌, ◌||◌,
  ◌==◌, if◌then◌else◌, is_some, Result, ok, ◌>>◌, guard,
}
use orkano.Prelude.Cutting.{trim_of}
use orkano.Api.{Build}
use orkano.Operator.Buildjob.{
  namespace, default_timeout_seconds, annotation_build_name, annotation_build_namespace,
  LocalSource, Invocation, RenderedJob, is_slash, job_name,
}

module _ (sha256_hex : Text → Text) where
  abbrev pub annotations_of : Build → List (Text × Text)
  annotations_of b =
      (annotation_build_name, b.name) ∷ (annotation_build_namespace, b.namespace) ∷ []

  abbrev pub local_path : LocalSource → Text
  local_path src =
      let sub = trim_of is_slash src.sub_path in
      lit "/workspace/source" ++ (if is_empty sub then [] else lit "/" ++ sub)

  -- The arguments for the Dockerfile.
  unfoldable pub dockerfile_args : Invocation → List Text
  dockerfile_args inv =
      if not (is_empty inv.generated_dockerfile)
      then lit "--local=dockerfile=/orkano-dockerfile"
        ∷ lit "--opt=dockerfilekey=dockerfile"
        ∷ lit "--opt=filename=Dockerfile"
        ∷ []
      else if is_empty inv.dockerfile_path
      then []
      else elim inv.local_source [
        | none ↦ (lit "--opt=filename=" ++ inv.dockerfile_path) ∷ []
        | some src ↦
            (lit "--local=dockerfile=" ++ local_path src)
            ∷ (lit "--opt=filename=" ++ inv.dockerfile_path)
            ∷ []
      ]

  unfoldable pub render_args : Invocation → List Text
  unfolding dockerfile_args
  render_args inv =
      lit "build"
      ∷ lit "--frontend=dockerfile.v0"
      ∷ elim inv.local_source [
        | none ↦ lit "--opt=context=" ++ inv.context_url
        | some src ↦ lit "--local=context=" ++ local_path src
      ]
      ∷ (dockerfile_args inv
          ++ (lit "--output=type=image,name=" ++ (inv.image_ref ++ lit ",push=true")) ∷ [])

  abbrev pub archived : Option LocalSource → Bool
  archived none = false
  archived (some src) = not (is_empty src.archive_digest)

  unfoldable pub render : Text → Build → Invocation → Result Text RenderedJob
  unfolding job_name render_args
  render source_fetcher_image b inv = do
    guard (not (is_empty b.name || is_empty b.namespace))
        (lit "rendering build Job: Build has no name or namespace")
    guard
        ((if is_empty inv.context_url
            then is_some inv.local_source
            else not (is_some inv.local_source))
          && not (is_empty inv.image_ref))
        (lit "rendering build Job for "
          ++ (quote b.name ++ lit ": exactly one source context and ImageRef are required"))
    guard (not inv.nixpacks || is_some inv.local_source) (
        lit "rendering build Job for "
        ++ (quote b.name ++ lit ": Nixpacks requires a local source"))
    guard (not (archived inv.local_source && is_empty source_fetcher_image)) (
        lit "rendering build Job for "
        ++ (quote b.name ++ lit ": SourceFetcherImage is required for ZIP sources"))
    ok (record {
      name = job_name sha256_hex b.name;
      namespace = namespace;
      annotations = annotations_of b;
      active_deadline_seconds =
          if b.spec.timeout_seconds == 0 then default_timeout_seconds else b.spec.timeout_seconds;
      args = render_args inv;
    })
