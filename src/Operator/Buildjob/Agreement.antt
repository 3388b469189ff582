-- ===== src/Operator/Buildjob/Agreement.antt =====
-- `Compose`, `Render` and `JobName` of operator/internal/buildjob/job.go.
use orkano.Prelude.{
  ◌<◌, ◌≡◌, refl, ap, ◌∙◌, Text, lit, text_eq, is_empty, [], ◌∷◌, ◌++◌, some, true, false, not,
  ◌&&◌, ◌||◌, ◌==◌, if◌then◌else◌, is_some, ok, arith, inl, inr, Bool-cases, Option-cases,
}
use orkano.Prelude.Cutting.{trim_of}
use orkano.Api.{Build, Source, GitSource, strategy_nixpacks}
use orkano.Operator.Buildjob.{
  Invocation, RenderedJob, namespace, job_name, with_strategy, invocation, context_url, git_url,
  source_count, compose, default_timeout_seconds,
}
use orkano.Operator.Buildjob.Render.{render, render_args, archived, annotations_of}

module _ (sha256_hex : Text → Text) where
  record Base (b : Build) (base inv : Invocation) : Type 0 where
    context : inv.context_url ≡ base.context_url
    local : inv.local_source ≡ base.local_source
    image : inv.image_ref ≡ base.image_ref
    nixpacks : inv.nixpacks ≡ true → text_eq b.spec.strategy.strategy strategy_nixpacks ≡ true

  strategy_Base :
      (b : Build) (base : Invocation) {inv : Invocation}
      → base.nixpacks ≡ false
      → with_strategy b.spec.strategy base ≡ ok inv
      → Base b base inv
  unfolding with_strategy
  strategy_Base b base n e = record {
    context = ground arith;
    local = ground arith;
    image = ground arith;
    nixpacks = λ k. ground arith;
  }

  nonempty_append : (s t : Text) → is_empty s ≡ false → is_empty (s ++ t) ≡ false
  nonempty_append [] t h = cc
  nonempty_append (c ∷ s) t h = refl

  github_nonempty : (base repo : Text) → is_empty (base ++ (repo ++ lit ".git")) ≡ false
  github_nonempty [] [] = refl
  github_nonempty [] (c ∷ repo) = refl
  github_nonempty (c ∷ base) repo = refl

  git_url_nonempty :
      (base : Text) (src : Source)
      → ((g : GitSource) → src.git ≡ some g → is_empty g.url ≡ false)
      → is_some src.upload ≡ false
      → source_count src ≡ 1
      → is_empty (git_url base src) ≡ false
  unfolding git_url source_count
  git_url_nonempty base src urls u one = elim (Option-cases src.git) [
    | inr (g, e) ↦ ground (arith, urls g e)
    | inl n ↦ elim (Option-cases src.github) [
      | inl m ↦ ground arith
      | inr (h, e) ↦
          ground
            (arith, github_nonempty base h.repo, github_nonempty (lit "https://github.com/") h.repo)
    ]
  ]

  context_nonempty :
      (base : Text) (b : Build)
      → is_empty (git_url base b.spec.source) ≡ false
      → is_empty (context_url sha256_hex base b) ≡ false
  unfolding context_url
  context_nonempty base b h =
      let url = git_url base b.spec.source in
      let sub = trim_of (λ c. c == b'/') b.spec.source.sub_path in
      ground (
        arith,
        nonempty_append url
            (lit "#" ++ (b.spec.commit ++ (if is_empty sub then [] else lit ":" ++ sub))) h,
      )

  -- The base has a context or a local source, and just one of them.
  one_context :
      (base : Text) (b : Build)
      → ((g : GitSource) → b.spec.source.git ≡ some g → is_empty g.url ≡ false)
      → source_count b.spec.source ≡ 1
      → let i = invocation sha256_hex base b in
        (if is_empty i.context_url then is_some i.local_source else not (is_some i.local_source))
        ≡ true
  unfolding invocation
  one_context base b urls one =
      elim (Bool-cases
        (is_some b.spec.source.upload || text_eq b.spec.strategy.strategy strategy_nixpacks)) [
          | inl local ↦ rw local refl
          | inr remote ↦
              let full =
                context_nonempty base b
                  (git_url_nonempty base b.spec.source urls (ground arith) one) in
              ground (arith, remote, full)
        ]

  local_nixpacks :
      (base : Text) (b : Build)
      → text_eq b.spec.strategy.strategy strategy_nixpacks ≡ true
      → is_some (invocation sha256_hex base b).local_source ≡ true
  unfolding invocation
  local_nixpacks base b n = ground arith

  base_image : (base : Text) (b : Build) → is_empty (invocation sha256_hex base b).image_ref ≡ false
  unfolding invocation
  base_image base b = refl

  composed_Base :
      (base : Text) (b : Build) {inv : Invocation}
      → compose sha256_hex base b ≡ ok inv
      → (source_count b.spec.source ≡ 1) × Base b (invocation sha256_hex base b) inv
  unfolding compose invocation
  composed_Base base b {inv} e =
      let s : with_strategy b.spec.strategy (invocation sha256_hex base b) ≡ ok inv =
        ground arith in
      (ground arith, strategy_Base b (invocation sha256_hex base b) refl s)

  -- What `Compose` accepts, `Render` renders: a named build whose Git URL, where it has one, is not
  -- empty gets a job with its name, annotations that name the build, and a deadline that is not 0. (The
  -- fetcher image is not empty.)
  pub compose-render :
      (base fetcher : Text) (b : Build) {inv : Invocation}
      → compose sha256_hex base b ≡ ok inv
      → is_empty b.name ≡ false
      → is_empty b.namespace ≡ false
      → is_empty fetcher ≡ false
      → ((g : GitSource) → b.spec.source.git ≡ some g → is_empty g.url ≡ false)
      → (job : RenderedJob) × (render sha256_hex fetcher b inv ≡ ok job)
        × (job.name ≡ job_name sha256_hex b.name)
        × (job.annotations ≡ annotations_of sha256_hex b)
        × (0 < job.active_deadline_seconds)
  unfolding render
  compose-render base fetcher b {inv} e n ns f urls =
      let (one, x) = composed_Base base b e in
      let context : (if is_empty inv.context_url
            then is_some inv.local_source
            else not (is_some inv.local_source))
          ≡ true =
        rw (x.context, x.local) (one_context base b urls one) in
      let image : is_empty inv.image_ref ≡ false = ap is_empty x.image ∙ base_image base b in
      let local : inv.nixpacks ≡ true → is_some inv.local_source ≡ true =
        λ k. ap is_some x.local ∙ local_nixpacks base b (x.nixpacks k) in
      let deadline =
        if b.spec.timeout_seconds == 0 then default_timeout_seconds else b.spec.timeout_seconds in
      let positive : 0 < deadline = ground arith in
      let nix : (not inv.nixpacks || is_some inv.local_source) ≡ true =
        elim (Bool-cases inv.nixpacks) [ inl k ↦ ground (arith, local k) | inr k ↦ ground arith ] in
      let fetch : not (archived sha256_hex inv.local_source && is_empty fetcher) ≡ true =
        elim (Bool-cases (archived sha256_hex inv.local_source)) [
          | inl k ↦ rw (k, f) refl
          | inr k ↦ rw k refl
        ] in
      (
        record {
          name = job_name sha256_hex b.name;
          namespace = namespace;
          annotations = annotations_of sha256_hex b;
          active_deadline_seconds = deadline;
          args = render_args sha256_hex inv;
        },
        rw (n, ns, context, image, nix, fetch) refl,
        refl,
        refl,
        positive,
      )
