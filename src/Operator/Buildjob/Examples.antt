-- ===== src/Operator/Buildjob/Examples.antt =====
-- The jobs of operator/internal/buildjob/job.go for one build, and the theorems on them.
use orkano.Prelude.{◌<◌, ◌≡◌, refl, Text, lit, text_eq, [], none, some, false, ok, arith}
use orkano.Prelude.Cutting.{trim_of}
use orkano.Api.{Build, unset}
use orkano.Operator.Buildjob.{Invocation, RenderedJob, compose, job_name}
use orkano.Operator.Buildjob.Render.{render, annotations_of}
use orkano.Operator.Buildjob.Agreement.{compose-render}

abbrev sha : Text → Text
sha s = lit "0123456789abcdef"

-- A static site in a subdirectory of a public repository.
abbrev site : Build
site = record {
  name = lit "site-1";
  namespace = lit "orkano-apps";
  generation = 1;
  deleted = false;
  finalizers = [];
  labels = [];
  spec = record {
    app_name = lit "site";
    commit = lit "c0ffee";
    source = record {
      github = none;
      git = some (record { url = lit "https://a/b.git"; ref = [] });
      upload = none;
      sub_path = lit "/docs/";
    };
    strategy = record {
      strategy = lit "Static";
      dockerfile_path = none;
      static_dir = some (lit "public/");
      nixpacks_config_path = none;
    };
    timeout_seconds = 0;
  };
  status = record {
    observed_generation = 0;
    phase = unset;
    image = [];
    job_ref = none;
    started_at = none;
    completed_at = none;
    conditions = [];
  };
}

abbrev site_invocation : Invocation
site_invocation = record {
  context_url = lit "https://a/b.git#c0ffee:docs";
  local_source = none;
  dockerfile_path = [];
  generated_dockerfile =
      lit
        "FROM nginxinc/nginx-unprivileged:1.30-alpine-slim@sha256:bcb4860e2d7877cf140e4c945f5f9cb304ccb5efbe1dd4fa606a2206142241bf\nCOPY public/ /usr/share/nginx/html/\n";
  image_ref = lit "orkano-registry.orkano-system.svc.cluster.local/site:c0ffee-0123456789abcdef";
  nixpacks = false;
  nixpacks_config_path = [];
}

site_composed : compose sha [] site ≡ ok site_invocation
unfolding compose text_eq trim_of
site_composed = refl

compose-render_example :
    (job : RenderedJob) × (render sha (lit "operator") site site_invocation ≡ ok job)
    × (job.name ≡ job_name sha (lit "site-1"))
    × (job.annotations ≡ annotations_of sha site)
    × (0 < job.active_deadline_seconds)
compose-render_example =
    compose-render sha [] (lit "operator") site site_composed refl refl refl
      (λ g e. let url : lit "https://a/b.git" ≡ g.url = ground (arith, e) in ground (arith, url))
