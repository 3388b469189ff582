-- ===== src/Operator/Build/Examples.antt =====
-- The build controller of operator/internal/controller/build_controller.go on one build, from its
-- creation to its success, and the theorems on it.
use orkano.Prelude.{
  ◌≤◌, ◌≡◌, refl, Text, lit, sym, ap, ◌∙◌, text_eq, List, [], ◌∷◌, none, some, true, false, Result,
  ok, All, arith,
}
use orkano.Prelude.Maps.{lookup}
use orkano.Api.{Build, unset, succeeded, failed, Condition}
use orkano.Features.{no_features, validate_app}
use orkano.Operator.Buildjob.{compose}
use orkano.Operator.Buildjob.Render.{render}
use orkano.Operator.Build.{Job, job_complete, found, not_found, written, Io, Reconciler, owns_job}
use orkano.Operator.Build.Cycle.{map_job_to_build}
use orkano.Operator.Build.Ensuring.{rank}
use orkano.Operator.Build.History.{
  Event, reconciled, deletion_requested, history, Pins, history-Pinned, history_forward,
  history_closed,
}

abbrev sha : Text → Text
sha s = lit "0123456789abcdef"

abbrev set_condition : Condition → List Condition → List Condition
set_condition c cs = c ∷ []

abbrev image : Text
image = lit "web@sha256:1"

abbrev Pinned : Text → Type 0
Pinned i = i ≡ image

abbrev rc : Reconciler
rc = record { git_base_url = []; source_fetcher_image = []; features = no_features }

abbrev web : Build
web = record {
  name = lit "web-1";
  namespace = lit "orkano-apps";
  generation = 1;
  deleted = false;
  finalizers = [];
  labels = [];
  spec = record {
    app_name = lit "web";
    commit = lit "c0ffee";
    source = record {
      github = some (record { repo = lit "acme/web"; ref = lit "main" });
      git = none;
      upload = none;
      sub_path = [];
    };
    strategy = record {
      strategy = lit "Dockerfile";
      dockerfile_path = none;
      static_dir = none;
      nixpacks_config_path = none;
    };
    timeout_seconds = 900;
  };
  status = record {
    observed_generation = 0;
    phase = unset;
    image = [];
    job_ref = none;
    started_at = none;
    completed_at = none;
    conditions = [];
  };
}

abbrev first : Io
first = record {
  adoption_read = not_found;
  cached_job = not_found;
  live_job = not_found;
  create_job = written;
  delete_job = written;
  update_build = written;
  update_status = written;
  pods = none;
  resolve_digest = λ ref. ok image;
}

abbrev done : Job
done = record {
  name = lit "web-1";
  namespace = lit "orkano-builds";
  annotations =
      (lit "orkano.io/build-name", lit "web-1")
      ∷ (lit "orkano.io/build-namespace", lit "orkano-apps")
      ∷ [];
  start_time = some 5;
  completion_time = some 9;
  active = 0;
  conditions =
      record {
        kind = job_complete;
        holds = true;
        reason = [];
        message = [];
        last_transition_time = 9;
      }
      ∷ [];
}

abbrev second : Io
second = record first { cached_job = found done }

abbrev life : List Event
life = reconciled rc first ∷ reconciled rc second ∷ deletion_requested ∷ reconciled rc second ∷ []

-- The build succeeds with the image that was resolved, and a later deletion takes the job along.
built : (history sha set_condition life web).status.image ≡ image
unfolding history validate_app text_eq compose render owns_job lookup
built = refl

mapped : map_job_to_build done ≡ (lit "orkano-apps", lit "web-1") ∷ []
unfolding map_job_to_build lookup text_eq
mapped = refl

resolved :
    (io : Io)
    → io.resolve_digest ≡ (λ ref. ok image)
    → (ref i : Text) → io.resolve_digest ref ≡ ok i
    → Pinned i
resolved io e ref i r =
    let good : Result Text Text = ok image in
    let same : good ≡ ok i = sym (ap (λ (f : Text → Result Text Text). f ref) e) ∙ r in ground arith

resolves : All (Pins sha set_condition Pinned) life
resolves = (resolved first refl, (resolved second refl, (tt, (resolved second refl, tt))))

succeeds : (history sha set_condition life web).status.phase ≡ succeeded
unfolding history validate_app text_eq compose render owns_job lookup
succeeds = refl

history-Pinned_example : Pinned (history sha set_condition life web).status.image
history-Pinned_example = history-Pinned sha set_condition Pinned life web resolves refl succeeds

history_forward_example :
    rank web.status.phase ≤ rank (history sha set_condition life web).status.phase
history_forward_example = history_forward sha set_condition life web

abbrev ended : Build
ended = record web { status = record web.status { phase = failed } }

history_closed_example : (history sha set_condition life ended).status ≡ ended.status
history_closed_example = history_closed sha set_condition life ended refl
