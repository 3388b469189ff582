-- ===== src/Operator/App/Examples.antt =====
-- The App controller of operator/internal/controller/app_controller.go on one App, from its first
-- Build to its Service, and the theorems on it.
use orkano.Prelude.{◌≡◌, refl, Text, lit, List, [], ◌∷◌, none, some, false, select, ok, text_eq}
use orkano.Prelude.Cutting.{after}
use orkano.Prelude.Maps.{insert}
use orkano.Prelude.Sorting.{less}
use native.Mathlib.Decide.{ℕ_discrete}
use orkano.Api.{Build, succeeded, Condition}
use orkano.Operator.Kube.{adopt, done}
use orkano.Operator.Kube.Instances.{writing, claiming, setting}
use orkano.Operator.App.{
  App, StoredBuild, unset, worker, Deployment, Service, stamp_deployment, stamp_service,
  mutate_deployment, mutate_service,
}
use orkano.Operator.App.Reconcile.{
  Library, Io, World, observe_builds, is_of, blank_deployment, blank_service, has_image, is_pinned,
}
use orkano.Operator.App.Cycle.{reconcile, stop, map_build_to_app}
use orkano.Operator.App.Exposing.{Calm}
use orkano.Operator.App.Settling.{reconcile_settles}
use orkano.Operator.App.Writing.{Lawful}
use orkano.Operator.App.Safety.{reconcile-Allowed}
use orkano.Operator.App.Newest.{Takes, any_build, name_of, image_of, observe_builds_newest}
use orkano.Operator.App.Serving.{Agrees, serving-Agrees}

Deployment-discrete : Discrete Deployment
Deployment-discrete = hlevel (ℕ_discrete)

Service-discrete : Discrete Service
Service-discrete = hlevel (ℕ_discrete)

abbrev lib : Library
lib = record {
  deployments = writing Deployment-discrete stamp_deployment;
  services = writing Service-discrete stamp_service;
  references = claiming;
  conditions = setting Condition (λ c. c.kind);
}

abbrev built : Text → Text → Build
built name image = record {
  name = name;
  namespace = lit "orkano-apps";
  generation = 1;
  deleted = false;
  finalizers = [];
  labels = [];
  spec = record {
    app_name = lit "web";
    commit = lit "c0ffee";
    source = record { github = none; git = none; upload = none; sub_path = [] };
    strategy = record {
      strategy = lit "Dockerfile";
      dockerfile_path = none;
      static_dir = none;
      nixpacks_config_path = none;
    };
    timeout_seconds = 900;
  };
  status = record {
    observed_generation = 1;
    phase = succeeded;
    image = image;
    job_ref = none;
    started_at = none;
    completed_at = none;
    conditions = [];
  };
}

abbrev web : App
web = record {
  name = lit "web";
  namespace = lit "orkano-apps";
  uid = lit "u1";
  generation = 1;
  deleted = false;
  spec = record {
    workload = unset;
    command = [];
    port = none;
    replicas = some 1;
    env = [];
    resources = none;
    health_path = none;
  };
  status = record {
    observed_generation = 0;
    conditions = [];
    image = [];
    url = [];
    available_replicas = 0;
    latest_build = [];
  };
}

abbrev builds : List StoredBuild
builds =
    record { created = 1; build = built (lit "web-1") (lit "r/web@sha256:1") }
    ∷ record { created = 2; build = built (lit "web-2") (lit "r/web@sha256:2") }
    ∷ []

abbrev start : World
start = record { app = some web; builds = builds; deployment = none; service = none }

abbrev fine : Io
fine = record {
  get_app = none;
  list_builds = none;
  deployment = record { read = none; write = none };
  get_service = none;
  delete_service = done;
  service = record { read = none; write = none };
  update_status = none;
}

fine-Calm : Calm fine
fine-Calm = record {
  app_read = refl;
  builds_listed = refl;
  deployment_read = refl;
  service_read = refl;
  service_checked = refl;
}

first_error : (reconcile lib fine start).error ≡ none
unfolding reconcile text_eq is_pinned after adopt
first_error = refl

reconcile_settles_example :
    let w' = (reconcile lib fine start).world in reconcile lib fine w' ≡ stop w' none
reconcile_settles_example = reconcile_settles lib fine start fine fine-Calm first_error

reconcile-Allowed_example : Lawful start web (reconcile lib fine start)
reconcile-Allowed_example = reconcile-Allowed lib fine web start refl

abbrev seen : App
seen = record web {
  status = record web.status { latest_build = lit "web-2"; image = lit "r/web@sha256:2" };
}

seen_first : observe_builds none builds web ≡ ok seen
unfolding observe_builds text_eq less
seen_first = refl

observe_builds_newest_example :
    let items = select (is_of web) builds in
    Takes any_build items name_of [] (lit "web-2")
    × Takes has_image items image_of [] (lit "r/web@sha256:2")
observe_builds_newest_example = observe_builds_newest builds web seen seen_first

serving-Agrees_example :
    Agrees seen (mutate_deployment seen blank_deployment) (mutate_service seen blank_service)
serving-Agrees_example = serving-Agrees seen blank_deployment blank_service refl

-- A worker's Service, left from when it served, goes.
abbrev turned : World
turned = record (reconcile lib fine start).world {
  app = some (record seen { spec = record seen.spec { workload = worker } });
}

turned_service : (reconcile lib fine turned).world.service ≡ none
unfolding reconcile text_eq is_pinned after adopt Deployment-discrete ℕ_discrete insert
turned_service = refl

mapped : map_build_to_app (lit "orkano-apps") (lit "web") ≡ (lit "orkano-apps", lit "web") ∷ []
unfolding map_build_to_app
mapped = refl
