-- ===== src/Operator/App/Reconcile.antt =====
-- `Reconcile` of operator/internal/controller/app_controller.go with its parts, on the objects of one
-- App. `Io` is what fails of the calls that one reconcile may make; a write changes the world and is
-- logged.
use orkano.Prelude.{
  ℕ, Text, lit, text_eq, is_empty, List, [], ◌∷◌, ◌++◌, Option, none, some, Bool, true, false, not,
  ◌&&◌, ◌||◌, ltb, leb, ◌==◌, if◌then◌else◌, select, is_some, Result, ok, err, ◌>>=◌,
}
use orkano.Prelude.Cutting.{after}
use orkano.Prelude.Decimals.{decimal}
use orkano.Prelude.Sorting.{less}
use orkano.Api.{succeeded, BuildPhase, Condition}
use orkano.Operator.Build.Status.{conditions_eq}
use orkano.Operator.Kube.{
  ApiError, wrap, Access, CreateOrUpdate, ControllerReference, StatusConditions, adopt, Deletion,
}
use orkano.Operator.App.{
  App, AppStatus, StoredBuild, Deployment, Service, stamp_deployment, stamp_service,
  mutate_deployment, mutate_service,
}

abbrev pub condition_ready : Text
condition_ready = lit "Ready"

-- The libraries that the reconcile calls.
pub record Library : Type 0 where
  pub deployments : CreateOrUpdate stamp_deployment
  pub services : CreateOrUpdate stamp_service
  pub references : ControllerReference
  pub conditions : StatusConditions Condition (λ c. c.kind)

pub record Io : Type 0 where
  pub get_app : Option ApiError
  pub list_builds : Option ApiError
  pub deployment : Access
  pub get_service : Option ApiError
  pub delete_service : Deletion
  pub service : Access
  pub update_status : Option ApiError

pub data Write : Type 0 where
  deployment_written : Option Deployment → Write
  service_written : Option Service → Write
  service_deleted : Write
  status_written : AppStatus → Write

pub record World : Type 0 where
  pub app : Option App
  pub builds : List StoredBuild
  pub deployment : Option Deployment
  pub service : Option Service

pub record Outcome : Type 0 where
  pub world : World
  pub writes : List Write
  pub error : Option ApiError

-- `strings.Contains(s, sub)`.
unfoldable pub contains : Text → Text → Bool
contains sub [] = is_empty sub
contains sub (c ∷ s) = is_some (after sub (c ∷ s)) || contains sub s

-- Only digest-pinned references are rendered into pods.
unfoldable pub is_pinned : Text → Bool
unfolding contains
is_pinned image = contains (lit "@sha256:") image

unfoldable pub newer_build : StoredBuild → StoredBuild → Bool
unfolding less
newer_build a b =
    if a.created == b.created then less b.build.name a.build.name else ltb b.created a.created

unfoldable pub insert_build : StoredBuild → List StoredBuild → List StoredBuild
insert_build x [] = x ∷ []
insert_build x (y ∷ ys) =
    let rest = insert_build x ys in if newer_build x y then x ∷ y ∷ ys else y ∷ rest

-- `sort.Slice(builds.Items, newerBuild)`.
unfoldable pub sort_builds : List StoredBuild → List StoredBuild
unfolding insert_build newer_build
sort_builds [] = []
sort_builds (x ∷ xs) = insert_build x (sort_builds xs)

abbrev pub is_succeeded : BuildPhase → Bool
is_succeeded succeeded = true
is_succeeded _ = false

abbrev pub has_image : StoredBuild → Bool
has_image b = is_succeeded b.build.status.phase && not (is_empty b.build.status.image)

-- The image of the first Build that succeeded with one, or the image so far.
unfoldable pub first_image : List StoredBuild → Text → Text
first_image [] image = image
first_image (b ∷ bs) image =
    let later = first_image bs image in if has_image b then b.build.status.image else later

abbrev pub latest_name : List StoredBuild → Text → Text
latest_name [] name = name
latest_name (b ∷ _) name = b.build.name

-- What the List call selects: the namespace, and the index on `spec.appName`.
abbrev pub is_of : App → StoredBuild → Bool
is_of app b = text_eq b.build.namespace app.namespace && text_eq b.build.spec.app_name app.name

unfoldable pub observe_builds : Option ApiError → List StoredBuild → App → Result ApiError App
unfolding sort_builds first_image
observe_builds (some e) builds app = err e
observe_builds none builds app =
    let items = sort_builds (select (is_of app) builds) in
    ok (record app {
      status = record app.status {
        latest_build = latest_name items app.status.latest_build;
        image = first_image items app.status.image;
      };
    })

-- `equality.Semantic.DeepEqual` on two statuses.
unfoldable pub status_eq : AppStatus → AppStatus → Bool
status_eq a b =
    a.observed_generation == b.observed_generation
    && conditions_eq a.conditions b.conditions
    && text_eq a.image b.image
    && text_eq a.url b.url
    && a.available_replicas == b.available_replicas
    && text_eq a.latest_build b.latest_build

abbrev pub foreign_message : Text → App → Text
foreign_message kind app =
    lit "existing "
    ++ (kind
        ++ (lit " "
            ++ (app.namespace
                ++ (lit "/"
                    ++ (app.name
                        ++ (lit " is not managed by Orkano; rename the App or delete the "
                            ++ kind))))))

abbrev pub refusal : Text → App → ApiError
refusal kind app = record { conflict = false; message = foreign_message kind app }

abbrev pub blank_deployment : Deployment
blank_deployment = record {
  created = false;
  controller = none;
  labels = [];
  replicas = none;
  selector = [];
  template_labels = [];
  containers = [];
  available_replicas = 0;
}

abbrev pub blank_service : Service
blank_service = record {
  created = false;
  controller = none;
  labels = [];
  kind = [];
  selector = [];
  ports = [];
}

module _ (lib : Library) where
  unfoldable pub set_ready : Bool → Text → Text → App → App
  set_ready holds reason message app =
      let c : Condition = record {
        kind = condition_ready;
        holds = holds;
        reason = reason;
        message = message;
        observed_generation = app.generation;
      } in
      record app {
        status = record app.status { conditions = lib.conditions.set c app.status.conditions };
      }

  abbrev pub observed : App → App
  observed app = record app { status = record app.status { observed_generation = app.generation } }

  -- The status is written only when it changed.
  unfoldable pub update_status : Io → AppStatus → App → World → List Write → Outcome
  unfolding status_eq
  update_status io before app w writes =
      if status_eq before (observed app).status
      then record { world = w; writes = writes; error = none }
      else elim io.update_status [
        | none ↦ record {
          world = record w { app = some (observed app) };
          writes = writes ++ status_written (observed app).status ∷ [];
          error = none;
        }
        | some e ↦ record {
          world = w;
          writes = writes;
          error = some (wrap (lit "updating App status: ") e);
        }
      ]

  -- Why the reconcile stopped, except for a conflict, which heals on the retry.
  unfoldable pub fail_ready : Io → AppStatus → App → Text → ApiError → World → List Write → Outcome
  unfolding set_ready update_status
  fail_ready io before app reason e w writes =
      let o = update_status io before (set_ready false reason e.message app) w writes in
      if e.conflict
      then record { world = w; writes = writes; error = some e }
      else record o { error = some e }

  unfoldable pub own_deployment : App → Deployment → Result ApiError Deployment
  unfolding mutate_deployment
  own_deployment app d = do
    uid ← adopt lib.references app.uid d.created d.controller (refusal (lit "Deployment") app)
    ok (record (mutate_deployment app d) { controller = some uid })

  unfoldable pub own_service : App → Service → Result ApiError Service
  unfolding mutate_service
  own_service app s = do
    uid ← adopt lib.references app.uid s.created s.controller (refusal (lit "Service") app)
    ok (record (mutate_service app s) { controller = some uid })

  abbrev pub desired_replicas : App → ℕ
  desired_replicas app = elim app.spec.replicas [ none ↦ 1 | some n ↦ n ]

  -- Readiness follows the Deployment's available replicas.
  unfoldable pub readiness : App → Deployment → App
  unfolding set_ready
  readiness app d =
      let enough = leb (desired_replicas app) d.available_replicas in
      set_ready enough (if enough then lit "Available" else lit "Progressing")
        (decimal d.available_replicas
          ++ (lit "/" ++ (decimal (desired_replicas app) ++ lit " replicas available")))
        (record app { status = record app.status { available_replicas = d.available_replicas } })

  unfoldable pub report : Io → AppStatus → App → Deployment → World → List Write → Outcome
  unfolding readiness update_status
  report io before app d w writes = update_status io before (readiness app d) w writes
