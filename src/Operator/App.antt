-- ===== src/Operator/App.antt =====
-- operator/internal/controller/app_controller.go: an App's workload. Here are the objects, as far as
-- this controller reads or writes them, and what it puts into them; `int32` fields are numbers that
-- are not negative, and a quantity is its text. The reconcile is in `Reconcile`.
pub mod Reconcile
pub mod Cycle
pub mod Owning
pub mod Status
pub mod Exposing
pub mod Settling
pub mod Writing
pub mod Safety
pub mod Newest
pub mod Serving
mod Examples
use orkano.Prelude.{
  ℕ, Text, lit, text_eq, is_empty, List, [], ◌∷◌, ◌++◌, map, Option, none, some, Bool, true, false,
  not, ◌&&◌, ◌||◌, if◌then◌else◌, any_of,
}
use orkano.Prelude.Decimals.{decimal}
use orkano.Prelude.Maps.{insert}
use orkano.Api.{Build, Condition}

abbrev pub app_label : Text
app_label = lit "app.orkano.io/app"

abbrev pub managed_by_label : Text
managed_by_label = lit "app.kubernetes.io/managed-by"

abbrev pub managed_by_value : Text
managed_by_value = lit "orkano"

abbrev pub default_web_port : ℕ
default_web_port = 8080

abbrev pub port_env_name : Text
port_env_name = lit "PORT"

abbrev pub container_name : Text
container_name = lit "app"

abbrev pub service_port_name : Text
service_port_name = lit "http"

pub data WorkloadType : Type 0 where
  unset web worker : WorkloadType

pub record SecretKeyRef : Type 0 where
  pub name : Text
  pub key : Text

pub record EnvVar : Type 0 where
  pub name : Text
  pub value : Text
  pub secret_ref : Option SecretKeyRef

pub record Resources : Type 0 where
  pub cpu : Option Text
  pub memory : Option Text

pub record AppSpec : Type 0 where
  pub workload : WorkloadType
  pub command : List Text
  pub port : Option ℕ
  pub replicas : Option ℕ
  pub env : List EnvVar
  pub resources : Option Resources
  pub health_path : Option Text

pub record AppStatus : Type 0 where
  pub observed_generation : ℕ
  pub conditions : List Condition
  pub image : Text
  pub url : Text
  pub available_replicas : ℕ
  pub latest_build : Text

pub record App : Type 0 where
  pub name : Text
  pub namespace : Text
  pub uid : Text
  pub generation : ℕ
  pub deleted : Bool
  pub spec : AppSpec
  pub status : AppStatus

-- A Build with the `creationTimestamp` of its metadata.
pub record StoredBuild : Type 0 where
  pub created : ℕ
  pub build : Build

pub data Handler : Type 0 where
  http_get : Text → ℕ → Handler
  tcp_socket : ℕ → Handler

pub record Probe : Type 0 where
  pub handler : Handler
  pub period_seconds : ℕ
  pub timeout_seconds : ℕ
  pub success_threshold : ℕ
  pub failure_threshold : ℕ

pub record ContainerPort : Type 0 where
  pub name : Text
  pub container_port : ℕ
  pub protocol : Text

-- An environment variable of a container, by value or from a key of a Secret.
pub record ContainerEnv : Type 0 where
  pub name : Text
  pub value : Text
  pub secret_key_ref : Option SecretKeyRef

pub record ResourceRequirements : Type 0 where
  pub requests : List (Text × Text)
  pub limits : List (Text × Text)

-- `image_pull_policy` stands for the fields that the server fills in and Orkano does not own.
pub record Container : Type 0 where
  pub name : Text
  pub image : Text
  pub command : List Text
  pub env : List ContainerEnv
  pub resources : ResourceRequirements
  pub ports : List ContainerPort
  pub readiness_probe : Option Probe
  pub liveness_probe : Option Probe
  pub image_pull_policy : Text

-- `created` tells whether the creation timestamp is set, `controller` is the UID of the controlling
-- owner.
pub record Deployment : Type 0 where
  pub created : Bool
  pub controller : Option Text
  pub labels : List (Text × Text)
  pub replicas : Option ℕ
  pub selector : List (Text × Text)
  pub template_labels : List (Text × Text)
  pub containers : List Container
  pub available_replicas : ℕ

pub record ServicePort : Type 0 where
  pub name : Text
  pub port : ℕ
  pub target_port : Text
  pub protocol : Text

pub record Service : Type 0 where
  pub created : Bool
  pub controller : Option Text
  pub labels : List (Text × Text)
  pub kind : Text
  pub selector : List (Text × Text)
  pub ports : List ServicePort

abbrev pub stamp_deployment : Deployment → Deployment
stamp_deployment d = record d { created = true }

abbrev pub stamp_service : Service → Service
stamp_service s = record s { created = true }

abbrev pub is_web : WorkloadType → Bool
is_web unset = true
is_web web = true
is_web worker = false

-- `workloadType(app) == WorkloadWeb`.
abbrev pub serves : App → Bool
serves app = is_web app.spec.workload

unfoldable pub web_port : App → ℕ
web_port app = elim app.spec.port [ none ↦ default_web_port | some p ↦ p ]

abbrev pub selector_labels : App → List (Text × Text)
selector_labels app = (app_label, app.name) ∷ []

abbrev pub own_labels : Text → List (Text × Text) → List (Text × Text)
own_labels name labels = insert managed_by_label managed_by_value (insert app_label name labels)

-- A reference to a Secret's key takes the place of a value.
abbrev pub env_var : EnvVar → ContainerEnv
env_var e = elim e.secret_ref [
  | none ↦ record { name = e.name; value = e.value; secret_key_ref = none }
  | some ref ↦ record { name = e.name; value = []; secret_key_ref = some ref }
]

abbrev pub names_port : EnvVar → Bool
names_port e = text_eq e.name port_env_name

unfoldable pub container_env : App → List ContainerEnv
unfolding web_port
container_env app =
    map env_var app.spec.env
    ++ (if serves app && not (any_of names_port app.spec.env)
        then record { name = port_env_name; value = decimal (web_port app); secret_key_ref = none }
          ∷ []
        else [])

abbrev pub entry : Text → Option Text → List (Text × Text)
entry name none = []
entry name (some quantity) = (name, quantity) ∷ []

unfoldable pub container_resources : Option Resources → ResourceRequirements
container_resources none = record { requests = []; limits = [] }
container_resources (some r) = record {
  requests = entry (lit "cpu") r.cpu ++ entry (lit "memory") r.memory;
  limits = entry (lit "memory") r.memory;
}

abbrev pub probe_every : ℕ → Handler → Probe
probe_every period handler = record {
  handler = handler;
  period_seconds = period;
  timeout_seconds = 2;
  success_threshold = 1;
  failure_threshold = 3;
}

-- The readiness and the liveness probe.
unfoldable pub probes : App → ℕ → Option Probe × Option Probe
probes app port = elim app.spec.health_path [
  | some path ↦
      (some (probe_every 10 (http_get path port)), some (probe_every 20 (http_get path port)))
  | none ↦ (some (probe_every 10 (tcp_socket port)), none)
]

abbrev pub blank_container : Container
blank_container = record {
  name = container_name;
  image = [];
  command = [];
  env = [];
  resources = record { requests = []; limits = [] };
  ports = [];
  readiness_probe = none;
  liveness_probe = none;
  image_pull_policy = [];
}

-- The one container by its name, or a blank one in place of whatever else there is.
unfoldable pub sole_container : List Container → Container
sole_container [] = blank_container
sole_container (c ∷ []) = if text_eq c.name container_name then c else blank_container
sole_container (c ∷ _ ∷ _) = blank_container

unfoldable pub mutate_container : App → Container → Container
unfolding container_env container_resources probes web_port
mutate_container app c = record c {
  image = app.status.image;
  command = app.spec.command;
  env = container_env app;
  resources = container_resources app.spec.resources;
  ports =
      if serves app
      then record { name = service_port_name; container_port = web_port app; protocol = lit "TCP" }
        ∷ []
      else [];
  readiness_probe = if serves app then (probes app (web_port app)).0 else none;
  liveness_probe = if serves app then (probes app (web_port app)).1 else none;
}

unfoldable pub mutate_deployment : App → Deployment → Deployment
unfolding mutate_container sole_container
mutate_deployment app d = record d {
  labels = own_labels app.name d.labels;
  replicas = app.spec.replicas;
  selector = selector_labels app;
  template_labels = selector_labels app;
  containers = mutate_container app (sole_container d.containers) ∷ [];
}

unfoldable pub mutate_service : App → Service → Service
mutate_service app s = record s {
  labels = own_labels app.name s.labels;
  kind = lit "ClusterIP";
  selector = selector_labels app;
  ports =
      record {
        name = service_port_name;
        port = 80;
        target_port = service_port_name;
        protocol = lit "TCP";
      }
      ∷ [];
}
