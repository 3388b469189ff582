-- ===== src/Operator/App/Serving.antt =====
-- The port of an App that serves: operator/internal/controller/app_controller.go writes it into the
-- container's ports, its environment, its probes and the Service, which have to agree.
use orkano.Prelude.{
  ℕ, ◌≡◌, refl, inl, inr, ◌⊎◌, Text, lit, text_eq, text_eq_refl, List, [], ◌∷◌, ◌++◌, map, Option,
  none, some, true, false, Bool-cases, Option-cases, if◌then◌else◌, arith, any_of,
}
use mathlib.Core.List.{append-nil}
use orkano.Prelude.Decimals.{decimal}
use orkano.Operator.App.{
  App, EnvVar, ContainerEnv, Container, ContainerPort, ServicePort, Deployment, Service, Probe,
  http_get, tcp_socket, serves, web_port, container_env, names_port, env_var, probes,
  mutate_deployment, mutate_container, sole_container, mutate_service, port_env_name,
  service_port_name,
}

-- The values that an environment gives to a name.
abbrev pub values_of : Text → List ContainerEnv → List Text
values_of name [] = []
values_of name (e ∷ es) =
    let rest = values_of name es in if text_eq e.name name then e.value ∷ rest else rest

abbrev pub probed_port : Option Probe → Option ℕ
probed_port none = none
probed_port (some p) = elim p.handler [
  | http_get path port ↦ some port
  | tcp_socket port ↦ some port
]

env_var-name : (e : EnvVar) → (env_var e).name ≡ e.name
env_var-name e = ground arith

values_of-append :
    (name : Text) (es fs : List ContainerEnv)
    → values_of name (es ++ fs) ≡ values_of name es ++ values_of name fs
values_of-append name [] fs = refl
values_of-append name (e ∷ es) fs = ground (arith, values_of-append name es fs)

unnamed :
    (es : List EnvVar)
    → any_of names_port es ≡ false
    → values_of port_env_name (map env_var es) ≡ []
unnamed [] h = refl
unnamed (e ∷ es) h = ground (arith, env_var-name e, unnamed es)

-- What the container is told of its port.
abbrev pub Told : App → List ContainerEnv → Type 0
Told app env = values_of port_env_name env ≡ (
    if any_of names_port app.spec.env
    then values_of port_env_name (map env_var app.spec.env)
    else decimal (web_port app) ∷ [])

container_env-Told : (app : App) → serves app ≡ true → Told app (container_env app)
unfolding container_env
container_env-Told app web =
    let port : List ContainerEnv =
      record { name = port_env_name; value = decimal (web_port app); secret_key_ref = none } ∷ [] in
    let users = map env_var app.spec.env in
    elim (Bool-cases (any_of names_port app.spec.env)) [
      | inl set ↦ ground (
        arith,
        web,
        set,
        values_of-append port_env_name users [],
        append-nil (values_of port_env_name users),
      )
      | inr free ↦ ground (
        arith,
        web,
        free,
        values_of-append port_env_name users port,
        unnamed app.spec.env,
        text_eq_refl port_env_name,
      )
    ]

-- A Deployment and a Service that agree on an App's port.
pub record Agrees (app : App) (d : Deployment) (s : Service) : Type 0 where
  pub container : Container
  pub one_container : d.containers ≡ container ∷ []
  pub port : ContainerPort
  pub one_port : container.ports ≡ port ∷ []
  pub serves_port : port.container_port ≡ web_port app
  pub entry : ServicePort
  pub one_entry : s.ports ≡ entry ∷ []
  pub routed : entry.target_port ≡ port.name
  pub selected : s.selector ≡ d.template_labels
  pub readiness : probed_port container.readiness_probe ≡ some port.container_port
  pub liveness :
      (container.liveness_probe ≡ none)
      ⊎ (probed_port container.liveness_probe ≡ some port.container_port)
  pub environment : Told app container.env

-- The objects that are written for an App that serves agree on its port, whatever stood there before:
-- the container's one port carries the name that the Service sends to, on the pods that the Service
-- selects; the readiness probe, and the liveness probe where there is one, ask that port; and `PORT` in
-- the environment is what the user set, or else that port alone.
pub serving-Agrees :
    (app : App) (d : Deployment) (s : Service)
    → serves app ≡ true
    → Agrees app (mutate_deployment app d) (mutate_service app s)
unfolding mutate_deployment mutate_container mutate_service probes
serving-Agrees app d s web = record {
  container = mutate_container app (sole_container d.containers);
  one_container = refl;
  port = record { name = service_port_name; container_port = web_port app; protocol = lit "TCP" };
  one_port = ground (arith, web);
  serves_port = refl;
  entry = record {
    name = service_port_name;
    port = 80;
    target_port = service_port_name;
    protocol = lit "TCP";
  };
  one_entry = refl;
  routed = refl;
  selected = refl;
  readiness = ground (arith, web);
  liveness = elim (Option-cases app.spec.health_path) [
    | inl unset ↦ inl (ground (arith, web, unset))
    | inr (path, set) ↦ inr (ground (arith, web, set))
  ];
  environment = container_env-Told app web;
}
