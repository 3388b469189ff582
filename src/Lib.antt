-- ===== src/Lib.antt =====
-- Orkano, a self-hosted platform that builds and runs applications on a k3s cluster. This library
-- models the parts of its Go code that decide, and proves what makes them correct.
--
-- The parts and how they meet. GitHub rings the receiver (receiver/), which authenticates a webhook,
-- asks the allowlist (internal/repoallowlist) and inserts a pointer row into a Postgres queue
-- (internal/db). The operator's dispatcher (operator/internal/dispatcher) takes rows off that queue
-- and turns each into Build resources (api/v1alpha1), pinned to the commit that the app's own source
-- resolves to, where the feature gates (internal/features) are open. The build controller
-- (operator/internal/controller) runs each Build as one Kubernetes Job, composed by
-- operator/internal/buildjob, and records its outcome. The app controller runs the newest image that a
-- build has pinned as a Deployment and a Service; the domain controller routes a host to that Service by
-- an Ingress, for the oldest Domain that claims the host. The dashboard (dashboard/) is guarded by a rate
-- limiter and by a sign-in in two factors. The check engine (internal/checks, api/check) runs the doctor's and the preflight's checks.
--
-- Prelude.antt and below: what Go gives (strings as lists of bytes, maps as association lists,
-- results), with the lemmas that the parts share.
-- Api.antt: the records of api/v1alpha1 (Source, BuildStrategy, App, Build, BuildStatus).
-- Allowlist.antt: internal/repoallowlist/repoallowlist.go. Normalize, Parse, Format are `normalize`,
--   `parse`, `format`; the loop of Normalize is `collect` over `take_entry`.
-- Receiver.antt: receiver/internal/webhook/webhook.go. NewHandler is `new_handler`; Webhook is
--   `webhook`, in three stretches: `authenticate`, `pointer`, `ring`. Receiver/Queue.antt is the
--   insert of internal/db/webhook_deliveries.sql.go on its table.
-- Features.antt: internal/features/features.go. Parse, ParseCSV, CSV, MissingForApp, ValidateApp are
--   `parse`, `parse_csv`, `csv`, `missing_for_app`, `validate_app`.
-- Operator/Buildjob.antt: operator/internal/buildjob/job.go. Compose, Render, JobName.
-- Operator/Build.antt: operator/internal/controller/build_controller.go. Its helpers here, the steps of
--   Reconcile in Build/Reconcile.antt (ensureJob is `ensure_job`, observeJob `observe_job`), Reconcile
--   and finalize in Build/Cycle.antt. A reconcile is a function of the stored Build and of `Io`, the
--   answers of all the calls it may make; its writes are a list of effects. Build/History.antt takes
--   reconciles and a deletion in any order.
-- Operator/Kube.antt: what the controllers take from controller-runtime and the API machinery, as records
--   of operations and laws: CreateOrUpdate, SetControllerReference, SetStatusCondition. Kube/Instances.antt
--   has an instance of each.
-- Operator/App.antt: operator/internal/controller/app_controller.go and api/v1alpha1/app_types.go: the
--   objects, and what is rendered (mutateDeployment is `mutate_deployment`, containerEnv `container_env`).
--   App/Reconcile.antt has observeBuilds, updateStatus, failReady and the closures; App/Cycle.antt has
--   Reconcile, in the stretches `roll_out`, `expose`, `withdraw`, `report`.
-- Operator/Domain.antt: operator/internal/controller/domain_controller.go and api/v1alpha1/domain_types.go:
--   hostWinner, mutateIngress, observeCertificate and the event handlers. Domain/Reconcile.antt has
--   updateAppURL, deleteOwnIngress and the statuses, on a whole cluster; Domain/Cycle.antt has Reconcile,
--   in the stretches `finalize`, `contend`, `yield_host`, `route`, `follow_up`.
-- Operator/Dispatcher.antt: operator/internal/dispatcher/dispatcher.go and queue.go. The pure helpers
--   here, createBuild, handle, processOne and tick in Dispatcher/Loop.antt, on a queue and a store.
-- Dashboard/RateLimit.antt: dashboard/internal/server/ratelimit.go; `allow` with its eviction.
-- Dashboard/Auth.antt: the tables of the sign-in and the queries of internal/db on them. The handlers of
--   dashboard/internal/server/auth.go are functions of an `Env`, what one request meets, and of the
--   tables: Auth/Sessions.antt (session.go), Auth/Signing.antt (login in two factors), Auth/Callers.antt
--   (logout, step-up), Auth/Enrolling.antt (redeem, confirm, CreateAdmin), Auth/Routes.antt (all of
--   them behind `serve`).
-- Checks.antt: internal/checks and api/check. Registry, Plan, Run, Score and Fix are child modules
--   of those names: Register is `register`, Plan is `plan`, Run is `run`, Score is `score`, ExitCode
--   is `exit_code`, RunAndFix is `run_and_fix`. A probe is a function on a world that the run threads through.
--
-- Bounds and fuel. The walk of Plan runs on fuel, the number of registered checks, and `plan_total`
-- shows that it is enough. Every other loop is structural recursion. Numbers are natural numbers; the
-- machine integers of the source count bytes, results and nanoseconds and stay far below their bounds.
--
-- Not modelled: logging; HTTP routing, TLS and the web interface; the Kubernetes API, Postgres and
-- GitHub, which are parameters with the answers they may give; SHA-256, HMAC, bcrypt, TOTP, AES-GCM
-- and the JSON decoder, which are function parameters; of a rendered Job, its pod's volumes, init
-- containers and security context; the Postgres and Mongo controllers, OIDC, the setup wizard and the
-- resource API of the dashboard, the installer and the command line; the report formats of the check
-- engine. A reconcile reads the objects as they are stored: the API server refuses a write that rests
-- on a stale read. The two lists of one host's Domains in one reconcile fail together. A request to
-- the dashboard is one step: its queries are not interleaved with those of another request. Upper case
-- is that of ASCII, and lower case, in the names of users, a parameter.
pub mod Allowlist
pub mod Api
pub mod Checks
pub mod Dashboard
pub mod Features
pub mod Operator
pub mod Prelude
pub mod Receiver
