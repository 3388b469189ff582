-- ===== src/Operator/Build.antt =====
-- operator/internal/controller/build_controller.go: one build, run as one job. A reconcile reads and
-- writes through the Kubernetes API and the registry; `Io` is what those calls answer in one
-- reconcile, and the writes are its `effects`, in order. Parameters: SHA-256 in hex, and
-- `meta.SetStatusCondition`. `int32` fields are numbers that are not negative.
pub mod Status
pub mod Reconcile
pub mod Cycle
pub mod Ensuring
pub mod Observing
pub mod Closed
pub mod History
pub mod Starting
pub mod Touching
pub mod Owning
mod Examples
use orkano.Prelude.{
  ℕ, ◌+◌, Text, lit, text_eq, is_empty, List, [], ◌∷◌, ◌++◌, Option, none, some, Bool, true, false,
  not, ◌&&◌, ◌||◌, ltb, leb, ◌==◌, if◌then◌else◌, any_of, select, Result, ok, err,
}
use orkano.Prelude.Decimals.{decimal}
use orkano.Prelude.Maps.{lookup}
use orkano.Api.{
  Build, BuildSpec, BuildStatus, BuildPhase, unset, pending, running, succeeded, failed,
  JobReference, Condition, AppSpec,
}
use orkano.Features.{Set, validate_app, disabled_message}
use orkano.Operator.Buildjob.{
  compose, job_name, Invocation, RenderedJob, namespace, annotation_build_name,
  annotation_build_namespace, default_timeout_seconds,
}
use orkano.Operator.Buildjob.Render.{render}

abbrev pub build_finalizer : Text
build_finalizer = lit "orkano.io/build"

abbrev pub condition_completed : Text
condition_completed = lit "Completed"

-- The conditions of a job that are read.
pub data JobConditionType : Type 0 where
  job_failed job_complete other_condition : JobConditionType

pub record JobCondition : Type 0 where
  pub kind : JobConditionType
  pub holds : Bool
  pub reason : Text
  pub message : Text
  pub last_transition_time : ℕ

pub record Job : Type 0 where
  pub name : Text
  pub namespace : Text
  pub annotations : List (Text × Text)
  pub start_time : Option ℕ
  pub completion_time : Option ℕ
  pub active : ℕ
  pub conditions : List JobCondition

pub record Terminated : Type 0 where
  pub reason : Text
  pub exit_code : ℕ

pub record ContainerStatus : Type 0 where
  pub terminated : Option Terminated
  pub last_terminated : Option Terminated

pub record Pod : Type 0 where
  pub init_container_statuses : List ContainerStatus
  pub container_statuses : List ContainerStatus

pub data Read : Type 0 where
  found : Job → Read
  not_found : Read
  unread : Read

pub data Write : Type 0 where
  written already_exists gone unwritten : Write

-- What the calls of one reconcile answer, were they made.
pub record Io : Type 0 where
  pub adoption_read : Read
  pub cached_job : Read
  pub live_job : Read
  pub create_job : Write
  pub delete_job : Write
  pub update_build : Write
  pub update_status : Write
  pub pods : Option (List Pod)
  pub resolve_digest : Text → Result Text Text

pub data Effect : Type 0 where
  job_created : RenderedJob → Effect
  job_deleted : Job → Effect
  build_updated : Build → Effect
  status_updated : Build → Effect

pub data Failure : Type 0 where
  adopting finalizing creating fetching confirming vanished foreign pods_unlisted unresolved
        unfinalized undeleted :
      Failure
  composing rendering : Text → Failure
  status_unwritten : Failure

pub record Reconciler : Type 0 where
  pub git_base_url : Text
  pub source_fetcher_image : Text
  pub features : Set

abbrev pub is_terminal : BuildPhase → Bool
is_terminal succeeded = true
is_terminal failed = true
is_terminal _ = false

abbrev pub annotation : Text → Job → Text
annotation key job = elim (lookup key job.annotations) [ none ↦ [] | some v ↦ v ]

unfoldable pub owns_job : Build → Job → Bool
owns_job b job =
    text_eq (annotation annotation_build_name job) b.name
    && text_eq (annotation annotation_build_namespace job) b.namespace

abbrev pub is_kind : JobConditionType → JobConditionType → Bool
is_kind job_failed job_failed = true
is_kind job_complete job_complete = true
is_kind other_condition other_condition = true
is_kind _ _ = false

unfoldable pub job_condition : JobConditionType → List JobCondition → Option JobCondition
job_condition kind [] = none
job_condition kind (c ∷ cs) =
    if is_kind c.kind kind && c.holds then some c else job_condition kind cs

unfoldable pub effective_timeout : Build → ℕ
effective_timeout b =
    if ltb 0 b.spec.timeout_seconds then b.spec.timeout_seconds else default_timeout_seconds

-- The job that `Render` made, before it has run.
abbrev pub fresh_job : RenderedJob → Job
fresh_job r = record {
  name = r.name;
  namespace = r.namespace;
  annotations = r.annotations;
  start_time = none;
  completion_time = none;
  active = 0;
  conditions = [];
}

-- The container that explains a failure: the first that was killed for memory or exited badly.
abbrev pub verdict : Job → Terminated → Option (Text × Text)
verdict job t =
    if text_eq t.reason (lit "OOMKilled")
    then some (
      lit "OOMKilled",
      lit "build was OOM-killed; it needs more than the 4Gi memory limit or a smaller build",
    )
    else if t.exit_code == 0
    then none
    else some (
      lit "BuildFailed",
      lit "build exited with code "
          ++ (decimal t.exit_code
              ++ (lit "; see the Job pod logs ("
                  ++ (job.namespace ++ (lit "/" ++ (job.name ++ lit ")"))))),
    )

abbrev pub last_state : ContainerStatus → Option Terminated
last_state cs = elim cs.terminated [ none ↦ cs.last_terminated | some t ↦ some t ]

abbrev pub or_else : {A : Type 0} → Option A → Option A → Option A
or_else none o = o
or_else (some a) o = some a

unfoldable pub scan_statuses : Job → List ContainerStatus → Option (Text × Text)
scan_statuses job [] = none
scan_statuses job (cs ∷ rest) =
    let later = scan_statuses job rest in
    elim (last_state cs) [ none ↦ later | some t ↦ or_else (verdict job t) later ]

unfoldable pub scan_pods : Job → List Pod → Option (Text × Text)
unfolding scan_statuses
scan_pods job [] = none
scan_pods job (p ∷ pods) =
    let later = scan_pods job pods in
    or_else (scan_statuses job (p.init_container_statuses ++ p.container_statuses)) later

unfoldable pub failure_reason : Io → Build → Job → JobCondition → Result Failure (Text × Text)
unfolding scan_pods effective_timeout
failure_reason io b job cond =
    if text_eq cond.reason (lit "DeadlineExceeded")
    then ok (
      lit "DeadlineExceeded",
      lit "build exceeded its " ++ (decimal (effective_timeout b) ++ lit "s timeout"),
    )
    else elim io.pods [
      | none ↦ err pods_unlisted
      | some pods ↦ elim (scan_pods job pods) [
        | some explained ↦ ok explained
        | none ↦ ok (
          lit "BuildFailed",
          if is_empty cond.message
              then lit "build Job failed; see the Job pod logs"
              else cond.message,
        )
      ]
    ]
