-- ===== src/Operator/Build/Status.antt =====
-- The status of a build in operator/internal/controller/build_controller.go: its comparison and its
-- fields, and what the steps of a reconcile leave.
use orkano.Prelude.{
  ℕ, Text, text_eq, List, [], ◌∷◌, Option, none, some, Bool, true, false, not, ◌&&◌, ◌==◌, any_of,
  Result,
}
use orkano.Api.{
  Build, BuildStatus, BuildPhase, unset, pending, running, succeeded, failed, JobReference,
  Condition,
}
use orkano.Operator.Buildjob.{namespace}
use orkano.Operator.Build.{build_finalizer, Job, Effect, Failure}

abbrev pub opt_eq : Option ℕ → Option ℕ → Bool
opt_eq none none = true
opt_eq (some a) (some b) = a == b
opt_eq _ _ = false

abbrev pub ref_eq : Option JobReference → Option JobReference → Bool
ref_eq none none = true
ref_eq (some a) (some b) = text_eq a.namespace b.namespace && text_eq a.name b.name
ref_eq _ _ = false

abbrev pub phase_eq : BuildPhase → BuildPhase → Bool
phase_eq unset unset = true
phase_eq pending pending = true
phase_eq running running = true
phase_eq succeeded succeeded = true
phase_eq failed failed = true
phase_eq _ _ = false

abbrev pub bool_eq : Bool → Bool → Bool
bool_eq true b = b
bool_eq false b = not b

abbrev pub conditions_eq : List Condition → List Condition → Bool
conditions_eq [] [] = true
conditions_eq (a ∷ xs) (b ∷ ys) =
    text_eq a.kind b.kind
    && bool_eq a.holds b.holds
    && text_eq a.reason b.reason
    && text_eq a.message b.message
    && a.observed_generation == b.observed_generation
    && conditions_eq xs ys
conditions_eq _ _ = false

-- `equality.Semantic.DeepEqual` on two statuses.
unfoldable pub status_eq : BuildStatus → BuildStatus → Bool
status_eq a b =
    a.observed_generation == b.observed_generation
    && phase_eq a.phase b.phase
    && text_eq a.image b.image
    && ref_eq a.job_ref b.job_ref
    && opt_eq a.started_at b.started_at
    && opt_eq a.completed_at b.completed_at
    && conditions_eq a.conditions b.conditions

-- What a reconcile or a part of it leaves: the build in memory, the writes, and the errors.
pub record Outcome : Type 0 where
  pub build : Build
  pub effects : List Effect
  pub failures : List Failure

-- `ensureJob` returns, besides, the job or an error.
pub record Ensured : Type 0 where
  pub build : Build
  pub job : Result Failure Job
  pub effects : List Effect

abbrev pub with_phase : BuildPhase → Build → Build
with_phase p b = record b { status = record b.status { phase = p } }

abbrev pub with_job_ref : Text → Build → Build
with_job_ref name b = record b {
  status = record b.status { job_ref = some (record { namespace = namespace; name = name }) };
}

abbrev pub with_completed_at : Option ℕ → Build → Build
with_completed_at t b = record b { status = record b.status { completed_at = t } }

abbrev pub with_image : Text → Build → Build
with_image image b = record b { status = record b.status { image = image } }

abbrev pub with_started_at : Job → Build → Build
with_started_at job b = record b {
  status = record b.status {
    started_at = elim b.status.started_at [ none ↦ job.start_time | some t ↦ some t ];
  };
}

abbrev pub has_finalizer : Build → Bool
has_finalizer b = any_of (text_eq build_finalizer) b.finalizers
