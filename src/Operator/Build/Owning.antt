-- ===== src/Operator/Build/Owning.antt =====
-- Which jobs a whole reconcile of operator/internal/controller/build_controller.go creates and deletes.
use orkano.Prelude.{◌≡◌, Text, List, [], ◌∷◌, some, ok, ◌⊎◌}
use orkano.Api.{Build, JobReference, Condition}
use orkano.Features.{validate_app}
use orkano.Operator.Buildjob.{RenderedJob, job_name}
use orkano.Operator.Build.{Io, Effect, Reconciler}
use orkano.Operator.Build.Status.{with_job_ref}
use orkano.Operator.Build.Cycle.{app_spec}
use orkano.Operator.Build.Starting.{created}
use orkano.Operator.Build.Touching.{DeletesOwn, Started, FoundOwn}

module _ (sha : Text → Text) (set : Condition → List Condition → List Condition) where
  -- How a build passes its gates: as it is, with a job already or with its gates open; or with the
  -- job that was found to be its own.
  record Passed (rc : Reconciler) (io : Io) (b b' : Build) : Type 0 where
    how :
        ((b' ≡ b)
          × (((j : JobReference) × (b.status.job_ref ≡ some j))
              ⊎ (validate_app rc.features (app_spec sha set b) ≡ ok tt)))
        ⊎ ((b' ≡ with_job_ref (job_name sha b.name) b) × FoundOwn sha set io b)

  -- What a reconcile does to jobs.
  abbrev pub Jobs : Reconciler → Io → Build → List Effect → Type 0
  Jobs rc io b es =
      ((created es ≡ []) ⊎ ((d : RenderedJob) × (created es ≡ d ∷ []) × Started sha set rc io b d))
      × DeletesOwn io b es

  abbrev Same : Build → Build → Type 0
  Same b' b = (b'.name ≡ b.name) × (b'.namespace ≡ b.namespace) × (b'.spec ≡ b.spec)
