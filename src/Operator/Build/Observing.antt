-- ===== src/Operator/Build/Observing.antt =====
-- What a job tells a build in operator/internal/controller/build_controller.go: `observeJob` keeps to
-- the lifecycle.
use mathlib.Core.Path.{subst}
use orkano.Prelude.{
  ◌≡◌, sym, Text, List, some, false, ltb, ok, arith, inl, inr, Bool-cases, Option-cases,
  Result-cases,
}
use orkano.Api.{Build, BuildStatus, succeeded, Condition}
use orkano.Operator.Buildjob.{compose}
use orkano.Operator.Build.{
  Job, JobCondition, Io, Failure, Reconciler, is_terminal, job_condition, job_failed, job_complete,
  failure_reason,
}
use orkano.Operator.Build.Reconcile.{
  set_completed, fail_build, observe_failed, observe_complete, observe_job, waiting,
}
use orkano.Operator.Build.Status.{with_started_at, with_completed_at}
use orkano.Operator.Build.Ensuring.{Next, rank_top, failed_Next, same_Next, open_Next}

module _ (sha : Text → Text) (set : Condition → List Condition → List Condition)
    (Pinned : Text → Type 0) where
  failed_job_Next :
      (io : Io) (before : BuildStatus) (b : Build) (job : Job) (cond : JobCondition)
      → is_terminal before.phase ≡ false
      → b.status.phase ≡ before.phase
      → Next sha set Pinned before (observe_failed sha set io b job cond).0.status
  unfolding observe_failed fail_build set_completed
  failed_job_Next io before b job cond t p =
      elim (Result-cases
        (failure_reason io (with_completed_at (some cond.last_transition_time) b) job cond)) [
          | inl (e, r) ↦ same_Next sha set Pinned before _ t (ground arith)
          | inr (why, r) ↦ failed_Next sha set Pinned before _ (ground arith)
        ]

  complete_job_Next :
      (rc : Reconciler) (io : Io)
      → ((ref image : Text) → io.resolve_digest ref ≡ ok image → Pinned image)
      → (before : BuildStatus) (b : Build) (job : Job) → is_terminal before.phase ≡ false
      → b.status.phase ≡ before.phase
      → Next sha set Pinned before (observe_complete sha set rc io b job).0.status
  unfolding observe_complete set_completed
  complete_job_Next rc io pins before b job t p =
      elim (Result-cases (compose sha rc.git_base_url b)) [
        | inl (m, c) ↦ same_Next sha set Pinned before _ t (ground arith)
        | inr (inv, c) ↦ elim (Result-cases (io.resolve_digest inv.image_ref)) [
          | inl (m, r) ↦ open_Next sha set Pinned before _ t (inl (ground arith))
          | inr (image, r) ↦
              let same : (observe_complete sha set rc io b job).0.status.image ≡ image =
                ground arith in
              let done : (observe_complete sha set rc io b job).0.status.phase ≡ succeeded =
                ground arith in
              record {
                forward = ground (arith, rank_top sha set Pinned before.phase);
                pinned = λ k. subst Pinned (sym same) (pins inv.image_ref image r);
              }
        ]
      ]

  -- What a job tells.
  pub observe_Next :
      (rc : Reconciler) (io : Io)
      → ((ref image : Text) → io.resolve_digest ref ≡ ok image → Pinned image)
      → (before : BuildStatus) (b : Build) (job : Job) → is_terminal before.phase ≡ false
      → b.status.phase ≡ before.phase
      → Next sha set Pinned before (observe_job sha set rc io b job).0.status
  unfolding observe_job set_completed
  observe_Next rc io pins before b job t p =
      let b' = with_started_at job b in
      elim (Option-cases (job_condition job_failed job.conditions)) [
        | inr (cond, f) ↦
            let e : observe_job sha set rc io b job ≡ observe_failed sha set io b' job cond =
              ground arith in
            subst (λ (o : Build × List Failure). Next sha set Pinned before o.0.status) (sym e)
              (failed_job_Next io before b' job cond t p)
        | inl n ↦ elim (Option-cases (job_condition job_complete job.conditions)) [
          | inr (cond, c) ↦
              let e : observe_job sha set rc io b job ≡ observe_complete sha set rc io b' job =
                ground arith in
              subst (λ (o : Build × List Failure). Next sha set Pinned before o.0.status) (sym e)
                (complete_job_Next rc io pins before b' job t p)
          | inl m ↦ elim (Bool-cases (ltb 0 job.active)) [
            | inl a ↦ open_Next sha set Pinned before _ t (inl (ground arith))
            | inr a ↦ elim (Bool-cases (waiting sha set b.status.phase)) [
              | inl w ↦ open_Next sha set Pinned before _ t (inr (ground arith, ground arith))
              | inr w ↦ same_Next sha set Pinned before _ t (ground arith)
            ]
          ]
        ]
      ]
