-- ===== src/Operator/Build/Touching.antt =====
-- How the parts of a reconcile of operator/internal/controller/build_controller.go touch jobs.
use mathlib.Core.List.{append-nil}
use orkano.Prelude.{
  ◌≡◌, refl, ap, ◌∙◌, Text, List, [], ◌∷◌, ◌++◌, none, true, false, ◌&&◌, ok, arith, inl, inr, ◌⊎◌,
  Bool-cases, Result-cases,
}
use orkano.Api.{Build, BuildStatus, Condition}
use orkano.Features.{validate_app}
use orkano.Operator.Buildjob.{RenderedJob}
use orkano.Operator.Build.{
  Job, found, not_found, written, Io, Effect, job_created, job_deleted, build_updated,
  status_updated, Failure, Reconciler, is_terminal, owns_job,
}
use orkano.Operator.Build.Reconcile.{update_status, observe_job}
use orkano.Operator.Build.Status.{Ensured, has_finalizer}
use orkano.Operator.Build.Cycle.{remove_finalizer, finalize, app_spec, settle, observed}
use orkano.Operator.Build.Ensuring.{Read-cases, Write-cases}
use orkano.Operator.Build.Starting.{created, deleted_jobs, created-append, Desired}

pub deleted-append :
    (es fs : List Effect) → deleted_jobs (es ++ fs) ≡ deleted_jobs es ++ deleted_jobs fs
deleted-append [] fs = refl
deleted-append (job_deleted j ∷ es) fs = ap (λ l. j ∷ l) (deleted-append es fs)
deleted-append (job_created _ ∷ es) fs = deleted-append es fs
deleted-append (build_updated _ ∷ es) fs = deleted-append es fs
deleted-append (status_updated _ ∷ es) fs = deleted-append es fs

pub created-finalize : (io : Io) (b : Build) → created (finalize io b).effects ≡ []
unfolding finalize remove_finalizer
created-finalize io b = elim (Read-cases io.cached_job) [
  | inl (job, r) ↦ ground arith
  | inr (inl r) ↦ ground arith
  | inr (inr r) ↦ ground arith
]

-- The one job that may be deleted is one that the build owns.
abbrev pub DeletesOwn : Io → Build → List Effect → Type 0
DeletesOwn io b es =
    (deleted_jobs es ≡ [])
    ⊎ ((job : Job) × (io.cached_job ≡ found job)
        × (owns_job b job ≡ true)
        × (b.deleted ≡ true)
        × (deleted_jobs es ≡ job ∷ []))

pub finalize-DeletesOwn :
    (io : Io) (b : Build) → b.deleted ≡ true → DeletesOwn io b (finalize io b).effects
unfolding finalize remove_finalizer
finalize-DeletesOwn io b d = elim (Read-cases io.cached_job) [
  | inr (inl r) ↦ inl (ground arith)
  | inr (inr r) ↦ inl (ground arith)
  | inl (job, r) ↦ elim (Bool-cases (has_finalizer b && owns_job b job)) [
    | inr n ↦ inl (ground arith)
    | inl o ↦ elim (Write-cases io.delete_job) [
      | inl w ↦ inr (job, r, ground arith, d, ground arith)
      | inr w ↦ inl (elim w [
        | inl x ↦ ground arith
        | inr (inl x) ↦ ground arith
        | inr (inr x) ↦ ground arith
      ])
    ]
  ]
]

module _ (sha : Text → Text) (set : Condition → List Condition → List Condition) where
  -- The live read of the gate found a job that is the build's own.
  abbrev pub FoundOwn : Io → Build → Type 0
  FoundOwn io b = (job : Job) × (io.adoption_read ≡ found job) × (owns_job b job ≡ true)

  -- The gates are open; or the build's own job was found behind a closed gate, and the build that
  -- the server answered the finalizer's write with does not refer to it.
  abbrev pub Gated : Reconciler → Io → Build → Type 0
  Gated rc io b =
      (validate_app rc.features (app_spec sha set b) ≡ ok tt)
      ⊎ ((has_finalizer b ≡ false) × FoundOwn io b)

  -- A new job's build: alive, not terminal, without a job so far; past its gates; its finalizer
  -- stored; and the job rendered from its own specification.
  pub record Started (rc : Reconciler) (io : Io) (b : Build) (d : RenderedJob) : Type 0 where
    pub alive : b.deleted ≡ false
    pub underway : is_terminal b.status.phase ≡ false
    pub unstarted : b.status.job_ref ≡ none
    pub unseen : io.cached_job ≡ not_found
    pub gated : Gated rc io b
    pub finalizer : (has_finalizer b ≡ true) ⊎ (io.update_build ≡ written)
    pub desired :
        (b' : Build) × (b'.name ≡ b.name)
        × (b'.namespace ≡ b.namespace)
        × (b'.spec ≡ b.spec)
        × Desired sha set rc b' d

  pub settle_jobs :
      (io : Io) (before : BuildStatus) (b : Build) (es : List Effect) (fs : List Failure)
      → let o = settle sha set io before b es fs in
        (created o.effects ≡ created es) × (deleted_jobs o.effects ≡ deleted_jobs es)
  unfolding settle update_status
  settle_jobs io before b es fs =
      let writes = (update_status sha set io before b).0 in
      let none_created : created writes ≡ [] = elim (Write-cases io.update_status) [
        | inl w ↦ ground arith
        | inr (inl w) ↦ ground arith
        | inr (inr (inl w)) ↦ ground arith
        | inr (inr (inr w)) ↦ ground arith
      ] in
      let none_deleted : deleted_jobs writes ≡ [] = elim (Write-cases io.update_status) [
        | inl w ↦ ground arith
        | inr (inl w) ↦ ground arith
        | inr (inr (inl w)) ↦ ground arith
        | inr (inr (inr w)) ↦ ground arith
      ] in
      (
        created-append es writes
            ∙ (ap (λ l. created es ++ l) none_created ∙ append-nil (created es)),
        deleted-append es writes
            ∙ (ap (λ l. deleted_jobs es ++ l) none_deleted ∙ append-nil (deleted_jobs es)),
      )

  pub observed_jobs :
      (rc : Reconciler) (io : Io) (before : BuildStatus) (e : Ensured)
      → let o = observed sha set rc io before e in
        (created o.effects ≡ created e.effects) × (deleted_jobs o.effects ≡ deleted_jobs e.effects)
  unfolding observed
  observed_jobs rc io before e = elim (Result-cases e.job) [
    | inl (f, j) ↦ rw j (settle_jobs io before e.build e.effects (f ∷ []))
    | inr (job, j) ↦
        let o = observe_job sha set rc io e.build job in
        rw j (settle_jobs io before o.0 e.effects o.1)
  ]
