-- ===== src/Operator/Build/Starting.antt =====
-- Which jobs a reconcile of operator/internal/controller/build_controller.go creates and deletes.
use mathlib.Core.Path.{subst}
use orkano.Prelude.{
  ◌≡◌, refl, ap, ◌∙◌, sym, Text, List, [], ◌∷◌, ◌++◌, none, ok, arith, inl, inr, ◌⊎◌, Bool-cases,
  Option-cases, Result-cases, Result-cases,
}
use orkano.Api.{Build, Condition}
use orkano.Operator.Buildjob.{compose, RenderedJob, Invocation}
use orkano.Operator.Buildjob.Render.{render}
use orkano.Operator.Build.{
  Job, not_found, Io, Effect, job_created, job_deleted, build_updated, status_updated, Reconciler,
  owns_job,
}
use orkano.Operator.Build.Reconcile.{ensure_job, ensure_desired, claim_job, confirm_job, create_job}
use orkano.Operator.Build.Status.{Ensured}
use orkano.Operator.Build.Ensuring.{Read-cases, Write-cases}

abbrev pub created : List Effect → List RenderedJob
created [] = []
created (job_created d ∷ es) = d ∷ created es
created (job_deleted _ ∷ es) = created es
created (build_updated _ ∷ es) = created es
created (status_updated _ ∷ es) = created es

abbrev pub deleted_jobs : List Effect → List Job
deleted_jobs [] = []
deleted_jobs (job_deleted j ∷ es) = j ∷ deleted_jobs es
deleted_jobs (job_created _ ∷ es) = deleted_jobs es
deleted_jobs (build_updated _ ∷ es) = deleted_jobs es
deleted_jobs (status_updated _ ∷ es) = deleted_jobs es

pub created-append : (es fs : List Effect) → created (es ++ fs) ≡ created es ++ created fs
created-append [] fs = refl
created-append (job_created d ∷ es) fs = ap (λ l. d ∷ l) (created-append es fs)
created-append (job_deleted _ ∷ es) fs = created-append es fs
created-append (build_updated _ ∷ es) fs = created-append es fs
created-append (status_updated _ ∷ es) fs = created-append es fs

module _ (sha : Text → Text) (set : Condition → List Condition → List Condition) where
  -- The job that a build asks for.
  pub record Desired (rc : Reconciler) (b : Build) (d : RenderedJob) : Type 0 where
    pub invocation : Invocation
    pub composed : compose sha rc.git_base_url b ≡ ok invocation
    pub rendered : render sha rc.source_fetcher_image b invocation ≡ ok d

  -- The effects of the job's part: nothing, or the creation of the job asked for, which only a build
  -- without one makes, and only where none was seen.
  pub record Creates (rc : Reconciler) (io : Io) (b : Build) (es : List Effect) : Type 0 where
    pub job : RenderedJob
    pub desired : Desired rc b job
    pub only : es ≡ job_created job ∷ []
    pub unstarted : b.status.job_ref ≡ none
    pub unseen : io.cached_job ≡ not_found

  abbrev pub Attempt : Reconciler → Io → Build → List Effect → Type 0
  Attempt rc io b es = (es ≡ []) ⊎ Creates rc io b es

  claim_effects :
      (b : Build) (name : Text) (job : Job) → (claim_job sha set b name job).effects ≡ []
  unfolding claim_job
  claim_effects b name job = elim (Bool-cases (owns_job b job)) [
    | inl o ↦ rw o refl
    | inr n ↦ rw n refl
  ]

  confirm_effects :
      (io : Io) (b : Build) (d : RenderedJob) → (confirm_job sha set io b d).effects ≡ []
  unfolding confirm_job
  confirm_effects io b d = elim (Read-cases io.live_job) [
    | inl (job, r) ↦ ground arith
    | inr (inl r) ↦ ground arith
    | inr (inr r) ↦ ground arith
  ]

  create_effects :
      (io : Io) (b : Build) (d : RenderedJob)
      → ((create_job sha set io b d).effects ≡ [])
        ⊎ ((create_job sha set io b d).effects ≡ job_created d ∷ [])
  unfolding create_job
  create_effects io b d = elim (Write-cases io.create_job) [
    | inl w ↦ inr (ground arith)
    | inr (inl w) ↦ elim (Read-cases io.live_job) [
      | inl (job, r) ↦ inl (ground (arith, claim_effects b d.name job))
      | inr (inl r) ↦ inl (ground arith)
      | inr (inr r) ↦ inl (ground arith)
    ]
    | inr (inr (inl w)) ↦ inl (ground arith)
    | inr (inr (inr w)) ↦ inl (ground arith)
  ]

  Desired-Attempt :
      (rc : Reconciler) (io : Io) (b : Build) (d : RenderedJob)
      → Desired rc b d
      → Attempt rc io b (ensure_desired sha set io b d).effects
  unfolding ensure_desired
  Desired-Attempt rc io b d wanted = elim (Read-cases io.cached_job) [
    | inl (job, r) ↦ inl (ground (arith, claim_effects b d.name job))
    | inr (inr r) ↦ inl (ground arith)
    | inr (inl r) ↦ elim (Option-cases b.status.job_ref) [
      | inr (ref, j) ↦ inl (ground (arith, confirm_effects io b d))
      | inl n ↦
          let e : (ensure_desired sha set io b d).effects ≡ (create_job sha set io b d).effects =
            ground arith in
          elim (create_effects io b d) [
            | inl quiet ↦ inl (e ∙ quiet)
            | inr made ↦
                inr
                  (record { job = d; desired = wanted; only = e ∙ made; unstarted = n; unseen = r })
          ]
    ]
  ]

  pub ensure_Attempt :
      (rc : Reconciler) (io : Io) (b : Build) → Attempt rc io b (ensure_job sha set rc io b).effects
  unfolding ensure_job
  ensure_Attempt rc io b = elim (Result-cases (compose sha rc.git_base_url b)) [
    | inl (m, c) ↦ inl (ground arith)
    | inr (inv, c) ↦ elim (Result-cases (render sha rc.source_fetcher_image b inv)) [
      | inl (m, r) ↦ inl (ground arith)
      | inr (d, r) ↦
          let e : ensure_job sha set rc io b ≡ ensure_desired sha set io b d = ground arith in
          subst (λ (o : Ensured). Attempt rc io b o.effects) (sym e)
            (Desired-Attempt rc io b d (record { invocation = inv; composed = c; rendered = r }))
    ]
  ]
