-- ===== src/Operator/Build/Ensuring.antt =====
-- What a reconcile of operator/internal/controller/build_controller.go may write into the status of
-- a build, and what a sequence of them leaves of it.
use mathlib.Core.Path.{subst}
use orkano.Prelude.{
  ℕ, ◌≤◌, ◌≡◌, refl, sym, Text, lit, List, [], ◌∷◌, ◌++◌, true, false, err, arith, inl, inr, ◌⊎◌,
  Bool-cases, Option-cases, Result-cases,
}
use orkano.Api.{
  Build, BuildStatus, BuildPhase, unset, pending, running, succeeded, failed, Condition,
}
use orkano.Operator.Buildjob.{compose, RenderedJob}
use orkano.Operator.Buildjob.Render.{render}
use orkano.Operator.Build.{
  Job, Read, found, not_found, unread, Write, written, already_exists, gone, unwritten, Io, Effect,
  job_created, job_deleted, build_updated, status_updated, Failure, foreign, vanished, composing,
  rendering, Reconciler, is_terminal, owns_job,
}
use orkano.Operator.Build.Reconcile.{
  set_completed, fail_build, refuse_foreign_job, claim_job, confirm_job, create_job, ensure_desired,
  ensure_job, waiting, no_job,
}
use orkano.Operator.Build.Status.{Ensured}

abbrev pub rank : BuildPhase → ℕ
rank unset = 0
rank pending = 1
rank running = 2
rank succeeded = 3
rank failed = 3

-- The status that the API server holds after some writes.
abbrev pub status_after : List Effect → BuildStatus → BuildStatus
status_after [] s = s
status_after (status_updated b ∷ es) s = status_after es b.status
status_after (job_created _ ∷ es) s = status_after es s
status_after (job_deleted _ ∷ es) s = status_after es s
status_after (build_updated _ ∷ es) s = status_after es s

abbrev pub Quiet : List Effect → Type 0
Quiet es = (s : BuildStatus) → status_after es s ≡ s

pub status_after-append :
    (es fs : List Effect) (s : BuildStatus)
    → status_after (es ++ fs) s ≡ status_after fs (status_after es s)
status_after-append [] fs s = refl
status_after-append (status_updated b ∷ es) fs s = status_after-append es fs b.status
status_after-append (job_created _ ∷ es) fs s = status_after-append es fs s
status_after-append (job_deleted _ ∷ es) fs s = status_after-append es fs s
status_after-append (build_updated _ ∷ es) fs s = status_after-append es fs s

pub Read-cases : (r : Read) → ((job : Job) × (r ≡ found job)) ⊎ ((r ≡ not_found) ⊎ (r ≡ unread))
Read-cases (found job) = inl (job, refl)
Read-cases not_found = inr (inl refl)
Read-cases unread = inr (inr refl)

pub Write-cases :
    (w : Write) → (w ≡ written) ⊎ ((w ≡ already_exists) ⊎ ((w ≡ gone) ⊎ (w ≡ unwritten)))
Write-cases written = inl refl
Write-cases already_exists = inr (inl refl)
Write-cases gone = inr (inr (inl refl))
Write-cases unwritten = inr (inr (inr refl))

module _ (sha : Text → Text) (set : Condition → List Condition → List Condition)
    (Pinned : Text → Type 0) where
  -- From `before`, `s` is a status that the lifecycle allows: no phase goes back, and a build that
  -- has succeeded has a pinned image.
  pub record Next (before s : BuildStatus) : Type 0 where
    pub forward : rank before.phase ≤ rank s.phase
    pub pinned : s.phase ≡ succeeded → Pinned s.image

  pub rank_top : (p : BuildPhase) → rank p ≤ 3
  rank_top unset = omega arith
  rank_top pending = omega arith
  rank_top running = omega arith
  rank_top succeeded = omega arith
  rank_top failed = omega arith

  pub failed_Next : (before s : BuildStatus) → s.phase ≡ failed → Next before s
  failed_Next before s f = record {
    forward = ground (arith, rank_top before.phase);
    pinned = λ e. let no : ⊥ = ground arith in elim no [ ];
  }

  pub same_Next :
      (before s : BuildStatus)
      → is_terminal before.phase ≡ false
      → s.phase ≡ before.phase
      → Next before s
  same_Next before s t e = record {
    forward = ground arith;
    pinned = λ k. let no : ⊥ = ground arith in elim no [ ];
  }

  pub open_Next :
      (before s : BuildStatus)
      → is_terminal before.phase ≡ false
      → (s.phase ≡ running) ⊎ ((s.phase ≡ pending) × (waiting sha set before.phase ≡ true))
      → Next before s
  open_Next before s t (inl r) = record {
    forward = ground arith;
    pinned = λ k. let no : ⊥ = ground arith in elim no [ ];
  }
  open_Next before s t (inr (p, w)) = record {
    forward = ground arith;
    pinned = λ k. let no : ⊥ = ground arith in elim no [ ];
  }

  -- The job's part writes no status, and leaves the phase, or fails the build and has no job.
  abbrev pub Settled : BuildPhase → Ensured → Type 0
  Settled p e =
      Quiet e.effects
      × ((e.build.status.phase ≡ p)
          ⊎ ((e.build.status.phase ≡ failed) × ((f : Failure) × (e.job ≡ err f))))

  claim_Settled :
      (b : Build) (name : Text) (job : Job) → Settled b.status.phase (claim_job sha set b name job)
  unfolding claim_job refuse_foreign_job fail_build set_completed
  claim_Settled b name job = elim (Bool-cases (owns_job b job)) [
    | inl o ↦ rw o (λ s. refl, inl refl)
    | inr n ↦ rw n (λ s. refl, inr (refl, (foreign, refl)))
  ]

  confirm_Settled :
      (io : Io) (b : Build) (d : RenderedJob) → Settled b.status.phase (confirm_job sha set io b d)
  unfolding confirm_job fail_build set_completed
  confirm_Settled io b d = elim (Read-cases io.live_job) [
    | inl (job, r) ↦ rw r (λ s. refl, inl refl)
    | inr (inl r) ↦ rw r (λ s. refl, inr (refl, (vanished, refl)))
    | inr (inr r) ↦ rw r (λ s. refl, inl refl)
  ]

  create_Settled :
      (io : Io) (b : Build) (d : RenderedJob) → Settled b.status.phase (create_job sha set io b d)
  unfolding create_job
  create_Settled io b d = elim (Write-cases io.create_job) [
    | inl w ↦ rw w (λ s. refl, inl refl)
    | inr (inl w) ↦ elim (Read-cases io.live_job) [
      | inl (job, r) ↦ rw (w, r) (claim_Settled b d.name job)
      | inr (inl r) ↦ rw (w, r) (λ s. refl, inl refl)
      | inr (inr r) ↦ rw (w, r) (λ s. refl, inl refl)
    ]
    | inr (inr (inl w)) ↦ rw w (λ s. refl, inl refl)
    | inr (inr (inr w)) ↦ rw w (λ s. refl, inl refl)
  ]

  desired_Settled :
      (io : Io) (b : Build) (d : RenderedJob)
      → Settled b.status.phase (ensure_desired sha set io b d)
  unfolding ensure_desired
  desired_Settled io b d = elim (Read-cases io.cached_job) [
    | inl (job, r) ↦ rw r (claim_Settled b d.name job)
    | inr (inl r) ↦ elim (Option-cases b.status.job_ref) [
      | inl n ↦
          let e : ensure_desired sha set io b d ≡ create_job sha set io b d = ground arith in
          subst (Settled b.status.phase) (sym e) (create_Settled io b d)
      | inr (ref, j) ↦
          let e : ensure_desired sha set io b d ≡ confirm_job sha set io b d = ground arith in
          subst (Settled b.status.phase) (sym e) (confirm_Settled io b d)
    ]
    | inr (inr r) ↦ rw r (λ s. refl, inl refl)
  ]

  pub ensure_Settled :
      (rc : Reconciler) (io : Io) (b : Build) → Settled b.status.phase (ensure_job sha set rc io b)
  unfolding ensure_job fail_build set_completed
  ensure_Settled rc io b = elim (Result-cases (compose sha rc.git_base_url b)) [
    | inl (m, c) ↦
        let e : ensure_job sha set rc io b
            ≡ no_job sha set (fail_build sha set (lit "InvalidBuild") m b) (composing m) =
          ground arith in
        subst (Settled b.status.phase) (sym e) (λ s. refl, inr (refl, (composing m, refl)))
    | inr (inv, c) ↦ elim (Result-cases (render sha rc.source_fetcher_image b inv)) [
      | inl (m, r) ↦
          let e : ensure_job sha set rc io b ≡ no_job sha set b (rendering m) = ground arith in
          subst (Settled b.status.phase) (sym e) (λ s. refl, inl refl)
      | inr (desired, r) ↦
          let e : ensure_job sha set rc io b ≡ ensure_desired sha set io b desired = ground arith in
          subst (Settled b.status.phase) (sym e) (desired_Settled io b desired)
    ]
  ]
