-- ===== src/Operator/Build/Reconcile.antt =====
-- The steps of `Reconcile` in operator/internal/controller/build_controller.go, which
-- `Operator.Build.Cycle` puts together.
use orkano.Prelude.{
  Text, lit, List, [], ◌∷◌, ◌++◌, none, some, Bool, true, false, ltb, if◌then◌else◌, Result, ok,
  err,
}
use orkano.Api.{
  Build, BuildStatus, BuildPhase, unset, pending, running, succeeded, failed, Condition,
}
use orkano.Operator.Buildjob.{compose, job_name, RenderedJob}
use orkano.Operator.Buildjob.Render.{render}
use orkano.Operator.Build.{
  condition_completed, job_failed, job_complete, JobCondition, Job, found, not_found, unread,
  written, already_exists, Io, Effect, job_created, status_updated, Failure, adopting, creating,
  fetching, confirming, vanished, foreign, unresolved, composing, rendering, status_unwritten,
  Reconciler, owns_job, job_condition, fresh_job, failure_reason,
}
use orkano.Operator.Build.Status.{
  status_eq, with_phase, with_job_ref, with_completed_at, with_image, with_started_at, Ensured,
}

module _ (sha256_hex : Text → Text)
    (set_status_condition : Condition → List Condition → List Condition) where
  unfoldable pub set_completed : Bool → Text → Text → Build → Build
  set_completed holds reason message b =
      let c : Condition = record {
        kind = condition_completed;
        holds = holds;
        reason = reason;
        message = message;
        observed_generation = b.generation;
      } in
      record b {
        status = record b.status { conditions = set_status_condition c b.status.conditions };
      }

  unfoldable pub fail_build : Text → Text → Build → Build
  unfolding set_completed
  fail_build reason message b = set_completed false reason message (with_phase failed b)

  -- The write of the status, unless it is as before.
  unfoldable pub update_status : Io → BuildStatus → Build → List Effect × List Failure
  unfolding status_eq
  update_status io before b =
      let next : Build = record b {
        status = record b.status { observed_generation = b.generation };
      } in
      if status_eq before next.status then ([], []) else elim io.update_status [
        | written ↦ (status_updated next ∷ [], [])
        | _ ↦ ([], status_unwritten ∷ [])
      ]

  -- Whether the job was started before, with the build that refers to it.
  unfoldable pub adopt_started_job : Io → Build → Result Failure (Bool × Build)
  adopt_started_job io b = elim io.adoption_read [
    | not_found ↦ ok (false, b)
    | unread ↦ err adopting
    | found job ↦
        if owns_job b job
        then ok (true, with_job_ref (job_name sha256_hex b.name) b)
        else ok (false, b)
  ]

  unfoldable pub refuse_foreign_job : Job → Build → Build
  unfolding fail_build
  refuse_foreign_job job b =
      fail_build (lit "JobConflict")
        (lit "Job "
          ++ (job.namespace
              ++ (lit "/"
                  ++ (job.name
                      ++ lit
                          " already exists and does not belong to this Build; remove it and retry with a new Build"))))
        b

  abbrev pub kept_job : Build → Text → Job → List Effect → Ensured
  kept_job b name job effects = record {
    build = with_job_ref name b;
    job = ok job;
    effects = effects;
  }

  abbrev pub no_job : Build → Failure → Ensured
  no_job b e = record { build = b; job = err e; effects = [] }

  -- A job by the name that exists: ours, or refused.
  unfoldable pub claim_job : Build → Text → Job → Ensured
  unfolding refuse_foreign_job
  claim_job b name job =
      if owns_job b job then kept_job b name job [] else no_job (refuse_foreign_job job b) foreign

  -- The job is missing from the cache, although the build refers to it.
  unfoldable pub confirm_job : Io → Build → RenderedJob → Ensured
  unfolding fail_build
  confirm_job io b desired = elim io.live_job [
    | found job ↦ record { build = b; job = ok job; effects = [] }
    | unread ↦ no_job b confirming
    | not_found ↦
        no_job
          (fail_build (lit "JobMissing")
            (lit "Job "
              ++ (desired.namespace
                  ++ (lit "/"
                      ++ (desired.name
                          ++ lit
                              " was deleted before the build finished; retry by creating a new Build"))))
            b)
          vanished
  ]

  unfoldable pub create_job : Io → Build → RenderedJob → Ensured
  unfolding claim_job
  create_job io b desired = elim io.create_job [
    | written ↦ kept_job b desired.name (fresh_job desired) (job_created desired ∷ [])
    | already_exists ↦ elim io.live_job [
      | found job ↦ claim_job b desired.name job
      | _ ↦ no_job b fetching
    ]
    | _ ↦ no_job b creating
  ]

  -- `ensureJob` behind the rendering.
  unfoldable pub ensure_desired : Io → Build → RenderedJob → Ensured
  unfolding confirm_job create_job claim_job
  ensure_desired io b desired = elim io.cached_job [
    | found job ↦ claim_job b desired.name job
    | unread ↦ no_job b fetching
    | not_found ↦ elim b.status.job_ref [
      | some _ ↦ confirm_job io b desired
      | none ↦ create_job io b desired
    ]
  ]

  unfoldable pub ensure_job : Reconciler → Io → Build → Ensured
  unfolding ensure_desired
  ensure_job rc io b = elim (compose sha256_hex rc.git_base_url b) [
    | err message ↦ no_job (fail_build (lit "InvalidBuild") message b) (composing message)
    | ok inv ↦ elim (render sha256_hex rc.source_fetcher_image b inv) [
      | err message ↦ no_job b (rendering message)
      | ok desired ↦ ensure_desired io b desired
    ]
  ]

  unfoldable pub observe_failed : Io → Build → Job → JobCondition → Build × List Failure
  observe_failed io b job cond =
      let b' = with_completed_at (some cond.last_transition_time) b in
      elim (failure_reason io b' job cond) [
        | err e ↦ (b', e ∷ [])
        | ok (reason, message) ↦ (fail_build reason message b', [])
      ]

  unfoldable pub observe_complete : Reconciler → Io → Build → Job → Build × List Failure
  unfolding set_completed
  observe_complete rc io b job = elim (compose sha256_hex rc.git_base_url b) [
    | err message ↦ (b, composing message ∷ [])
    | ok inv ↦ elim (io.resolve_digest inv.image_ref) [
      | err e ↦ (
        with_phase running (
            set_completed false (lit "ResolvingDigest")
              (lit "image pushed; resolving its digest failed: " ++ e) b),
        unresolved ∷ [],
      )
      | ok pinned ↦ (
        set_completed true (lit "Succeeded") (lit "pushed " ++ pinned)
            (with_completed_at job.completion_time (with_phase succeeded (with_image pinned b))),
        [],
      )
    ]
  ]

  abbrev pub waiting : BuildPhase → Bool
  waiting unset = true
  waiting pending = true
  waiting _ = false

  -- `observeJob`.
  unfoldable pub observe_job : Reconciler → Io → Build → Job → Build × List Failure
  unfolding observe_failed observe_complete job_condition
  observe_job rc io b job =
      let b' = with_started_at job b in
      elim (job_condition job_failed job.conditions) [
        | some cond ↦ observe_failed io b' job cond
        | none ↦ elim (job_condition job_complete job.conditions) [
          | some _ ↦ observe_complete rc io b' job
          | none ↦
              if ltb 0 job.active
              then (
                set_completed false (lit "Running") (lit "build Job is running")
                    (with_phase running b'),
                [],
              )
              else if waiting b'.status.phase
              then (
                set_completed false (lit "Pending") (lit "build Job is waiting to start")
                    (with_phase pending b'),
                [],
              )
              else (b', [])
        ]
      ]
