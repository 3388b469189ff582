-- ===== src/Operator/Build/Cycle.antt =====
-- `finalize` and `Reconcile` of operator/internal/controller/build_controller.go.
use orkano.Prelude.{
  Text, lit, text_eq, List, [], ◌∷◌, ◌++◌, none, some, Bool, true, false, not, if◌then◌else◌,
  select, Result, ok, err, is_empty, ◌||◌,
}
use orkano.Api.{Build, BuildStatus, Condition, AppSpec}
use orkano.Features.{validate_app, disabled_message}
use orkano.Operator.Buildjob.{annotation_build_name, annotation_build_namespace}
use orkano.Operator.Build.{
  build_finalizer, Job, found, not_found, unread, written, gone, Io, Effect, job_deleted,
  build_updated, Failure, finalizing, fetching, unfinalized, undeleted, Reconciler, is_terminal,
  owns_job, annotation,
}
use orkano.Operator.Build.Reconcile.{
  fail_build, update_status, adopt_started_job, ensure_job, observe_job,
}
use orkano.Operator.Build.Status.{Outcome, Ensured, has_finalizer}

unfoldable pub remove_finalizer : Io → Build → List Effect → Outcome
remove_finalizer io b effects =
    let b' : Build = record b {
      finalizers = select (λ f. not (text_eq build_finalizer f)) b.finalizers;
    } in
    elim io.update_build [
      | written ↦ record { build = b'; effects = effects ++ build_updated b' ∷ []; failures = [] }
      | _ ↦ record { build = b'; effects = effects; failures = unfinalized ∷ [] }
    ]

unfoldable pub finalize : Io → Build → Outcome
unfolding remove_finalizer
finalize io b =
    if not (has_finalizer b)
    then record { build = b; effects = []; failures = [] }
    else elim io.cached_job [
      | not_found ↦ remove_finalizer io b []
      | unread ↦ record { build = b; effects = []; failures = fetching ∷ [] }
      | found job ↦ if not (owns_job b job) then remove_finalizer io b [] else elim io.delete_job [
        | written ↦ remove_finalizer io b (job_deleted job ∷ [])
        | gone ↦ remove_finalizer io b []
        | _ ↦ record { build = b; effects = []; failures = undeleted ∷ [] }
      ]
    ]

module _ (sha256_hex : Text → Text)
    (set_status_condition : Condition → List Condition → List Condition) where
  abbrev pub app_spec : Build → AppSpec
  app_spec b = record { source = b.spec.source; build = b.spec.strategy }

  -- The build to go on with, or one to record as failed, or an error.
  pub data Gate : Type 0 where
    pass : Build → Gate
    closed : Build → Gate
    unknown : Failure → Gate

  abbrev pub adopted : Build → Result Failure (Bool × Build) → Gate
  adopted refused (err e) = unknown e
  adopted refused (ok (true, b)) = pass b
  adopted refused (ok (false, b)) = closed refused

  -- The feature gates, which bind a build until its job is created.
  unfoldable pub check_gates : Reconciler → Io → Build → Gate
  unfolding adopt_started_job fail_build
  check_gates rc io b = elim b.status.job_ref [
    | some _ ↦ pass b
    | none ↦ elim (validate_app rc.features (app_spec b)) [
      | ok _ ↦ pass b
      | err missing ↦
          adopted
            (fail_build sha256_hex set_status_condition (lit "FeatureDisabled")
              (disabled_message missing) b)
            (adopt_started_job sha256_hex set_status_condition io b)
    ]
  ]

  unfoldable pub settle : Io → BuildStatus → Build → List Effect → List Failure → Outcome
  unfolding update_status
  settle io before b effects failures =
      let (writes, errors) = update_status sha256_hex set_status_condition io before b in
      record { build = b; effects = effects ++ writes; failures = failures ++ errors }

  unfoldable pub observed : Reconciler → Io → BuildStatus → Ensured → Outcome
  unfolding observe_job settle
  observed rc io before e = elim e.job [
    | err failure ↦ settle io before e.build e.effects (failure ∷ [])
    | ok job ↦
        let (b, failures) = observe_job sha256_hex set_status_condition rc io e.build job in
        settle io before b e.effects failures
  ]

  -- Behind the finalizer: the job, and what it tells.
  unfoldable pub run : Reconciler → Io → BuildStatus → Build → List Effect → Outcome
  unfolding ensure_job observed
  run rc io before b effects =
      let o = observed rc io before (ensure_job sha256_hex set_status_condition rc io b) in
      record o { effects = effects ++ o.effects }

  -- Adding the finalizer, where it is missing, is a write of its own; the server answers it with the
  -- status it has stored.
  unfoldable pub with_finalizer : Reconciler → Io → BuildStatus → Build → Outcome
  unfolding run
  with_finalizer rc io before b =
      if has_finalizer b
      then run rc io before b []
      else let b' : Build = record b { finalizers = b.finalizers ++ build_finalizer ∷ [] } in
        elim io.update_build [
          | written ↦
              let stored : Build = record b' { status = before } in
              run rc io before stored (build_updated stored ∷ [])
          | _ ↦ record { build = b'; effects = []; failures = finalizing ∷ [] }
        ]

  -- `Reconcile` on a build that was read.
  unfoldable pub reconcile : Reconciler → Io → Build → Outcome
  unfolding finalize check_gates with_finalizer settle
  reconcile rc io b =
      if b.deleted
      then finalize io b
      else if is_terminal b.status.phase
      then record { build = b; effects = []; failures = [] }
      else elim (check_gates rc io b) [
        | unknown e ↦ record { build = b; effects = []; failures = e ∷ [] }
        | closed refused ↦ settle io b.status refused [] []
        | pass b' ↦ with_finalizer rc io b.status b'
      ]

-- `mapJobToBuild`: the namespace and the name of the build whose job this is.
unfoldable pub map_job_to_build : Job → List (Text × Text)
map_job_to_build job =
    let name = annotation annotation_build_name job in
    let namespace = annotation annotation_build_namespace job in
    if is_empty name || is_empty namespace then [] else (namespace, name) ∷ []
