-- ===== src/Operator/Build/Closed.antt =====
-- What a sequence of reconciles of operator/internal/controller/build_controller.go leaves of the
-- status of a build.
use mathlib.Core.Path.{subst}
use orkano.Prelude.{
  ◌≡◌, refl, ap, ◌∙◌, sym, Text, lit, List, [], ◌∷◌, ◌++◌, true, false, ok, arith, inl, inr, ◌⊎◌,
  Bool-cases, Option-cases, Result-cases,
}
use orkano.Api.{Build, BuildStatus, succeeded, failed, Condition}
use orkano.Features.{validate_app, disabled_message}
use orkano.Operator.Buildjob.{job_name}
use orkano.Operator.Build.{
  Io, Effect, build_updated, build_finalizer, Failure, Reconciler, is_terminal, owns_job, adopting,
}
use orkano.Operator.Build.Reconcile.{
  fail_build, set_completed, update_status, adopt_started_job, ensure_job, observe_job,
}
use orkano.Operator.Build.Status.{Outcome, Ensured, has_finalizer, status_eq, with_job_ref}
use orkano.Operator.Build.Cycle.{
  remove_finalizer, finalize, pass, closed, unknown, check_gates, app_spec, settle, observed, run,
  with_finalizer, reconcile,
}
use orkano.Operator.Build.Observing.{observe_Next}
use orkano.Operator.Build.Ensuring.{
  status_after, Quiet, status_after-append, Next, Settled, ensure_Settled, failed_Next, same_Next,
  Read-cases, Write-cases,
}

finalize-Quiet : (io : Io) (b : Build) → Quiet (finalize io b).effects
unfolding finalize remove_finalizer
finalize-Quiet io b s = elim (Read-cases io.cached_job) [
  | inl (job, r) ↦ ground arith
  | inr (inl r) ↦ ground arith
  | inr (inr r) ↦ ground arith
]

module _ (sha : Text → Text) (set : Condition → List Condition → List Condition) where
  -- The last write is skipped, or fails, or stores the build's status.
  settle_status :
      (io : Io) (before : BuildStatus) (b : Build) (es : List Effect) (fs : List Failure)
      → Quiet es
      → let s = status_after (settle sha set io before b es fs).effects before in
        (s ≡ before) ⊎ (s ≡ record b.status { observed_generation = b.generation })
  unfolding settle update_status
  settle_status io before b es fs q =
      let (writes, errors) = update_status sha set io before b in
      let split : status_after (es ++ writes) before ≡ status_after writes before =
        status_after-append es writes before ∙ ap (status_after writes) (q before) in
      elim (Bool-cases
        (status_eq before (record b.status { observed_generation = b.generation }))) [
          | inl same ↦ inl (ground (arith, split))
          | inr new ↦ elim (Write-cases io.update_status) [
            | inl w ↦ inr (ground (arith, split))
            | inr (inl w) ↦ inl (ground (arith, split))
            | inr (inr (inl w)) ↦ inl (ground (arith, split))
            | inr (inr (inr w)) ↦ inl (ground (arith, split))
          ]
        ]

  -- A gate lets the build through in its phase, or closes on a failed one.
  gate_phase :
      (rc : Reconciler) (io : Io) (b : Build)
      → ((e : Failure) × (check_gates sha set rc io b ≡ unknown e))
        ⊎ (((r : Build) × (check_gates sha set rc io b ≡ closed r) × (r.status.phase ≡ failed))
            ⊎ ((b' : Build) × (check_gates sha set rc io b ≡ pass b')
                × (b'.status.phase ≡ b.status.phase)))
  unfolding check_gates adopt_started_job fail_build set_completed
  gate_phase rc io b = elim (Option-cases b.status.job_ref) [
    | inr (ref, j) ↦ inr (inr (b, ground arith, refl))
    | inl n ↦ elim (Result-cases (validate_app rc.features (app_spec sha set b))) [
      | inr (u, v) ↦ inr (inr (b, ground arith, refl))
      | inl (missing, v) ↦
          let refused = fail_build sha set (lit "FeatureDisabled") (disabled_message missing) b in
          elim (Read-cases io.adoption_read) [
            | inr (inl r) ↦ inr (inl (refused, ground arith, refl))
            | inr (inr r) ↦ inl (adopting, ground arith)
            | inl (job, r) ↦ elim (Bool-cases (owns_job b job)) [
              | inl o ↦ inr (inr (with_job_ref (job_name sha b.name) b, ground arith, refl))
              | inr o ↦ inr (inl (refused, ground arith, refl))
            ]
          ]
    ]
  ]

module _ (sha : Text → Text) (set : Condition → List Condition → List Condition)
    (Pinned : Text → Type 0) where
  abbrev Good : BuildStatus → BuildStatus → Type 0
  Good before s = Next sha set Pinned before s

  settle_Next :
      (io : Io) (before : BuildStatus) (b : Build) (es : List Effect) (fs : List Failure)
      → Quiet es
      → is_terminal before.phase ≡ false
      → Good before b.status
      → Good before (status_after (settle sha set io before b es fs).effects before)
  settle_Next io before b es fs q t next = elim (settle_status sha set io before b es fs q) [
    | inl kept ↦ subst (Good before) (sym kept) (same_Next sha set Pinned before before t refl)
    | inr stored ↦
        subst (Good before) (sym stored) (record { forward = next.forward; pinned = next.pinned })
  ]

  observed_Next :
      (rc : Reconciler) (io : Io)
      → ((ref image : Text) → io.resolve_digest ref ≡ ok image → Pinned image)
      → (before : BuildStatus) (e : Ensured) → is_terminal before.phase ≡ false
      → Settled sha set Pinned before.phase e
      → Good before (status_after (observed sha set rc io before e).effects before)
  unfolding observed
  observed_Next rc io pins before e t (q, outcome) = elim (Result-cases e.job) [
    | inl (f, j) ↦
        let next : Good before e.build.status = elim outcome [
          | inl same ↦ same_Next sha set Pinned before _ t same
          | inr (fails, _) ↦ failed_Next sha set Pinned before _ fails
        ] in
        let same : observed sha set rc io before e
            ≡ settle sha set io before e.build e.effects (f ∷ []) =
          ground arith in
        subst (λ (o : Outcome). Good before (status_after o.effects before)) (sym same)
          (settle_Next io before e.build e.effects (f ∷ []) q t next)
    | inr (job, j) ↦
        let o = observe_job sha set rc io e.build job in
        let phase : e.build.status.phase ≡ before.phase = elim outcome [
          | inl same ↦ same
          | inr (fails, (f, none_left)) ↦ let no : ⊥ = ground arith in elim no [ ]
        ] in
        let same : observed sha set rc io before e ≡ settle sha set io before o.0 e.effects o.1 =
          ground arith in
        subst (λ (o : Outcome). Good before (status_after o.effects before)) (sym same)
          (settle_Next io before o.0 e.effects o.1 q t
            (observe_Next sha set Pinned rc io pins before e.build job t phase))
  ]

  run_Next :
      (rc : Reconciler) (io : Io)
      → ((ref image : Text) → io.resolve_digest ref ≡ ok image → Pinned image)
      → (before : BuildStatus) (b : Build) (es : List Effect) → Quiet es
      → is_terminal before.phase ≡ false
      → b.status.phase ≡ before.phase
      → Good before (status_after (run sha set rc io before b es).effects before)
  unfolding run
  run_Next rc io pins before b es q t p =
      let e = ensure_job sha set rc io b in
      let later = (observed sha set rc io before e).effects in
      let split : status_after (es ++ later) before ≡ status_after later before =
        status_after-append es later before ∙ ap (status_after later) (q before) in
      subst (Good before) (sym split) (
        observed_Next rc io pins before e t
          (subst (λ x. Settled sha set Pinned x e) p (ensure_Settled sha set Pinned rc io b)))

  finalizer_Next :
      (rc : Reconciler) (io : Io)
      → ((ref image : Text) → io.resolve_digest ref ≡ ok image → Pinned image)
      → (before : BuildStatus) (b : Build) → is_terminal before.phase ≡ false
      → b.status.phase ≡ before.phase
      → Good before (status_after (with_finalizer sha set rc io before b).effects before)
  unfolding with_finalizer
  finalizer_Next rc io pins before b t p =
      let P : Outcome → Type 0 = λ o. Good before (status_after o.effects before) in
      let b' : Build = record b { finalizers = b.finalizers ++ build_finalizer ∷ [] } in
      let stored : Build = record b' { status = before } in
      elim (Bool-cases (has_finalizer b)) [
        | inl h ↦
            let e : with_finalizer sha set rc io before b ≡ run sha set rc io before b [] =
              ground arith in
            subst P (sym e) (run_Next rc io pins before b [] (λ s. refl) t p)
        | inr h ↦ elim (Write-cases io.update_build) [
          | inl w ↦
              let e : with_finalizer sha set rc io before b
                  ≡ run sha set rc io before stored (build_updated stored ∷ []) =
                ground arith in
              subst P (sym e)
                (run_Next rc io pins before stored (build_updated stored ∷ []) (λ s. refl) t refl)
          | inr w ↦
              let e : status_after (with_finalizer sha set rc io before b).effects before ≡ before =
                elim w [
                  | inl x ↦ ground arith
                  | inr (inl x) ↦ ground arith
                  | inr (inr x) ↦ ground arith
                ] in
              subst (Good before) (sym e) (same_Next sha set Pinned before before t refl)
        ]
      ]

  -- Whatever the API, the registry and the cluster answer, a reconcile moves the stored status of a
  -- build only forward, never back (a running build never reads as pending again), stores success
  -- only together with an image that the registry resolved, and leaves a terminal status alone.
  pub reconcile-Next :
      (rc : Reconciler) (io : Io)
      → ((ref image : Text) → io.resolve_digest ref ≡ ok image → Pinned image)
      → (b : Build) → (b.status.phase ≡ succeeded → Pinned b.status.image)
      → let s = status_after (reconcile sha set rc io b).effects b.status in
        Next sha set Pinned b.status s × (is_terminal b.status.phase ≡ true → s ≡ b.status)
  unfolding reconcile
  reconcile-Next rc io pins b held =
      let P : Outcome → Type 0 = λ o.
        Next sha set Pinned b.status (status_after o.effects b.status)
        × (is_terminal b.status.phase ≡ true → status_after o.effects b.status ≡ b.status) in
      let kept : Next sha set Pinned b.status b.status = record {
        forward = omega arith;
        pinned = held;
      } in
      elim (Bool-cases b.deleted) [
        | inl d ↦
            let e : reconcile sha set rc io b ≡ finalize io b = ground arith in
            let quiet = finalize-Quiet io b b.status in
            subst P (sym e) (subst (Next sha set Pinned b.status) (sym quiet) kept, λ k. quiet)
        | inr d ↦ elim (Bool-cases (is_terminal b.status.phase)) [
          | inl t ↦
              let e : (reconcile sha set rc io b).effects ≡ [] = ground arith in
              let quiet : status_after (reconcile sha set rc io b).effects b.status ≡ b.status =
                ap (λ es. status_after es b.status) e in
              (subst (Next sha set Pinned b.status) (sym quiet) kept, λ k. quiet)
          | inr t ↦
              let next : Next sha set Pinned b.status
                  (status_after (reconcile sha set rc io b).effects b.status) =
                elim (gate_phase sha set rc io b) [
                  | inl (f, g) ↦
                      let e : (reconcile sha set rc io b).effects ≡ [] = ground arith in
                      subst (Next sha set Pinned b.status)
                        (sym (ap (λ es. status_after es b.status) e)) kept
                  | inr (inl (r, g, p)) ↦
                      let e : reconcile sha set rc io b ≡ settle sha set io b.status r [] [] =
                        ground arith in
                      subst
                        (λ (o : Outcome).
                          Next sha set Pinned b.status (status_after o.effects b.status))
                        (sym e)
                        (settle_Next io b.status r [] [] (λ s. refl) t
                          (failed_Next sha set Pinned b.status r.status p))
                  | inr (inr (b', g, p)) ↦
                      let e : reconcile sha set rc io b ≡ with_finalizer sha set rc io b.status b' =
                        ground arith in
                      subst
                        (λ (o : Outcome).
                          Next sha set Pinned b.status (status_after o.effects b.status))
                        (sym e) (finalizer_Next rc io pins b.status b' t p)
                ] in
              (next, λ k. let no : ⊥ = ground arith in elim no [ ])
        ]
      ]
