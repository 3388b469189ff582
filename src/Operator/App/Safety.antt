-- ===== src/Operator/App/Safety.antt =====
-- Every write of a reconcile of operator/internal/controller/app_controller.go is allowed.
use orkano.Prelude.{
  ◌≡◌, refl, sym, ◌∙◌, inl, inr, Text, lit, text_eq_iff, List, [], ◌∷◌, ◌++◌, Option, none, some,
  true, false, Bool-cases, Option-cases, Result-cases, arith, is_empty, quote, All, All-append,
  All_map,
}
use mathlib.Core.Path.{subst}
use orkano.Operator.Kube.{Deletion, done, gone, undeleted, ApiError, wrap}
use orkano.Operator.App.{App, AppStatus, Deployment, Service, serves}
use orkano.Operator.App.Reconcile.{
  Library, Io, World, Write, service_deleted, observe_builds, update_status, set_ready, report,
  fail_ready, own_deployment, own_service, blank_deployment, blank_service, is_pinned,
}
use orkano.Operator.App.Cycle.{
  reconcile, reconcile_app, roll_out, expose, withdraw, after_service, after_deployment,
  logged_deployment, logged_service, controls,
}
use orkano.Operator.App.Status.{observe_builds-HasSeen}
use orkano.Operator.App.Writing.{
  Allowed, Allowed-status, Lawful, update_status-Allowed, fail_ready-Allowed, report-Allowed,
  logged_deployment-Allowed, logged_service-Allowed,
}

controls-eq : (app : App) (owner : Option Text) → controls app owner ≡ true → owner ≡ some app.uid
controls-eq app none h = cc
controls-eq app (some uid) h = ground (arith, text_eq_iff uid app.uid)

module _ (lib : Library) where
  module _ (io : Io) (before : AppStatus) (app : App) (d : Deployment) (w0 w : World)
      (ws : List Write) (same : w.service ≡ w0.service) (so_far : All (Allowed w0 app) ws) where
    deletion-Allowed :
        (s : Service) (answer : Deletion)
        → serves app ≡ false
        → io.get_service ≡ none
        → w.service ≡ some s
        → controls app s.controller ≡ true
        → io.delete_service ≡ answer
        → Lawful w0 app (withdraw lib io before app d w ws)
    unfolding withdraw
    deletion-Allowed s done quiet checked present ours e =
        let w' : World = record w { service = none } in
        let log = ws ++ service_deleted ∷ [] in
        let goes : withdraw lib io before app d w ws ≡ report lib io before app d w' log =
          ground arith in
        let owner : s.controller ≡ some app.uid = controls-eq app s.controller ours in
        subst (Lawful w0 app) (sym goes) (
          report-Allowed lib w0 app io before d w' log (
            All-append (Allowed w0 app) ws (service_deleted ∷ []) so_far
              ((quiet, (s, sym same ∙ present, owner)), tt)))
    deletion-Allowed s gone quiet checked present ours e =
        let w' : World = record w { service = none } in
        let goes : withdraw lib io before app d w ws ≡ report lib io before app d w' ws =
          ground arith in
        subst (Lawful w0 app) (sym goes) (report-Allowed lib w0 app io before d w' ws so_far)
    deletion-Allowed s (undeleted x) quiet checked present ours e =
        let why = wrap (lit "deleting Service for non-Web app: ") x in
        let goes : withdraw lib io before app d w ws
            ≡ fail_ready lib io before app (lit "ReconcileError") why w ws =
          ground arith in
        subst (Lawful w0 app) (sym goes)
          (fail_ready-Allowed lib w0 app io before (lit "ReconcileError") why w ws so_far)

    withdraw-Allowed : serves app ≡ false → Lawful w0 app (withdraw lib io before app d w ws)
    unfolding withdraw
    withdraw-Allowed quiet = elim (Option-cases io.get_service) [
      | inr (x, failed) ↦
          let why = wrap (lit "checking Service for non-Web app: ") x in
          let goes : withdraw lib io before app d w ws
              ≡ fail_ready lib io before app (lit "ReconcileError") why w ws =
            ground arith in
          subst (Lawful w0 app) (sym goes)
            (fail_ready-Allowed lib w0 app io before (lit "ReconcileError") why w ws so_far)
      | inl checked ↦ elim (Option-cases w.service) [
        | inl absent ↦
            let goes : withdraw lib io before app d w ws ≡ report lib io before app d w ws =
              ground arith in
            subst (Lawful w0 app) (sym goes) (report-Allowed lib w0 app io before d w ws so_far)
        | inr (s, present) ↦ elim (Bool-cases (controls app s.controller)) [
          | inl ours ↦ deletion-Allowed s io.delete_service quiet checked present ours refl
          | inr other ↦
              let goes : withdraw lib io before app d w ws ≡ report lib io before app d w ws =
                ground (arith, checked, present, other) in
              subst (Lawful w0 app) (sym goes) (report-Allowed lib w0 app io before d w ws so_far)
        ]
      ]
    ]

    expose-Allowed : Lawful w0 app (expose lib io before app d w ws)
    unfolding expose after_service
    expose-Allowed = elim (Bool-cases (serves app)) [
      | inr quiet ↦
          let goes : expose lib io before app d w ws ≡ withdraw lib io before app d w ws =
            ground (arith, quiet) in
          subst (Lawful w0 app) (sym goes) (withdraw-Allowed quiet)
      | inl web ↦
          let u = lib.services.run blank_service (own_service lib app) io.service w.service in
          let w' : World = record w { service = u.stored } in
          let log = ws ++ logged_service u in
          let more =
            All-append (Allowed w0 app) ws (logged_service u) so_far
              (logged_service-Allowed lib io w0 w app same web) in
          elim (Result-cases u.result) [
            | inl (x, failed) ↦
                let why = wrap (lit "reconciling Service: ") x in
                let goes : expose lib io before app d w ws
                    ≡ fail_ready lib io before app (lit "ReconcileError") why w' log =
                  ground (arith, web, failed) in
                subst (Lawful w0 app) (sym goes)
                  (fail_ready-Allowed lib w0 app io before (lit "ReconcileError") why w' log more)
            | inr (s, made) ↦
                let goes : expose lib io before app d w ws ≡ report lib io before app d w' log =
                  ground (arith, web, made) in
                subst (Lawful w0 app) (sym goes) (report-Allowed lib w0 app io before d w' log more)
          ]
    ]

  roll_out-Allowed :
      (io : Io) (before : AppStatus) (app : App) (w : World)
      → Lawful w app (roll_out lib io before app w)
  unfolding roll_out after_deployment set_ready
  roll_out-Allowed io before app w = elim (Bool-cases (is_empty app.status.image)) [
    | inl empty ↦
        let fin =
          set_ready lib false (lit "WaitingForBuild")
            (lit "no successful Build has produced an image yet") app in
        let goes : roll_out lib io before app w ≡ update_status lib io before fin w [] =
          ground (arith, empty) in
        subst (Lawful w app) (sym goes) (update_status-Allowed lib w app io before fin w [] refl tt)
    | inr image ↦ elim (Bool-cases (is_pinned app.status.image)) [
      | inr loose ↦
          let why : ApiError = record {
            conflict = false;
            message = lit "refusing non-digest-pinned image " ++ quote app.status.image;
          } in
          let goes : roll_out lib io before app w
              ≡ fail_ready lib io before app (lit "InvalidImage") why w [] =
            ground (arith, image, loose) in
          subst (Lawful w app) (sym goes)
            (fail_ready-Allowed lib w app io before (lit "InvalidImage") why w [] tt)
      | inl pinned ↦
          let u =
            lib.deployments.run blank_deployment (own_deployment lib app) io.deployment
              w.deployment in
          let w' : World = record w { deployment = u.stored } in
          let log = logged_deployment u in
          let so_far = logged_deployment-Allowed lib io w app pinned in
          elim (Result-cases u.result) [
            | inl (x, failed) ↦
                let why = wrap (lit "reconciling Deployment: ") x in
                let goes : roll_out lib io before app w
                    ≡ fail_ready lib io before app (lit "ReconcileError") why w' log =
                  ground (arith, image, pinned, failed) in
                subst (Lawful w app) (sym goes)
                  (fail_ready-Allowed lib w app io before (lit "ReconcileError") why w' log so_far)
            | inr (d, made) ↦
                let goes : roll_out lib io before app w ≡ expose lib io before app d w' log =
                  ground (arith, image, pinned, made) in
                subst (Lawful w app) (sym goes)
                  (expose-Allowed io before app d w w' log refl so_far)
          ]
    ]
  ]

  -- Each write of a reconcile, on every branch and whatever calls fail, is an allowed one: a
  -- Deployment or a Service is written only where none stood or the App controlled it, is controlled by
  -- the App afterwards, and never takes over a foreign one; a Deployment runs one container whose image
  -- is pinned by digest; a Service is a ClusterIP one that selects the App's pods, for an App that
  -- serves; a Service is deleted only for an App that does not serve and that controls it; a status
  -- carries the App's generation.
  pub reconcile-Allowed :
      (io : Io) (app : App) (w : World) → w.app ≡ some app → Lawful w app (reconcile lib io w)
  unfolding reconcile reconcile_app
  reconcile-Allowed io app w stored = elim (Option-cases io.get_app) [
    | inr (x, failed) ↦ ground arith
    | inl read ↦ elim (Bool-cases app.deleted) [
      | inl dying ↦ ground (arith, read, stored, dying)
      | inr alive ↦ elim (Result-cases (observe_builds io.list_builds w.builds app)) [
        | inl (x, failed) ↦ ground arith
        | inr (seen, looked) ↦
            let (has, same) = observe_builds-HasSeen io.list_builds w.builds app seen looked in
            let goes : reconcile lib io w ≡ roll_out lib io app.status seen w =
              ground (arith, read, stored, alive, looked) in
            let wrote =
              subst (λ a. Lawful w a (roll_out lib io app.status seen w)) same
                (roll_out-Allowed io app.status seen w) in
            subst (Lawful w app) (sym goes) (
              All_map (Allowed-status w app seen.status) (roll_out lib io app.status seen w).writes
                wrote)
      ]
    ]
  ]
