-- ===== src/Operator/App/Settling.antt =====
-- A reconcile of operator/internal/controller/app_controller.go that succeeds leaves nothing to do.
use orkano.Prelude.{
  ◌≡◌, refl, sym, ap, ◌∙◌, inl, inr, Text, lit, [], ◌++◌, none, some, Bool, true, false,
  if◌then◌else◌, Bool-cases, Option-cases, Result-cases, ok, arith, is_empty, quote, leb,
}
use mathlib.Core.Path.{subst}
use orkano.Prelude.Decimals.{decimal}
use orkano.Operator.Kube.{ApiError, wrap}
use orkano.Operator.Kube.Upserting.{run_again, run-stored}
use orkano.Operator.App.{App, Deployment}
use orkano.Operator.App.Reconcile.{
  Library, Io, World, observed, observe_builds, update_status, set_ready, readiness, report,
  own_deployment, blank_deployment, is_pinned, condition_ready, desired_replicas,
}
use orkano.Operator.App.Cycle.{
  reconcile, reconcile_app, roll_out, stop, expose, after_deployment, logged_deployment,
}
use orkano.Operator.App.Owning.{own_deployment_again}
use orkano.Operator.App.Status.{
  HasSeen, SameBut, observe_builds-HasSeen, observe_builds_again, update_status_ok,
  update_status_same,
}
use orkano.Operator.App.Exposing.{Calm, own_deployment-revised, fail_ready-error, expose-Exposed}

module _ (lib : Library) where
  -- A reconcile of an App that has seen its Builds.
  reconcile_seen :
      (io : Io) (a : App) (w : World)
      → Calm io
      → w.app ≡ some a
      → a.deleted ≡ false
      → HasSeen w.builds a
      → reconcile lib io w ≡ roll_out lib io a.status a w
  unfolding reconcile reconcile_app
  reconcile_seen io a w c stored alive seen =
      let again : observe_builds io.list_builds w.builds a ≡ ok a =
        ap (λ f. observe_builds f w.builds a) c.builds_listed
        ∙ observe_builds_again w.builds a seen in
      ground (arith, c.app_read, again)

  set_ready_again :
      (holds : Bool) (reason message : Text) (app : App)
      → (observed lib (set_ready lib holds reason message app)).status
        ≡ (observed lib (
            set_ready lib holds reason message
              (observed lib (set_ready lib holds reason message app)))).status
  unfolding set_ready
  set_ready_again holds reason message app = λ i. record app.status {
    conditions =
        sym
          (lib.conditions.set_again
            (record {
              kind = condition_ready;
              holds = holds;
              reason = reason;
              message = message;
              observed_generation = app.generation;
            })
            app.status.conditions)
          i;
    observed_generation = app.generation;
  }

  readiness_again :
      (app : App) (d : Deployment)
      → (observed lib (readiness lib app d)).status
        ≡ (observed lib (readiness lib (observed lib (readiness lib app d)) d)).status
  unfolding readiness set_ready
  readiness_again app d =
      let enough = leb (desired_replicas lib app) d.available_replicas in
      set_ready_again enough (if enough then lit "Available" else lit "Progressing")
        (decimal d.available_replicas
          ++ (lit "/" ++ (decimal (desired_replicas lib app) ++ lit " replicas available")))
        (record app { status = record app.status { available_replicas = d.available_replicas } })

  module _ (io : Io) (app seen : App) (w : World) (stored : w.app ≡ some app)
      (same : SameBut app seen) (alive : app.deleted ≡ false) (looked : HasSeen w.builds seen)
      (calm : Io) (c : Calm calm) where
    settles_waiting :
        is_empty seen.status.image ≡ true
        → (roll_out lib io app.status seen w).error ≡ none
        → let w' = (roll_out lib io app.status seen w).world in reconcile lib calm w' ≡ stop w' none
    unfolding roll_out set_ready
    settles_waiting empty fine =
        let reason = lit "WaitingForBuild" in
        let message = lit "no successful Build has produced an image yet" in
        let fin = set_ready lib false reason message seen in
        let a = observed lib fin in
        let w' : World = record w { app = some a } in
        let goes : roll_out lib io app.status seen w ≡ update_status lib io app.status fin w [] =
          ground (arith, empty) in
        let left : (roll_out lib io app.status seen w).world ≡ w' =
          ap (λ o. o.world) goes
          ∙ update_status_ok lib io app fin w [] stored
              (ap (λ (x : App). record x { status = fin.status }) same)
              (ap (λ o. o.error) (sym goes) ∙ fine) in
        let again : reconcile lib calm w' ≡ stop w' none =
          reconcile_seen calm a w' c refl (ap (λ (x : App). x.deleted) same ∙ alive) looked
          ∙ ground (
            arith,
            empty,
            update_status_same lib calm a.status (set_ready lib false reason message a) w' []
                (set_ready_again false reason message seen),
          ) in
        subst (λ x. reconcile lib calm x ≡ stop x none) (sym left) again

    settles_running :
        (d : Deployment)
        → is_empty seen.status.image ≡ false
        → is_pinned seen.status.image ≡ true
        → let u =
            lib.deployments.run blank_deployment
              (own_deployment lib seen)
              io.deployment
              w.deployment in
          u.result ≡ ok d
          → (roll_out lib io app.status seen w).error ≡ none
          → let w' = (roll_out lib io app.status seen w).world in
            reconcile lib calm w' ≡ stop w' none
    unfolding roll_out after_deployment report readiness set_ready
    settles_running d image pinned made fine =
        let u =
          lib.deployments.run blank_deployment (own_deployment lib seen) io.deployment
            w.deployment in
        let w1 : World = record w { deployment = u.stored } in
        let fin = readiness lib seen d in
        let a = observed lib fin in
        let goes : roll_out lib io app.status seen w
            ≡ expose lib io app.status seen d w1 (logged_deployment u) =
          ground (arith, image, pinned, made) in
        let e =
          expose-Exposed lib io app.status seen d w1 (logged_deployment u)
            (ap (λ o. o.error) (sym goes) ∙ fine) in
        let w2 : World = record w1 { service = e.service } in
        let w' : World = record w2 { app = some a } in
        let reports : roll_out lib io app.status seen w
            ≡ update_status lib io app.status fin w2 e.logged =
          goes ∙ e.first in
        let left : (roll_out lib io app.status seen w).world ≡ w' =
          ap (λ o. o.world) reports
          ∙ update_status_ok lib io app fin w2 e.logged stored
              (ap (λ (x : App). record x { status = fin.status }) same)
              (ap (λ o. o.error) (sym reports) ∙ fine) in
        let idle : lib.deployments.run blank_deployment (own_deployment lib a) calm.deployment
              u.stored
            ≡ record { stored = some d; result = ok d; wrote = false } =
          ap (λ m. lib.deployments.run blank_deployment m calm.deployment u.stored)
            (own_deployment-revised lib fin.status.conditions seen.generation d.available_replicas
              seen)
          ∙ run_again lib.deployments blank_deployment (own_deployment lib seen) io.deployment
              w.deployment (own_deployment_again lib seen) d made calm.deployment
              c.deployment_read in
        let unmoved : record w' { deployment = some d } ≡ w' = λ i. record w' {
          deployment =
              sym
                (run-stored lib.deployments blank_deployment (own_deployment lib seen) io.deployment
                  w.deployment d made)
                i;
        } in
        let second : roll_out lib calm a.status a w' ≡ stop w' none =
          let into : roll_out lib calm a.status a w'
              ≡ after_deployment lib calm a.status a w' (
                  lib.deployments.run blank_deployment (own_deployment lib a) calm.deployment
                    u.stored) =
            ground (arith, image, pinned) in
          into
          ∙ ap (after_deployment lib calm a.status a w') idle
          ∙ ap (λ x. expose lib calm a.status a d x []) unmoved
          ∙ e.again calm a.status fin.status.conditions seen.generation d.available_replicas d w' c
              refl
          ∙ update_status_same lib calm a.status (readiness lib a d) w' []
              (readiness_again seen d) in
        subst (λ x. reconcile lib calm x ≡ stop x none) (sym left)
          (reconcile_seen calm a w' c refl (ap (λ (x : App). x.deleted) same ∙ alive) looked
            ∙ second)

    settles_seen :
        (roll_out lib io app.status seen w).error ≡ none
        → let w' = (roll_out lib io app.status seen w).world in reconcile lib calm w' ≡ stop w' none
    unfolding roll_out after_deployment
    settles_seen fine = elim (Bool-cases (is_empty seen.status.image)) [
      | inl empty ↦ settles_waiting empty fine
      | inr image ↦ elim (Bool-cases (is_pinned seen.status.image)) [
        | inr loose ↦
            let why : ApiError = record {
              conflict = false;
              message = lit "refusing non-digest-pinned image " ++ quote seen.status.image;
            } in
            let wrong : ⊥ = ground (
              arith,
              image,
              loose,
              fail_ready-error lib io app.status seen (lit "InvalidImage") why w [],
            ) in
            elim wrong [ ]
        | inl pinned ↦
            let u =
              lib.deployments.run blank_deployment (own_deployment lib seen) io.deployment
                w.deployment in
            elim (Result-cases u.result) [
              | inr (d, made) ↦ settles_running d image pinned made fine
              | inl (e, failed) ↦
                  let why = wrap (lit "reconciling Deployment: ") e in
                  let w1 : World = record w { deployment = u.stored } in
                  let wrong : ⊥ = ground (
                    arith,
                    image,
                    pinned,
                    failed,
                    fail_ready-error lib io app.status seen (lit "ReconcileError") why w1
                        (logged_deployment u),
                  ) in
                  elim wrong [ ]
            ]
      ]
    ]

  -- After a reconcile that ended without an error, whatever it wrote, a reconcile of the world that it
  -- left, whose reads succeed, makes no write, changes nothing and ends without an error, for an App
  -- that is gone, being deleted, waiting for its first image, or running.
  pub reconcile_settles :
      (io : Io) (w : World) (calm : Io)
      → Calm calm
      → (reconcile lib io w).error ≡ none
      → let w' = (reconcile lib io w).world in reconcile lib calm w' ≡ stop w' none
  unfolding reconcile reconcile_app
  reconcile_settles io w calm c fine = elim (Option-cases io.get_app) [
    | inr (e, failed) ↦ let wrong : ⊥ = ground arith in elim wrong [ ]
    | inl read ↦ elim (Option-cases w.app) [
      | inl absent ↦ ground (arith, read, absent, c.app_read)
      | inr (app, stored) ↦ elim (Bool-cases app.deleted) [
        | inl dying ↦ ground (arith, read, stored, dying, c.app_read)
        | inr alive ↦ elim (Result-cases (observe_builds io.list_builds w.builds app)) [
          | inl (e, failed) ↦ let wrong : ⊥ = ground arith in elim wrong [ ]
          | inr (seen, looked) ↦
              let (has, same) = observe_builds-HasSeen io.list_builds w.builds app seen looked in
              let goes : reconcile lib io w ≡ roll_out lib io app.status seen w =
                ground (arith, read, stored, alive, looked) in
              subst (λ o. reconcile lib calm o.world ≡ stop o.world none) (sym goes)
                (settles_seen io app seen w stored same alive has calm c
                  (ap (λ o. o.error) (sym goes) ∙ fine))
        ]
      ]
    ]
  ]
