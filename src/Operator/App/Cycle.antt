-- ===== src/Operator/App/Cycle.antt =====
-- `Reconcile` of operator/internal/controller/app_controller.go: its stages in order, and the map from
-- a Build's event to its App.
use orkano.Prelude.{
  Text, lit, text_eq, is_empty, List, [], ◌∷◌, ◌++◌, Option, none, some, Bool, false, not,
  if◌then◌else◌, ok, err, quote,
}
use orkano.Operator.Kube.{done, gone, undeleted, ApiError, wrap, Upserted}
use orkano.Operator.App.{App, AppStatus, Deployment, Service, serves}
use orkano.Operator.App.Reconcile.{
  Library, Io, Write, deployment_written, service_written, service_deleted, World, Outcome,
  is_pinned, observe_builds, blank_deployment, blank_service, set_ready, update_status, fail_ready,
  own_deployment, own_service, report,
}

-- `metav1.IsControlledBy`.
abbrev pub controls : App → Option Text → Bool
controls app none = false
controls app (some uid) = text_eq uid app.uid

abbrev pub logged_service : Upserted Service → List Write
logged_service u = if u.wrote then service_written u.stored ∷ [] else []

abbrev pub logged_deployment : Upserted Deployment → List Write
logged_deployment u = if u.wrote then deployment_written u.stored ∷ [] else []

abbrev pub stop : World → Option ApiError → Outcome
stop w e = record { world = w; writes = []; error = e }

module _ (lib : Library) where
  -- An App that does not serve has no Service of its own.
  unfoldable pub withdraw : Io → AppStatus → App → Deployment → World → List Write → Outcome
  unfolding fail_ready report
  withdraw io before app d w writes = elim io.get_service [
    | some e ↦
        fail_ready lib io before app (lit "ReconcileError")
          (wrap (lit "checking Service for non-Web app: ") e) w writes
    | none ↦ elim w.service [
      | none ↦ report lib io before app d w writes
      | some s ↦
          if not (controls app s.controller)
          then report lib io before app d w writes
          else elim io.delete_service [
            | done ↦
                report lib io before app d (record w { service = none })
                  (writes ++ service_deleted ∷ [])
            | gone ↦ report lib io before app d (record w { service = none }) writes
            | undeleted e ↦
                fail_ready lib io before app (lit "ReconcileError")
                  (wrap (lit "deleting Service for non-Web app: ") e) w writes
          ]
    ]
  ]

  -- What the write of the Service answered.
  unfoldable pub after_service :
      Io → AppStatus → App → Deployment → World → List Write → Upserted Service → Outcome
  unfolding fail_ready report
  after_service io before app d w writes u =
      let w' : World = record w { service = u.stored } in
      let writes' = writes ++ logged_service u in
      elim u.result [
        | err e ↦
            fail_ready lib io before app (lit "ReconcileError")
              (wrap (lit "reconciling Service: ") e) w' writes'
        | ok _ ↦ report lib io before app d w' writes'
      ]

  unfoldable pub expose : Io → AppStatus → App → Deployment → World → List Write → Outcome
  unfolding withdraw after_service own_service
  expose io before app d w writes =
      if serves app
      then after_service io before app d w writes
          (lib.services.run blank_service (own_service lib app) io.service w.service)
      else withdraw io before app d w writes

  -- What the write of the Deployment answered.
  unfoldable pub after_deployment : Io → AppStatus → App → World → Upserted Deployment → Outcome
  unfolding fail_ready expose
  after_deployment io before app w u =
      let w' : World = record w { deployment = u.stored } in
      elim u.result [
        | err e ↦
            fail_ready lib io before app (lit "ReconcileError")
              (wrap (lit "reconciling Deployment: ") e) w' (logged_deployment u)
        | ok d ↦ expose io before app d w' (logged_deployment u)
      ]

  -- With the Builds observed: the workload, where there is an image, and it is pinned.
  unfoldable pub roll_out : Io → AppStatus → App → World → Outcome
  unfolding set_ready update_status fail_ready after_deployment own_deployment
  roll_out io before app w =
      if is_empty app.status.image
      then update_status lib io before
          (set_ready lib false (lit "WaitingForBuild")
            (lit "no successful Build has produced an image yet") app)
          w []
      else if not (is_pinned app.status.image)
      then fail_ready lib io before app (lit "InvalidImage")
          (record {
            conflict = false;
            message = lit "refusing non-digest-pinned image " ++ quote app.status.image;
          })
          w []
      else after_deployment io before app w
          (lib.deployments.run blank_deployment (own_deployment lib app) io.deployment w.deployment)

  unfoldable pub reconcile_app : Io → App → World → Outcome
  unfolding observe_builds roll_out
  reconcile_app io app w =
      if app.deleted then stop w none else elim (observe_builds io.list_builds w.builds app) [
        | err e ↦ stop w (some (wrap (lit "observing Builds: ") e))
        | ok seen ↦ roll_out io app.status seen w
      ]

  -- `Reconcile`; an App that is gone needs nothing.
  unfoldable pub reconcile : Io → World → Outcome
  unfolding reconcile_app
  reconcile io w = elim io.get_app [
    | some e ↦ stop w (some e)
    | none ↦ elim w.app [ none ↦ stop w none | some app ↦ reconcile_app io app w ]
  ]

-- `mapBuildToApp`: the namespace and the name of the App that a Build's event is for.
unfoldable pub map_build_to_app : Text → Text → List (Text × Text)
map_build_to_app namespace app_name = if is_empty app_name then [] else (namespace, app_name) ∷ []
