-- ===== src/Operator/App/Writing.antt =====
-- What a reconcile of operator/internal/controller/app_controller.go may write.
use orkano.Prelude.{
  ◌≡◌, refl, sym, ap, inl, inr, ◌⊎◌, Text, lit, List, [], ◌∷◌, Option, none, some, Bool, true,
  false, Bool-cases, ok, >>=-eq-ok, arith, All, All-append,
}
use mathlib.Core.Path.{subst}
use orkano.Operator.Kube.{ApiError, Upserted, adopt, adopt_takes, current, kept}
use orkano.Operator.Kube.Upserting.{run-Ran, fails, leaves}
use orkano.Operator.App.{
  App, AppStatus, Deployment, Service, Container, serves, selector_labels, mutate_deployment,
  mutate_container, sole_container, mutate_service, stamp_deployment, stamp_service,
}
use orkano.Operator.App.Reconcile.{
  Library, Io, World, Write, deployment_written, service_written, service_deleted, status_written,
  Outcome, observed, update_status, set_ready, readiness, report, fail_ready, own_deployment,
  own_service, blank_deployment, blank_service, is_pinned, refusal,
}
use orkano.Operator.App.Cycle.{logged_deployment, logged_service}
use orkano.Operator.App.Owning.{own_deployment-ok, own_service-ok}

-- An object that may be taken: there is none, or the App controls it already. One that the server
-- has not created yet belongs to nobody.
abbrev pub Takeable : App → Bool → Option Text → Type 0
Takeable app created owner = (created ≡ false) ⊎ (owner ≡ some app.uid)

abbrev pub TakeableDeployment : App → Option Deployment → Type 0
TakeableDeployment app none = Unit {0}
TakeableDeployment app (some d) = Takeable app d.created d.controller

abbrev pub TakeableService : App → Option Service → Type 0
TakeableService app none = Unit {0}
TakeableService app (some s) = Takeable app s.created s.controller

-- One container, of an image that is pinned by its digest.
abbrev pub RunsPinned : Deployment → Type 0
RunsPinned d = (c : Container) × (d.containers ≡ c ∷ []) × (is_pinned c.image ≡ true)

abbrev pub Allowed : World → App → Write → Type 0
Allowed w app (deployment_written none) = ⊥
Allowed w app (deployment_written (some d)) =
    TakeableDeployment app w.deployment × (d.controller ≡ some app.uid) × RunsPinned d
Allowed w app (service_written none) = ⊥
Allowed w app (service_written (some s)) =
    TakeableService app w.service
    × (serves app ≡ true)
    × (s.controller ≡ some app.uid)
    × (s.kind ≡ lit "ClusterIP")
    × (s.selector ≡ selector_labels app)
Allowed w app service_deleted =
    (serves app ≡ false) × ((s : Service) × (w.service ≡ some s) × (s.controller ≡ some app.uid))
Allowed w app (status_written st) = st.observed_generation ≡ app.generation

-- Every write is allowed.
abbrev pub Lawful : World → App → Outcome → Type 0
Lawful w app o = All (Allowed w app) o.writes

-- The status of the App has no part in it.
pub Allowed-status :
    (w : World) (app : App) (st : AppStatus) (x : Write)
    → Allowed w (record app { status = st }) x
    → Allowed w app x
Allowed-status w app st (deployment_written none) h = h
Allowed-status w app st (deployment_written (some d)) h = h
Allowed-status w app st (service_written none) h = h
Allowed-status w app st (service_written (some s)) h = h
Allowed-status w app st service_deleted h = h
Allowed-status w app st (status_written new) h = h

module _ (lib : Library) where
  pub update_status-Allowed :
      (w0 : World) (app : App) (io : Io) (before : AppStatus) (fin : App) (w : World)
      (ws : List Write)
      → fin.generation ≡ app.generation
      → All (Allowed w0 app) ws
      → All (Allowed w0 app) (update_status lib io before fin w ws).writes
  unfolding update_status
  update_status-Allowed w0 app io before fin w ws g h =
      let more =
        All-append (Allowed w0 app) ws (status_written (observed lib fin).status ∷ []) h (g, tt) in
      ground (arith, more)

  pub fail_ready-Allowed :
      (w0 : World) (app : App) (io : Io) (before : AppStatus) (reason : Text) (e : ApiError)
      (w : World) (ws : List Write)
      → All (Allowed w0 app) ws
      → All (Allowed w0 app) (fail_ready lib io before app reason e w ws).writes
  unfolding fail_ready set_ready
  fail_ready-Allowed w0 app io before reason e w ws h = ground (
    arith,
    update_status-Allowed w0 app io before (set_ready lib false reason e.message app) w ws refl h,
  )

  pub report-Allowed :
      (w0 : World) (app : App) (io : Io) (before : AppStatus) (d : Deployment) (w : World)
      (ws : List Write)
      → All (Allowed w0 app) ws
      → All (Allowed w0 app) (report lib io before app d w ws).writes
  unfolding report readiness set_ready
  report-Allowed w0 app io before d w ws h =
      update_status-Allowed w0 app io before (readiness lib app d) w ws refl h

  own_deployment-Takeable :
      (app : App) (d m : Deployment)
      → own_deployment lib app d ≡ ok m
      → Takeable app d.created d.controller
  unfolding own_deployment
  own_deployment-Takeable app d m h =
      let (u, taken, made) =
        >>=-eq-ok
          (adopt lib.references app.uid d.created d.controller (refusal (lit "Deployment") app)) _
          h in
      adopt_takes lib.references app.uid d.created d.controller _ u taken

  own_service-Takeable :
      (app : App) (s m : Service)
      → own_service lib app s ≡ ok m
      → Takeable app s.created s.controller
  unfolding own_service
  own_service-Takeable app s m h =
      let (u, taken, made) =
        >>=-eq-ok
          (adopt lib.references app.uid s.created s.controller (refusal (lit "Service") app)) _ h in
      adopt_takes lib.references app.uid s.created s.controller _ u taken

  deployment_kept-Allowed :
      (w : World) (app : App) (stored : Option Deployment) (m : Deployment)
      → w.deployment ≡ stored
      → is_pinned app.status.image ≡ true
      → own_deployment lib app (current stamp_deployment blank_deployment stored) ≡ ok m
      → Allowed w app (deployment_written (some (kept stamp_deployment stored m)))
  unfolding mutate_deployment mutate_container
  deployment_kept-Allowed w app none m e pinned made =
      let is_m = own_deployment-ok lib app blank_deployment m made in
      (
        subst (TakeableDeployment app) (sym e) tt,
        ap (λ (x : Deployment). x.controller) is_m,
        (
          mutate_container app (sole_container []),
          ap (λ (x : Deployment). x.containers) is_m,
          pinned,
        ),
      )
  deployment_kept-Allowed w app (some d) m e pinned made =
      let is_m = own_deployment-ok lib app d m made in
      (
        subst (TakeableDeployment app) (sym e) (own_deployment-Takeable app d m made),
        ap (λ (x : Deployment). x.controller) is_m,
        (
          mutate_container app (sole_container d.containers),
          ap (λ (x : Deployment). x.containers) is_m,
          pinned,
        ),
      )

  service_kept-Allowed :
      (w : World) (app : App) (stored : Option Service) (m : Service)
      → w.service ≡ stored
      → serves app ≡ true
      → own_service lib app (current stamp_service blank_service stored) ≡ ok m
      → Allowed w app (service_written (some (kept stamp_service stored m)))
  unfolding mutate_service
  service_kept-Allowed w app none m e web made =
      let is_m = own_service-ok lib app blank_service m made in
      (
        subst (TakeableService app) (sym e) tt,
        web,
        ap (λ (x : Service). x.controller) is_m,
        ap (λ (x : Service). x.kind) is_m,
        ap (λ (x : Service). x.selector) is_m,
      )
  service_kept-Allowed w app (some s) m e web made =
      let is_m = own_service-ok lib app s m made in
      (
        subst (TakeableService app) (sym e) (own_service-Takeable app s m made),
        web,
        ap (λ (x : Service). x.controller) is_m,
        ap (λ (x : Service). x.kind) is_m,
        ap (λ (x : Service). x.selector) is_m,
      )

  logged_deployment-All :
      (P : Write → Type 0) (u : Upserted Deployment) (d : Deployment)
      → u.stored ≡ some d
      → P (deployment_written (some d))
      → All P (logged_deployment u)
  logged_deployment-All P u d e p = elim (Bool-cases u.wrote) [
    | inl wrote ↦
        let log : logged_deployment u ≡ deployment_written (some d) ∷ [] = ground arith in
        subst (All P) (sym log) (p, tt)
    | inr idle ↦ let log : logged_deployment u ≡ [] = ground arith in subst (All P) (sym log) tt
  ]

  logged_service-All :
      (P : Write → Type 0) (u : Upserted Service) (s : Service)
      → u.stored ≡ some s
      → P (service_written (some s))
      → All P (logged_service u)
  logged_service-All P u s e p = elim (Bool-cases u.wrote) [
    | inl wrote ↦
        let log : logged_service u ≡ service_written (some s) ∷ [] = ground arith in
        subst (All P) (sym log) (p, tt)
    | inr idle ↦ let log : logged_service u ≡ [] = ground arith in subst (All P) (sym log) tt
  ]

  pub logged_deployment-Allowed :
      (io : Io) (w : World) (app : App)
      → is_pinned app.status.image ≡ true
      → All (Allowed w app) (
          logged_deployment (
            lib.deployments.run blank_deployment
              (own_deployment lib app)
              io.deployment
              w.deployment))
  logged_deployment-Allowed io w app pinned =
      let u =
        lib.deployments.run blank_deployment (own_deployment lib app) io.deployment w.deployment in
      elim (run-Ran lib.deployments blank_deployment (own_deployment lib app) io.deployment
        w.deployment) [
          | fails e p ↦ subst (λ u. All (Allowed w app) (logged_deployment u)) (sym p) tt
          | leaves m made s k ↦
              logged_deployment-All (Allowed w app) u (kept stamp_deployment w.deployment m) s
                (deployment_kept-Allowed w app w.deployment m refl pinned made)
        ]

  pub logged_service-Allowed :
      (io : Io) (w0 w : World) (app : App)
      → w.service ≡ w0.service
      → serves app ≡ true
      → All (Allowed w0 app) (
          logged_service
            (lib.services.run blank_service (own_service lib app) io.service w.service))
  logged_service-Allowed io w0 w app same web =
      let u = lib.services.run blank_service (own_service lib app) io.service w.service in
      elim (run-Ran lib.services blank_service (own_service lib app) io.service w.service) [
        | fails e p ↦ subst (λ u. All (Allowed w0 app) (logged_service u)) (sym p) tt
        | leaves m made s k ↦
            logged_service-All (Allowed w0 app) u (kept stamp_service w.service m) s
              (service_kept-Allowed w0 app w.service m (sym same) web made)
      ]
