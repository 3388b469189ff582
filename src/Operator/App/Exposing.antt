-- ===== src/Operator/App/Exposing.antt =====
-- The stage of `Reconcile` in operator/internal/controller/app_controller.go that sees to the Service:
-- where it went through once, it finds nothing to do.
use orkano.Prelude.{
  ◌≡◌, refl, sym, ap, ◌∙◌, inl, inr, ◌⊎◌, ℕ, Text, lit, List, [], ◌∷◌, ◌++◌, Option, none, some,
  true, false, Bool-cases, Option-cases, Result-cases, ok, arith,
}
use mathlib.Core.Path.{subst}
use orkano.Api.{Condition}
use orkano.Operator.Kube.{Deletion, done, gone, undeleted, ApiError, wrap}
use orkano.Operator.Kube.Upserting.{run_again, run-stored}
use orkano.Operator.App.{
  App, AppStatus, Deployment, Service, serves, mutate_deployment, mutate_container, mutate_service,
}
use orkano.Operator.App.Reconcile.{
  Library, Io, service_deleted, World, Write, report, fail_ready, own_deployment, own_service,
  blank_service,
}
use orkano.Operator.App.Cycle.{expose, withdraw, after_service, controls, logged_service}
use orkano.Operator.App.Owning.{own_service_again}

-- The reads that a reconcile makes succeed.
pub record Calm (io : Io) : Type 0 where
  pub app_read : io.get_app ≡ none
  pub builds_listed : io.list_builds ≡ none
  pub deployment_read : io.deployment.read ≡ none
  pub service_read : io.service.read ≡ none
  pub service_checked : io.get_service ≡ none

-- An App with another status, but for what its Builds gave.
abbrev pub revised : List Condition → ℕ → ℕ → App → App
revised conditions generation available app = record app {
  status = record app.status {
    conditions = conditions;
    observed_generation = generation;
    available_replicas = available;
  };
}

module _ (lib : Library) where
  pub own_deployment-revised :
      (cs : List Condition) (g n : ℕ) (app : App)
      → own_deployment lib (revised cs g n app) ≡ own_deployment lib app
  unfolding own_deployment mutate_deployment mutate_container
  own_deployment-revised cs g n app = refl

  own_service-revised :
      (cs : List Condition) (g n : ℕ) (app : App)
      → own_service lib (revised cs g n app) ≡ own_service lib app
  unfolding own_service mutate_service
  own_service-revised cs g n app = refl

  pub fail_ready-error :
      (io : Io) (before : AppStatus) (app : App) (reason : Text) (e : ApiError) (w : World)
      (ws : List Write)
      → (fail_ready lib io before app reason e w ws).error ≡ some e
  unfolding fail_ready
  fail_ready-error io before app reason e w ws = ground arith

  -- No Service that the App controls.
  abbrev Unclaimed : App → Option Service → Type 0
  Unclaimed app stored =
      (stored ≡ none) ⊎ ((s : Service) × (stored ≡ some s) × (controls app s.controller ≡ false))

  expose-Unclaimed :
      (io : Io) (before : AppStatus) (app : App) (d : Deployment) (w : World) (ws : List Write)
      → serves app ≡ false
      → io.get_service ≡ none
      → Unclaimed app w.service
      → expose lib io before app d w ws ≡ report lib io before app d w ws
  unfolding withdraw expose
  expose-Unclaimed io before app d w ws quiet read (inl absent) = ground arith
  expose-Unclaimed io before app d w ws quiet read (inr (s, present, other)) =
      ground (arith, quiet, read, present, other)

  abbrev pub Rests : App → Option Service → Type 0
  Rests app service =
      (calm : Io) (now : AppStatus) (cs : List Condition) (g n : ℕ) (d : Deployment) (w' : World)
      → Calm calm
      → w'.service ≡ service
      → expose lib calm now (revised cs g n app) d w' []
        ≡ report lib calm now (revised cs g n app) d w' []

  Unclaimed-Rests :
      (app : App) (service : Option Service)
      → serves app ≡ false
      → Unclaimed app service
      → Rests app service
  Unclaimed-Rests app service quiet free calm now cs g n d w' c e =
      expose-Unclaimed calm now (revised cs g n app) d w' [] quiet c.service_checked
        (subst (Unclaimed app) (sym e) free)

  -- A stage that went through to the report, and would do nothing but report again.
  pub record Exposed (io : Io) (before : AppStatus) (app : App) (d : Deployment) (w : World)
      (ws : List Write) : Type 0 where
    pub service : Option Service
    pub logged : List Write
    pub first :
        expose lib io before app d w ws
        ≡ report lib io before app d (record w { service = service }) logged
    pub again : Rests app service

  kept_service :
      (io : Io) (before : AppStatus) (app : App) (d : Deployment) (w : World) (ws : List Write)
      → serves app ≡ false
      → io.get_service ≡ none
      → Unclaimed app w.service
      → Exposed io before app d w ws
  kept_service io before app d w ws quiet checked free = record {
    service = w.service;
    logged = ws;
    first = expose-Unclaimed io before app d w ws quiet checked free;
    again = Unclaimed-Rests app w.service quiet free;
  }

  module _ (io : Io) (before : AppStatus) (app : App) (d : Deployment) (w : World) (ws : List Write)
      (quiet : serves app ≡ false) (fine : (expose lib io before app d w ws).error ≡ none) where
    deleted_service :
        (s : Service) (answer : Deletion)
        → io.get_service ≡ none
        → w.service ≡ some s
        → controls app s.controller ≡ true
        → io.delete_service ≡ answer
        → Exposed io before app d w ws
    unfolding withdraw expose
    deleted_service s done checked present ours e = record {
      service = none;
      logged = ws ++ service_deleted ∷ [];
      first = ground arith;
      again = Unclaimed-Rests app none quiet (inl refl);
    }
    deleted_service s gone checked present ours e = record {
      service = none;
      logged = ws;
      first = ground arith;
      again = Unclaimed-Rests app none quiet (inl refl);
    }
    deleted_service s (undeleted x) checked present ours e =
        let why = wrap (lit "deleting Service for non-Web app: ") x in
        let no : ⊥ =
          ground (arith, fail_ready-error io before app (lit "ReconcileError") why w ws) in
        elim no [ ]

    withdraw-Exposed : Exposed io before app d w ws
    unfolding withdraw expose
    withdraw-Exposed = elim (Option-cases io.get_service) [
      | inr (e, failed) ↦
          let why = wrap (lit "checking Service for non-Web app: ") e in
          let no : ⊥ =
            ground (arith, fail_ready-error io before app (lit "ReconcileError") why w ws) in
          elim no [ ]
      | inl checked ↦ elim (Option-cases w.service) [
        | inl absent ↦ kept_service io before app d w ws quiet checked (inl absent)
        | inr (s, present) ↦ elim (Bool-cases (controls app s.controller)) [
          | inl ours ↦ deleted_service s io.delete_service checked present ours refl
          | inr other ↦ kept_service io before app d w ws quiet checked (inr (s, present, other))
        ]
      ]
    ]

  serve-Exposed :
      (io : Io) (before : AppStatus) (app : App) (d : Deployment) (w : World) (ws : List Write)
      → serves app ≡ true
      → (expose lib io before app d w ws).error ≡ none
      → Exposed io before app d w ws
  unfolding expose after_service
  serve-Exposed io before app d w ws web fine =
      let u = lib.services.run blank_service (own_service lib app) io.service w.service in
      elim (Result-cases u.result) [
        | inl (e, failed) ↦
            let why = wrap (lit "reconciling Service: ") e in
            let no : ⊥ = ground (
              arith,
              fail_ready-error io before app (lit "ReconcileError") why
                  (record w { service = u.stored }) (ws ++ logged_service u),
            ) in
            elim no [ ]
        | inr (s, made) ↦ record {
          service = u.stored;
          logged = ws ++ logged_service u;
          first = ground arith;
          again = λ calm now cs g n d' w' c e.
              let app' = revised cs g n app in
              let served =
                run-stored lib.services blank_service (own_service lib app) io.service w.service s
                  made in
              let idle : lib.services.run blank_service (own_service lib app') calm.service
                    w'.service
                  ≡ record { stored = some s; result = ok s; wrote = false } =
                ap (λ m. lib.services.run blank_service m calm.service w'.service)
                  (own_service-revised cs g n app)
                ∙ ap (lib.services.run blank_service (own_service lib app) calm.service) e
                ∙ run_again lib.services blank_service (own_service lib app) io.service w.service
                    (own_service_again lib app) s made calm.service c.service_read in
              let serves_too : expose lib calm now app' d' w' []
                  ≡ after_service lib calm now app' d' w' [] (
                      lib.services.run blank_service (own_service lib app') calm.service
                        w'.service) =
                ground arith in
              let same : record w' { service = some s } ≡ w' =
                λ i. record w' { service = (sym (e ∙ served)) i } in
              serves_too
              ∙ ap (after_service lib calm now app' d' w' []) idle
              ∙ ap (λ x. report lib calm now app' d' x []) same;
        }
      ]

  pub expose-Exposed :
      (io : Io) (before : AppStatus) (app : App) (d : Deployment) (w : World) (ws : List Write)
      → (expose lib io before app d w ws).error ≡ none
      → Exposed io before app d w ws
  expose-Exposed io before app d w ws fine = elim (Bool-cases (serves app)) [
    | inl web ↦ serve-Exposed io before app d w ws web fine
    | inr quiet ↦ withdraw-Exposed io before app d w ws quiet fine
  ]
