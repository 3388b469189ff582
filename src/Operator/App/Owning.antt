-- ===== src/Operator/App/Owning.antt =====
-- What operator/internal/controller/app_controller.go makes of a Deployment and a Service: a fixed
-- point, so that the next reconcile finds nothing to write.
use orkano.Prelude.{
  ◌≡◌, refl, sym, ap, ◌∙◌, Text, lit, text_eq, text_eq_iff, List, [], ◌∷◌, Option, none, some, Bool,
  true, ok, ◌>>=◌, >>=-eq-ok, arith,
}
use mathlib.Core.Path.{subst}
use orkano.Prelude.Maps.{lookup, insert, lookup-insert, insert_same}
use orkano.Operator.Kube.{adopt, adopt-ok, adopt_own, kept}
use orkano.Operator.App.{
  App, Deployment, Service, Container, container_name, sole_container, mutate_container,
  mutate_deployment, mutate_service, own_labels, app_label, managed_by_label, managed_by_value,
  stamp_deployment, stamp_service,
}
use orkano.Operator.App.Reconcile.{Library, own_deployment, own_service, refusal}

own_labels_again :
    (name : Text) (labels : List (Text × Text))
    → own_labels name (own_labels name labels) ≡ own_labels name labels
unfolding text_eq
own_labels_again name labels =
    let l = own_labels name labels in
    let named : lookup app_label l ≡ some name =
      lookup-insert managed_by_label app_label managed_by_value (insert app_label name labels)
      ∙ lookup-insert app_label app_label name labels in
    let managed : lookup managed_by_label l ≡ some managed_by_value =
      lookup-insert managed_by_label managed_by_label managed_by_value
        (insert app_label name labels) in
    ap (insert managed_by_label managed_by_value) (insert_same app_label name l named)
    ∙ insert_same managed_by_label managed_by_value l managed

sole_container-name : (cs : List Container) → (sole_container cs).name ≡ container_name
unfolding sole_container
sole_container-name [] = refl
sole_container-name (c ∷ []) = ground (arith, text_eq_iff c.name container_name)
sole_container-name (c ∷ d ∷ cs) = refl

sole_container_named : (c : Container) → c.name ≡ container_name → sole_container (c ∷ []) ≡ c
unfolding sole_container
sole_container_named c h = ground (arith, text_eq_iff c.name container_name)

mutate_deployment_again :
    (app : App) (d : Deployment)
    → mutate_deployment app (mutate_deployment app d) ≡ mutate_deployment app d
unfolding mutate_deployment mutate_container
mutate_deployment_again app d =
    let c = sole_container d.containers in
    let same : sole_container (mutate_container app c ∷ []) ≡ mutate_container app c =
      sole_container_named (mutate_container app c) (sole_container-name d.containers) in
    λ i. record (mutate_deployment app d) {
      labels = own_labels_again app.name d.labels i;
      containers = mutate_container app (same i) ∷ [];
    }

mutate_service_again :
    (app : App) (s : Service) → mutate_service app (mutate_service app s) ≡ mutate_service app s
unfolding mutate_service
mutate_service_again app s =
    λ i. record (mutate_service app s) { labels = own_labels_again app.name s.labels i }

module _ (lib : Library) (app : App) where
  pub own_deployment-ok :
      (d m : Deployment)
      → own_deployment lib app d ≡ ok m
      → m ≡ record (mutate_deployment app d) { controller = some app.uid }
  unfolding own_deployment
  own_deployment-ok d m h =
      let (u, taken, made) =
        >>=-eq-ok
          (adopt lib.references app.uid d.created d.controller (refusal (lit "Deployment") app)) _
          h in
      ground (arith, made, adopt-ok lib.references app.uid d.created d.controller _ u taken)

  own_deployment_steady :
      (d : Deployment) (created : Bool)
      → let m : Deployment = record (mutate_deployment app d) {
        controller = some app.uid;
        created = created;
      } in
        own_deployment lib app m ≡ ok m
  unfolding own_deployment mutate_deployment
  own_deployment_steady d created =
      let m : Deployment = record (mutate_deployment app d) {
        controller = some app.uid;
        created = created;
      } in
      ap (λ r. r >>= λ uid. ok (record (mutate_deployment app m) { controller = some uid }))
        (adopt_own lib.references app.uid created (refusal (lit "Deployment") app))
      ∙ ap (λ (x : Deployment). ok (record x { controller = some app.uid; created = created }))
          (mutate_deployment_again app d)

  -- What `CreateOrUpdate` leaves is as the next mutation wants it.
  pub own_deployment_again :
      (d m : Deployment) (before : Option Deployment)
      → own_deployment lib app d ≡ ok m
      → own_deployment lib app (kept stamp_deployment before m)
        ≡ ok (kept stamp_deployment before m)
  own_deployment_again d m none h =
      subst (λ m. own_deployment lib app (stamp_deployment m) ≡ ok (stamp_deployment m))
        (sym (own_deployment-ok d m h)) (own_deployment_steady d true)
  own_deployment_again d m (some _) h =
      subst (λ m. own_deployment lib app m ≡ ok m) (sym (own_deployment-ok d m h))
        (own_deployment_steady d (mutate_deployment app d).created)

  pub own_service-ok :
      (s m : Service)
      → own_service lib app s ≡ ok m
      → m ≡ record (mutate_service app s) { controller = some app.uid }
  unfolding own_service
  own_service-ok s m h =
      let (u, taken, made) =
        >>=-eq-ok
          (adopt lib.references app.uid s.created s.controller (refusal (lit "Service") app)) _ h in
      ground (arith, made, adopt-ok lib.references app.uid s.created s.controller _ u taken)

  own_service_steady :
      (s : Service) (created : Bool)
      → let m : Service = record (mutate_service app s) {
        controller = some app.uid;
        created = created;
      } in
        own_service lib app m ≡ ok m
  unfolding own_service mutate_service
  own_service_steady s created =
      let m : Service = record (mutate_service app s) {
        controller = some app.uid;
        created = created;
      } in
      ap (λ r. r >>= λ uid. ok (record (mutate_service app m) { controller = some uid }))
        (adopt_own lib.references app.uid created (refusal (lit "Service") app))
      ∙ ap (λ (x : Service). ok (record x { controller = some app.uid; created = created }))
          (mutate_service_again app s)

  -- What `CreateOrUpdate` leaves is as the next mutation wants it.
  pub own_service_again :
      (s m : Service) (before : Option Service)
      → own_service lib app s ≡ ok m
      → own_service lib app (kept stamp_service before m) ≡ ok (kept stamp_service before m)
  own_service_again s m none h =
      subst (λ m. own_service lib app (stamp_service m) ≡ ok (stamp_service m))
        (sym (own_service-ok s m h)) (own_service_steady s true)
  own_service_again s m (some _) h =
      subst (λ m. own_service lib app m ≡ ok m) (sym (own_service-ok s m h))
        (own_service_steady s (mutate_service app s).created)
