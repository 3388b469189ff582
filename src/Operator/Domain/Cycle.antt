-- ===== src/Operator/Domain/Cycle.antt =====
-- `Reconcile` of operator/internal/controller/domain_controller.go: the finalizer, the owner of the
-- host, and the route, in order.
use orkano.Prelude.{
  Text, lit, text_eq, List, [], ◌∷◌, ◌++◌, Option, none, some, Bool, true, false, not, ◌&&◌,
  if◌then◌else◌, select, any_of, ok, err,
}
use orkano.Operator.Kube.{wrap}
use orkano.Operator.App.{App, serves, unset, web, worker}
use orkano.Operator.Domain.{
  Domain, DomainStatus, ConditionStatus, holds, fails, Ref, Observed, CertificateRead, absent,
  unread, found, domain_finalizer, ref_of, is_ref, host_winner, observe_certificate,
  tls_secret_name,
}
use orkano.Operator.Domain.Reconcile.{
  Library, Io, World, Outcome, stop, set_object, put_finalizers, find_domain, update_app_url,
  and_then, set_domain_condition, set_domain_ready, update_status, fail_ready, yield_host,
  own_ingress, blank_ingress,
}

abbrev pub has_finalizer : Domain → Bool
has_finalizer d = any_of (text_eq domain_finalizer) d.finalizers

abbrev pub other_finalizers : Domain → List Text
other_finalizers d = select (λ f. not (text_eq domain_finalizer f)) d.finalizers

abbrev pub is_nil : List Text → Bool
is_nil [] = true
is_nil (_ ∷ _) = false

abbrev pub is_gone : Ref → Domain → Bool
is_gone r x = is_ref r x && x.deleted

-- `RemoveFinalizer` and the Update behind it: a Domain that is being deleted goes with its last
-- finalizer.
unfoldable pub release : Domain → List Domain → List Domain
unfolding put_finalizers is_ref
release d domains =
    if is_nil (other_finalizers d)
    then select (λ x. not (is_gone (ref_of d) x)) domains
    else put_finalizers (ref_of d) (other_finalizers d) domains

unfoldable pub finalize : Io → Domain → World → Outcome
unfolding update_app_url release
finalize io d w =
    if not (has_finalizer d)
    then stop w none
    else and_then (lit "recomputing App URL on Domain deletion: ")
        (update_app_url io d.namespace d.app_ref w)
        (λ w'. elim io.update_domain [
          | some e ↦ stop w' (some (wrap (lit "removing finalizer: ") e))
          | none ↦ stop (record w' { domains = release d w'.domains }) none
        ])

unfoldable pub read_certificate : Io → Domain → World → CertificateRead
unfolding tls_secret_name
read_certificate io d w = elim io.get_certificate [
  | some e ↦ unread e
  | none ↦ elim (w.certificates d.namespace (tls_secret_name d)) [
    | none ↦ absent
    | some c ↦ found c
  ]
]

abbrev pub workload_name : App → Text
workload_name app = elim app.spec.workload [
  | unset ↦ lit "Web"
  | web ↦ lit "Web"
  | worker ↦ lit "Worker"
]

abbrev pub is_holds : ConditionStatus → Bool
is_holds holds = true
is_holds _ = false

module _ (lib : Library) (cluster_issuer : Text) where
  -- What the App and the certificate make of the Domain's readiness.
  unfoldable pub judge : Observed → Option App → Domain → Domain
  unfolding set_domain_ready
  judge o none d =
      set_domain_ready lib fails (lit "AppNotFound")
        (lit "App " ++ (d.app_ref ++ lit " does not exist")) d
  judge o (some app) d =
      if not (serves app)
      then set_domain_ready lib fails (lit "AppNotRoutable")
          (lit "App "
            ++ (app.name
                ++ (lit " is a " ++ (workload_name app ++ lit " app and serves no traffic"))))
          d
      else if not (is_holds o.status)
      then set_domain_ready lib fails (lit "CertificatePending")
          (lit "certificate for " ++ (d.host ++ (lit " is not ready: " ++ o.message))) d
      else set_domain_ready lib holds (lit "Available")
          (lit "routing https://" ++ (d.host ++ (lit " to App " ++ app.name))) d

  -- The Ingress is in place: the certificate, the App, its URL, and the status.
  unfoldable pub follow_up : Io → DomainStatus → Domain → World → Outcome
  unfolding read_certificate observe_certificate set_domain_condition judge fail_ready
      update_app_url update_status
  follow_up io before d w = elim (observe_certificate (read_certificate io d w) d) [
    | err e ↦ fail_ready lib io before d (wrap (lit "observing Certificate: ") e) w
    | ok o ↦
        let told = set_domain_condition lib (lit "CertificateReady") o d in
        elim io.get_app [
          | some e ↦
              fail_ready lib io before told
                (wrap (lit "fetching App " ++ (d.app_ref ++ lit ": ")) e) w
          | none ↦
              and_then (lit "deriving App URL: ") (update_app_url io d.namespace d.app_ref w)
                (update_status lib io before (judge o (w.apps d.namespace d.app_ref) told))
        ]
  ]

  unfoldable pub route : Io → DomainStatus → Domain → World → Outcome
  unfolding own_ingress fail_ready follow_up
  route io before d w =
      let u =
        lib.ingresses.run blank_ingress (own_ingress lib cluster_issuer d) io.ingress
          (w.ingresses d.namespace d.name) in
      let w' : World = record w {
        ingresses = set_object d.namespace d.name u.stored w.ingresses;
      } in
      elim u.result [
        | err e ↦ fail_ready lib io before d (wrap (lit "reconciling Ingress: ") e) w'
        | ok _ ↦ follow_up io before d w'
      ]

  -- Behind the finalizer: who owns the host.
  unfoldable pub contend : Io → Domain → World → Outcome
  unfolding host_winner yield_host route is_ref
  contend io d w = elim (host_winner (io.list_host d.host) w.domains d.host) [
    | err e ↦ stop w (some (wrap (lit "checking host conflicts: ") e))
    | ok winner ↦
        if not (is_ref winner d)
        then yield_host lib io d.status winner d w
        else route io d.status d w
  ]

  abbrev pub with_finalizer : Domain → Domain
  with_finalizer d = record d { finalizers = d.finalizers ++ domain_finalizer ∷ [] }

  unfoldable pub reconcile_domain : Io → Domain → World → Outcome
  unfolding finalize contend put_finalizers
  reconcile_domain io d w =
      if d.deleted
      then finalize io d w
      else if has_finalizer d
      then contend io d w
      else elim io.update_domain [
        | some e ↦ stop w (some (wrap (lit "adding finalizer: ") e))
        | none ↦ contend io (with_finalizer d) (record w {
          domains = put_finalizers (ref_of d) (with_finalizer d).finalizers w.domains;
        })
      ]

  -- `Reconcile`; a Domain that is gone needs nothing.
  unfoldable pub reconcile : Io → Ref → World → Outcome
  unfolding find_domain reconcile_domain
  reconcile io r w = elim io.get_domain [
    | some e ↦ stop w (some e)
    | none ↦ elim (find_domain r w.domains) [
      | none ↦ stop w none
      | some d ↦ reconcile_domain io d w
    ]
  ]
