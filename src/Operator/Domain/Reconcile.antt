-- ===== src/Operator/Domain/Reconcile.antt =====
-- `Reconcile` of operator/internal/controller/domain_controller.go on the whole cluster. `Io` is what
-- fails of the calls that one reconcile may make; the List calls of one host fail together. A read
-- sees the world as it is.
use orkano.Prelude.{
  Text, lit, text_eq, List, [], ◌∷◌, ◌++◌, Option, none, some, Bool, true, false, not, ◌&&◌, ◌==◌,
  if◌then◌else◌, select, Result, ok, err, ◌>>=◌,
}
use orkano.Operator.Kube.{
  ApiError, wrap, Access, Deletion, done, gone, undeleted, CreateOrUpdate, ControllerReference,
  StatusConditions, adopt,
}
use orkano.Operator.App.{App, serves}
use orkano.Operator.Domain.{
  Domain, DomainStatus, DomainCondition, ConditionStatus, holds, fails, unknown, Ref, Ingress,
  stamp_ingress, Certificate, Observed, ref_of, is_ref, host_winner, older_domain, mutate_ingress,
  points_at, better,
}

pub record Library : Type 0 where
  pub ingresses : CreateOrUpdate stamp_ingress
  pub references : ControllerReference
  pub conditions : StatusConditions DomainCondition (λ c. c.kind)
  -- `meta.RemoveStatusCondition`.
  pub drop_condition : Text → List DomainCondition → List DomainCondition

pub record Io : Type 0 where
  pub get_domain : Option ApiError
  pub update_domain : Option ApiError
  pub list_host : Text → Option ApiError
  pub list_app_domains : Option ApiError
  pub ingress : Access
  pub get_ingress : Option ApiError
  pub delete_ingress : Deletion
  pub get_certificate : Option ApiError
  pub get_app : Option ApiError
  pub read_app : Option ApiError
  pub update_app : Option ApiError
  pub update_status : Option ApiError

-- Objects by namespace and name.
abbrev pub Objects : Type 0 → Type 0
Objects A = Text → Text → Option A

abbrev pub set_object : {A : Type 0} → Text → Text → Option A → Objects A → Objects A
set_object namespace name v objects n m =
    if text_eq n namespace && text_eq m name then v else objects n m

pub record World : Type 0 where
  pub domains : List Domain
  pub apps : Objects App
  pub ingresses : Objects Ingress
  pub certificates : Objects Certificate

pub record Outcome : Type 0 where
  pub world : World
  pub error : Option ApiError

abbrev pub stop : World → Option ApiError → Outcome
stop w e = record { world = w; error = e }

-- A write of the status, and one of the finalizers, change that field of the stored Domain.
unfoldable pub put_status : Ref → DomainStatus → List Domain → List Domain
unfolding is_ref
put_status r status [] = []
put_status r status (x ∷ xs) =
    (if is_ref r x then record x { status = status } else x) ∷ put_status r status xs

unfoldable pub put_finalizers : Ref → List Text → List Domain → List Domain
unfolding is_ref
put_finalizers r finalizers [] = []
put_finalizers r finalizers (x ∷ xs) =
    (if is_ref r x then record x { finalizers = finalizers } else x)
    ∷ put_finalizers r finalizers xs

unfoldable pub find_domain : Ref → List Domain → Option Domain
unfolding is_ref
find_domain r [] = none
find_domain r (x ∷ xs) = if is_ref r x then some x else find_domain r xs

-- `updateAppURL`, its choice: the oldest of the App's live Domains that own their host.
unfoldable pub oldest_winner :
    (Text → Option ApiError)
    → List Domain
    → List Domain
    → Option Domain
    → Result ApiError (Option Domain)
unfolding host_winner is_ref older_domain
oldest_winner list_host all [] best = ok best
oldest_winner list_host all (d ∷ ds) best = elim d.deleted [
  | true ↦ oldest_winner list_host all ds best
  | false ↦ elim (host_winner (list_host d.host) all d.host) [
    | err e ↦ err e
    | ok winner ↦
        oldest_winner list_host all ds (if is_ref winner d && better d best then some d else best)
  ]
]

abbrev pub url_of : Option Domain → Text
url_of none = []
url_of (some d) = lit "https://" ++ d.host

unfoldable pub app_url : Io → World → App → Text → Text → Result ApiError Text
unfolding oldest_winner
app_url io w app namespace name =
    if serves app
    then elim io.list_app_domains [
      | some e ↦ err e
      | none ↦ do
        best ←
            oldest_winner io.list_host w.domains (select (points_at namespace name) w.domains) none
        ok (url_of best)
    ]
    else ok []

abbrev pub with_url : Text → App → App
with_url url app = record app { status = record app.status { url = url } }

-- `updateAppURL`; the App's URL is written only when it changed.
unfoldable pub update_app_url : Io → Text → Text → World → Outcome
unfolding app_url
update_app_url io namespace name w = elim io.read_app [
  | some e ↦ stop w (some e)
  | none ↦ elim (w.apps namespace name) [
    | none ↦ stop w none
    | some app ↦ elim (app_url io w app namespace name) [
      | err e ↦ stop w (some e)
      | ok url ↦ if text_eq app.status.url url then stop w none else elim io.update_app [
        | some e ↦ stop w (some (wrap (lit "updating App " ++ (name ++ lit " status.url: ")) e))
        | none ↦
            stop (record w { apps = set_object namespace name (some (with_url url app)) w.apps })
              none
      ]
    ]
  ]
]

abbrev status_is : ConditionStatus → ConditionStatus → Bool
status_is holds holds = true
status_is fails fails = true
status_is unknown unknown = true
status_is _ _ = false

abbrev conditions_eq : List DomainCondition → List DomainCondition → Bool
conditions_eq [] [] = true
conditions_eq (a ∷ xs) (b ∷ ys) =
    text_eq a.kind b.kind
    && status_is a.status b.status
    && text_eq a.reason b.reason
    && text_eq a.message b.message
    && a.observed_generation == b.observed_generation
    && conditions_eq xs ys
conditions_eq _ _ = false

-- `equality.Semantic.DeepEqual` on two statuses.
unfoldable pub status_eq : DomainStatus → DomainStatus → Bool
status_eq a b =
    a.observed_generation == b.observed_generation && conditions_eq a.conditions b.conditions

-- The rest of a reconcile, unless it stopped with an error.
abbrev pub and_then : Text → Outcome → (World → Outcome) → Outcome
and_then context o rest = elim o.error [
  | some e ↦ stop o.world (some (wrap context e))
  | none ↦ rest o.world
]

abbrev pub observed : Domain → Domain
observed d = record d { status = record d.status { observed_generation = d.generation } }

-- `metav1.IsControlledBy`.
abbrev pub controls : Domain → Option Text → Bool
controls d none = false
controls d (some uid) = text_eq uid d.uid

abbrev pub conflict_message : Domain → Ref → Text
conflict_message d winner =
    lit "host "
    ++ (d.host
        ++ (lit " is already claimed by older Domain "
            ++ (winner.namespace ++ (lit "/" ++ winner.name))))

abbrev pub refusal : Domain → ApiError
refusal d = record {
  conflict = false;
  message =
      lit "existing Ingress "
      ++ (d.namespace
          ++ (lit "/"
              ++ (d.name
                  ++ lit " is not managed by Orkano; rename the Domain or delete the Ingress")));
}

abbrev pub blank_ingress : Ingress
blank_ingress = record {
  created = false;
  controller = none;
  labels = [];
  annotations = [];
  rules = [];
  tls = [];
  class_name = [];
}

module _ (lib : Library) where
  unfoldable pub set_domain_condition : Text → Observed → Domain → Domain
  set_domain_condition kind o d =
      let c : DomainCondition = record {
        kind = kind;
        status = o.status;
        reason = o.reason;
        message = o.message;
        observed_generation = d.generation;
      } in
      record d {
        status = record d.status { conditions = lib.conditions.set c d.status.conditions };
      }

  unfoldable pub set_domain_ready : ConditionStatus → Text → Text → Domain → Domain
  unfolding set_domain_condition
  set_domain_ready status reason message d =
      set_domain_condition (lit "Ready")
        (record { status = status; reason = reason; message = message }) d

  unfoldable pub update_status : Io → DomainStatus → Domain → World → Outcome
  unfolding status_eq put_status
  update_status io before d w =
      if status_eq before (observed d).status then stop w none else elim io.update_status [
        | none ↦
            stop (record w { domains = put_status (ref_of d) (observed d).status w.domains }) none
        | some e ↦ stop w (some (wrap (lit "updating Domain status: ") e))
      ]

  unfoldable pub fail_ready : Io → DomainStatus → Domain → ApiError → World → Outcome
  unfolding set_domain_ready update_status
  fail_ready io before d e w =
      let o =
        update_status io before (set_domain_ready fails (lit "ReconcileError") e.message d) w in
      if e.conflict then stop w (some e) else stop o.world (some e)

  unfoldable pub delete_own_ingress : Io → Domain → World → Outcome
  delete_own_ingress io d w = elim io.get_ingress [
    | some e ↦ stop w (some e)
    | none ↦ elim (w.ingresses d.namespace d.name) [
      | none ↦ stop w none
      | some ing ↦
          let without : World = record w {
            ingresses = set_object d.namespace d.name none w.ingresses;
          } in
          if not (controls d ing.controller) then stop w none else elim io.delete_ingress [
            | done ↦ stop without none
            | gone ↦ stop without none
            | undeleted e ↦ stop w (some e)
          ]
    ]
  ]

  -- The status says whose the host is.
  unfoldable pub conflicting : Ref → Domain → Domain
  unfolding set_domain_ready
  conflicting winner d =
      set_domain_ready fails (lit "HostConflict") (conflict_message d winner) (record d {
        status = record d.status {
          conditions = lib.drop_condition (lit "CertificateReady") d.status.conditions;
        };
      })

  unfoldable pub tell_conflict : Io → DomainStatus → Ref → Domain → World → Outcome
  unfolding conflicting update_app_url update_status
  tell_conflict io before winner d w =
      and_then (lit "recomputing App URL: ") (update_app_url io d.namespace d.app_ref w)
        (update_status io before (conflicting winner d))

  -- Another Domain owns the host: the Ingress goes.
  unfoldable pub yield_host : Io → DomainStatus → Ref → Domain → World → Outcome
  unfolding delete_own_ingress fail_ready tell_conflict
  yield_host io before winner d w =
      let o = delete_own_ingress io d w in
      elim o.error [
        | some e ↦
            fail_ready io before d (wrap (lit "deleting Ingress of conflicting Domain: ") e) o.world
        | none ↦ tell_conflict io before winner d o.world
      ]

  unfoldable pub own_ingress : Text → Domain → Ingress → Result ApiError Ingress
  unfolding mutate_ingress
  own_ingress cluster_issuer d ing = do
    uid ← adopt lib.references d.uid ing.created ing.controller (refusal d)
    ok (record (mutate_ingress cluster_issuer d ing) { controller = some uid })
