-- ===== src/Operator/Domain.antt =====
-- operator/internal/controller/domain_controller.go: a host that is routed to an App. Here are the
-- objects, as far as this controller reads or writes them, who owns a host, the Ingress, and what the
-- Certificate tells; the reconcile is in `Reconcile`.
pub mod Reconcile
pub mod Cycle
pub mod Winning
pub mod Alike
pub mod Framing
pub mod Staging
pub mod Exclusive
pub mod Mapping
mod Examples
use orkano.Prelude.{
  ℕ, Text, lit, text_eq, is_empty, List, [], ◌∷◌, ◌++◌, Option, none, some, Bool, true, false, not,
  ◌&&◌, ltb, ◌==◌, if◌then◌else◌, select, Result, ok, err, ◌>>=◌,
}
use orkano.Prelude.Maps.{insert}
use orkano.Prelude.Sorting.{less}
use orkano.Operator.Kube.{ApiError}
use orkano.Operator.App.{own_labels, service_port_name}

abbrev pub domain_finalizer : Text
domain_finalizer = lit "orkano.io/domain"

abbrev pub cluster_issuer_annotation : Text
cluster_issuer_annotation = lit "cert-manager.io/cluster-issuer"

abbrev pub tls_secret_suffix : Text
tls_secret_suffix = lit "-tls"

abbrev pub apps_namespace : Text
apps_namespace = lit "orkano-apps"

-- `metav1.ConditionStatus`.
pub data ConditionStatus : Type 0 where
  holds fails unknown : ConditionStatus

pub record DomainCondition : Type 0 where
  pub kind : Text
  pub status : ConditionStatus
  pub reason : Text
  pub message : Text
  pub observed_generation : ℕ

pub record DomainStatus : Type 0 where
  pub observed_generation : ℕ
  pub conditions : List DomainCondition

-- `created` is the creation timestamp.
pub record Domain : Type 0 where
  pub name : Text
  pub namespace : Text
  pub uid : Text
  pub generation : ℕ
  pub created : ℕ
  pub deleted : Bool
  pub finalizers : List Text
  pub host : Text
  pub app_ref : Text
  pub status : DomainStatus

-- `types.NamespacedName`.
pub record Ref : Type 0 where
  pub namespace : Text
  pub name : Text

pub record IngressRule : Type 0 where
  pub host : Text
  pub path : Text
  pub path_type : Text
  pub service : Text
  pub port_name : Text

pub record IngressTls : Type 0 where
  pub hosts : List Text
  pub secret_name : Text

-- `class_name` stands for the fields that the cluster fills in and Orkano does not own.
pub record Ingress : Type 0 where
  pub created : Bool
  pub controller : Option Text
  pub labels : List (Text × Text)
  pub annotations : List (Text × Text)
  pub rules : List IngressRule
  pub tls : List IngressTls
  pub class_name : Text

abbrev pub stamp_ingress : Ingress → Ingress
stamp_ingress ing = record ing { created = true }

-- One entry of a Certificate's conditions: no map, or a map with these fields, where a field that is
-- missing or no string reads as "".
pub record CertificateCondition : Type 0 where
  pub kind : Text
  pub status : Text
  pub reason : Text
  pub message : Text

-- `unstructured.NestedSlice(cert.Object, "status", "conditions")`, which fails on another type.
abbrev pub Certificate : Type 0
Certificate = Result ApiError (List (Option CertificateCondition))

abbrev pub ref_of : Domain → Ref
ref_of d = record { namespace = d.namespace; name = d.name }

abbrev pub no_ref : Ref
no_ref = record { namespace = []; name = [] }

unfoldable pub is_ref : Ref → Domain → Bool
is_ref r d = text_eq r.namespace d.namespace && text_eq r.name d.name

unfoldable pub older_domain : Domain → Domain → Bool
older_domain a b =
    if a.created == b.created
    then (if text_eq a.name b.name then less a.namespace b.namespace else less a.name b.name)
    else ltb a.created b.created

abbrev pub better : Domain → Option Domain → Bool
better d none = true
better d (some w) = older_domain d w

-- The loop of `hostWinner`, over the Domains that claim the host.
unfoldable pub oldest : List Domain → Option Domain → Option Domain
unfolding older_domain
oldest [] winner = winner
oldest (d ∷ ds) winner = oldest ds (if not d.deleted && better d winner then some d else winner)

abbrev pub claims : Text → Domain → Bool
claims host d = text_eq d.host host

abbrev pub winner_ref : Option Domain → Ref
winner_ref none = no_ref
winner_ref (some d) = ref_of d

unfoldable pub host_winner : Option ApiError → List Domain → Text → Result ApiError Ref
unfolding oldest
host_winner (some e) domains host = err e
host_winner none domains host = ok (winner_ref (oldest (select (claims host) domains) none))

-- It doubles as the Certificate's name.
unfoldable pub tls_secret_name : Domain → Text
tls_secret_name d = d.name ++ tls_secret_suffix

unfoldable pub mutate_ingress : Text → Domain → Ingress → Ingress
unfolding tls_secret_name
mutate_ingress cluster_issuer d ing = record ing {
  labels = own_labels d.app_ref ing.labels;
  annotations = insert cluster_issuer_annotation cluster_issuer ing.annotations;
  rules =
      record {
        host = d.host;
        path = lit "/";
        path_type = lit "Prefix";
        service = d.app_ref;
        port_name = service_port_name;
      }
      ∷ [];
  tls = record { hosts = d.host ∷ []; secret_name = tls_secret_name d } ∷ [];
}

-- What `observeCertificate` returns, beside an error.
pub record Observed : Type 0 where
  pub status : ConditionStatus
  pub reason : Text
  pub message : Text

abbrev pub pending : Text → Observed
pending message = record { status = unknown; reason = lit "CertificatePending"; message = message }

abbrev pub status_of : Text → Option ConditionStatus
status_of s =
    if text_eq s (lit "True")
    then some holds
    else if text_eq s (lit "False")
    then some fails
    else if text_eq s (lit "Unknown")
    then some unknown
    else none

abbrev pub ready_of : CertificateCondition → Option Observed
ready_of c =
    if text_eq c.kind (lit "Ready")
    then elim (status_of c.status) [
      | none ↦ none
      | some status ↦ some (record {
        status = status;
        reason = if is_empty c.reason then lit "Unknown" else c.reason;
        message = c.message;
      })
    ]
    else none

abbrev pub or_later : Option Observed → Option Observed → Option Observed
or_later (some o) later = some o
or_later none later = later

unfoldable pub first_ready : List (Option CertificateCondition) → Option Observed
first_ready [] = none
first_ready (none ∷ cs) = first_ready cs
first_ready (some c ∷ cs) = let later = first_ready cs in or_later (ready_of c) later

-- What the Get of a Certificate answers.
pub data CertificateRead : Type 0 where
  absent : CertificateRead
  unread : ApiError → CertificateRead
  found : Certificate → CertificateRead

unfoldable pub observe_certificate : CertificateRead → Domain → Result ApiError Observed
unfolding first_ready tls_secret_name
observe_certificate absent d =
    ok (pending (lit "waiting for cert-manager to create Certificate " ++ tls_secret_name d))
observe_certificate (unread e) d = err e
observe_certificate (found (err e)) d = err (record e {
  message = lit "reading Certificate " ++ (tls_secret_name d ++ (lit " conditions: " ++ e.message));
})
observe_certificate (found (ok conditions)) d = elim (first_ready conditions) [
  | some o ↦ ok o
  | none ↦
      ok (pending (lit "Certificate " ++ (tls_secret_name d ++ lit " has no Ready condition yet")))
]

-- `strings.CutSuffix`.
unfoldable pub cut_suffix : Text → Text → Option Text
cut_suffix suffix [] = if text_eq [] suffix then some [] else none
cut_suffix suffix (c ∷ s) =
    let rest = cut_suffix suffix s in
    if text_eq (c ∷ s) suffix then some [] else elim rest [ none ↦ none | some p ↦ some (c ∷ p) ]

-- `mapCertificateToDomain`: the Domain of a Certificate in the Apps' namespace.
unfoldable pub map_certificate_to_domain : Text → Text → List Ref
unfolding cut_suffix
map_certificate_to_domain namespace name =
    if not (text_eq namespace apps_namespace)
    then []
    else elim (cut_suffix tls_secret_suffix name) [
      | none ↦ []
      | some prefix ↦
          if is_empty prefix then [] else record { namespace = namespace; name = prefix } ∷ []
    ]

abbrev refs_of : List Domain → List Ref
refs_of [] = []
refs_of (d ∷ ds) = ref_of d ∷ refs_of ds

-- `mapDomainToHostPeers`: the other Domains that claim the host; none where the List fails.
unfoldable pub map_domain_to_host_peers : Option ApiError → List Domain → Domain → List Ref
unfolding is_ref
map_domain_to_host_peers (some e) domains d = []
map_domain_to_host_peers none domains d =
    refs_of (select (λ p. not (is_ref (ref_of d) p)) (select (claims d.host) domains))

abbrev pub points_at : Text → Text → Domain → Bool
points_at namespace app d = text_eq d.namespace namespace && text_eq d.app_ref app

-- `mapAppToDomains`: the Domains that point at an App.
unfoldable pub map_app_to_domains : Option ApiError → List Domain → Text → Text → List Ref
map_app_to_domains (some e) domains namespace app = []
map_app_to_domains none domains namespace app = refs_of (select (points_at namespace app) domains)
