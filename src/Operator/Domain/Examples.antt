-- ===== src/Operator/Domain/Examples.antt =====
-- The Domain controller of operator/internal/controller/domain_controller.go on two Domains that claim
-- one host, and the theorems on it.
use orkano.Prelude.{
  ◌≡◌, refl, inl, inr, Text, lit, text_eq, List, [], ◌∷◌, none, true, false, ok, select, not, In,
  ◌≢◌, ◌⊎◌,
}
use native.Mathlib.Decide.{ℕ_discrete}
use orkano.Operator.Kube.{done, adopt}
use orkano.Operator.Kube.Instances.{writing, claiming, setting}
use orkano.Operator.Domain.{
  Domain, DomainCondition, Ref, ref_of, Ingress, stamp_ingress, host_winner,
  map_certificate_to_domain, tls_secret_name,
}
use orkano.Operator.Domain.Reconcile.{Library, Io, World, find_domain}
use orkano.Operator.Domain.Cycle.{reconcile}
use orkano.Operator.Domain.Framing.{held}
use orkano.Operator.Domain.Winning.{Owner, host_winner-Owner, host_winner_order}
use orkano.Operator.Domain.Mapping.{map_certificate_to_domain-tls_secret_name}
use orkano.Operator.Domain.Exclusive.{Stored, run, Fine, one_ingress}

Ingress-discrete : Discrete Ingress
Ingress-discrete = hlevel (ℕ_discrete)

abbrev lib : Library
lib = record {
  ingresses = writing Ingress-discrete stamp_ingress;
  references = claiming;
  conditions = setting DomainCondition (λ c. c.kind);
  drop_condition = λ kind. select (λ c. not (text_eq c.kind kind));
}

abbrev issuer : Text
issuer = lit "letsencrypt"

abbrev old : Domain
old = record {
  name = lit "old";
  namespace = lit "orkano-apps";
  uid = lit "u1";
  generation = 1;
  created = 10;
  deleted = false;
  finalizers = [];
  host = lit "x.io";
  app_ref = lit "web";
  status = record { observed_generation = 0; conditions = [] };
}

abbrev young : Domain
young = record old { name = lit "young"; uid = lit "u2"; created = 20 }

abbrev fine : Io
fine = record {
  get_domain = none;
  update_domain = none;
  list_host = λ host. none;
  list_app_domains = none;
  ingress = record { read = none; write = none };
  get_ingress = none;
  delete_ingress = done;
  get_certificate = none;
  get_app = none;
  read_app = none;
  update_app = none;
  update_status = none;
}

abbrev start : World
start = record {
  domains = young ∷ old ∷ [];
  apps = λ ns n. none;
  ingresses = λ ns n. none;
  certificates = λ ns n. none;
}

abbrev steps : List (Ref × Io)
steps = (ref_of young, fine) ∷ (ref_of old, fine) ∷ []

steps-Fine : Fine lib issuer steps start
unfolding run reconcile text_eq adopt
steps-Fine = (refl, (refl, tt))

old_held : held old (run lib issuer steps start).ingresses ≡ true
unfolding run reconcile text_eq adopt
old_held = refl

old-Stored : Stored old start
unfolding find_domain text_eq
old-Stored = refl

young-Stored : Stored young start
unfolding find_domain text_eq
young-Stored = refl

apart : ref_of young ≢ ref_of old
apart e = cc

one_ingress_example :
    (held young (run lib issuer steps start).ingresses ≡ false)
    ⊎ (held old (run lib issuer steps start).ingresses ≡ false)
one_ingress_example =
    one_ingress lib issuer steps start young old young-Stored refl old-Stored refl refl apart
      steps-Fine (inl refl) (inr (inl refl))

first_owner : host_winner none start.domains (lit "x.io") ≡ ok (ref_of old)
unfolding host_winner text_eq
first_owner = refl

host_winner-Owner_example : Owner start.domains (lit "x.io") (ref_of old)
host_winner-Owner_example = host_winner-Owner start.domains (lit "x.io") (ref_of old) first_owner

swapped : (d : Domain) → In d (young ∷ old ∷ []) → In d (old ∷ young ∷ [])
swapped d (inl e) = inr (inl e)
swapped d (inr (inl e)) = inl e
swapped d (inr (inr m)) = elim m [ ]

swapped_back : (d : Domain) → In d (old ∷ young ∷ []) → In d (young ∷ old ∷ [])
swapped_back d (inl e) = inr (inl e)
swapped_back d (inr (inl e)) = inl e
swapped_back d (inr (inr m)) = elim m [ ]

host_winner_order_example :
    host_winner none (young ∷ old ∷ []) (lit "x.io")
    ≡ host_winner none (old ∷ young ∷ []) (lit "x.io")
host_winner_order_example =
    host_winner_order (young ∷ old ∷ []) (old ∷ young ∷ []) (lit "x.io") swapped swapped_back

mapped : map_certificate_to_domain (lit "orkano-apps") (lit "old-tls") ≡ ref_of old ∷ []
unfolding map_certificate_to_domain text_eq
mapped = refl

map_certificate_to_domain-tls_secret_name_example :
    map_certificate_to_domain old.namespace (tls_secret_name old) ≡ ref_of old ∷ []
map_certificate_to_domain-tls_secret_name_example =
    map_certificate_to_domain-tls_secret_name old refl refl
