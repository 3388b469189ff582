-- ===== src/Operator/Domain/Framing.antt =====
-- What one reconcile of operator/internal/controller/domain_controller.go leaves alone: who owns each
-- host, and the Ingresses of all other Domains.
use orkano.Prelude.{
  ◌≡◌, refl, sym, ap, ◌∙◌, inl, inr, Text, lit, text_eq, ◌++◌, Option, none, some, Bool, true,
  false, ◌&&◌, Bool-cases, Option-cases, Result-cases, arith,
}
use mathlib.Core.Path.{subst}
use orkano.Operator.Kube.{ApiError, wrap, Deletion, done, gone, undeleted}
use orkano.Operator.Domain.{Domain, DomainStatus, Ref, Ingress, ref_of, observe_certificate, fails}
use orkano.Operator.Domain.Reconcile.{
  Library, Io, World, Outcome, Objects, set_object, stop, update_app_url, and_then, update_status,
  observed, fail_ready, set_domain_ready, set_domain_condition, status_eq, delete_own_ingress,
  controls, put_status, own_ingress, blank_ingress,
}
use orkano.Operator.Domain.Cycle.{route, follow_up, read_certificate, judge}
use orkano.Operator.Domain.Alike.{SameHosts, SameHosts-refl, SameHosts-trans, put_status-SameHosts}

-- Nothing of the Ingresses changes.
pub record Quiet (w w' : World) : Type 0 where
  pub hosts : SameHosts w.domains w'.domains
  pub ingresses : w'.ingresses ≡ w.ingresses

pub Quiet-refl : (w : World) → Quiet w w
Quiet-refl w = record { hosts = SameHosts-refl w.domains; ingresses = refl }

pub Quiet-trans : {u v w : World} → Quiet u v → Quiet v w → Quiet u w
Quiet-trans {u} {v} {w} a b = record {
  hosts = SameHosts-trans u.domains v.domains w.domains a.hosts b.hosts;
  ingresses = b.ingresses ∙ a.ingresses;
}

Quiet-of : (w w' : World) → w'.domains ≡ w.domains → w'.ingresses ≡ w.ingresses → Quiet w w'
Quiet-of w w' d i = record {
  hosts = subst (SameHosts w.domains) (sym d) (SameHosts-refl w.domains);
  ingresses = i;
}

pub Quiet-at : {w x : World} (w' : World) → w' ≡ x → Quiet w x → Quiet w w'
Quiet-at {w} w' e q = subst (Quiet w) (sym e) q

pub update_app_url-Quiet :
    (io : Io) (namespace name : Text) (w : World)
    → Quiet w (update_app_url io namespace name w).world
unfolding update_app_url
update_app_url-Quiet io namespace name w =
    Quiet-of w (update_app_url io namespace name w).world (ground arith) (ground arith)

pub and_then-Quiet :
    (context : Text) (w : World) (o : Outcome) (rest : World → Outcome)
    → Quiet w o.world
    → Quiet o.world (rest o.world).world
    → Quiet w (and_then context o rest).world
and_then-Quiet context w o rest q r = elim (Option-cases o.error) [
  | inl fine ↦
      let e : and_then context o rest ≡ rest o.world = ground (arith, fine) in
      subst (λ x. Quiet w x.world) (sym e) (Quiet-trans q r)
  | inr (x, failed) ↦
      let e : and_then context o rest ≡ stop o.world (some (wrap context x)) =
        ground (arith, failed) in
      subst (λ x. Quiet w x.world) (sym e) q
]

module _ (lib : Library) where
  pub update_status-Quiet :
      (io : Io) (before : DomainStatus) (d : Domain) (w : World)
      → Quiet w (update_status lib io before d w).world
  unfolding update_status
  update_status-Quiet io before d w =
      let o = update_status lib io before d w in
      let put : World = record w {
        domains = put_status (ref_of d) (observed d).status w.domains;
      } in
      elim (Bool-cases (status_eq before (observed d).status)) [
        | inl same ↦ Quiet-at o.world (ground (arith, same)) (Quiet-refl w)
        | inr changed ↦ elim (Option-cases io.update_status) [
          | inl fine ↦ Quiet-at {x = put} o.world (ground (arith, changed, fine)) (record {
            hosts = put_status-SameHosts (ref_of d) (observed d).status w.domains;
            ingresses = refl;
          })
          | inr (e, failed) ↦ Quiet-at o.world (ground (arith, changed, failed)) (Quiet-refl w)
        ]
      ]

  pub fail_ready-Quiet :
      (io : Io) (before : DomainStatus) (d : Domain) (e : ApiError) (w : World)
      → Quiet w (fail_ready lib io before d e w).world
  unfolding fail_ready
  fail_ready-Quiet io before d e w =
      let o = fail_ready lib io before d e w in
      let told = set_domain_ready lib fails (lit "ReconcileError") e.message d in
      elim (Bool-cases e.conflict) [
        | inl conflict ↦ Quiet-at o.world (ground (arith, conflict)) (Quiet-refl w)
        | inr other ↦
            Quiet-at o.world (ground (arith, other)) (update_status-Quiet io before told w)
      ]

  pub fail_ready-error :
      (io : Io) (before : DomainStatus) (d : Domain) (e : ApiError) (w : World)
      → (fail_ready lib io before d e w).error ≡ some e
  unfolding fail_ready
  fail_ready-error io before d e w = ground arith

-- Only the Ingress of one name may change.
pub record Frame (r : Ref) (w w' : World) : Type 0 where
  pub hosts : SameHosts w.domains w'.domains
  pub others :
      (namespace name : Text)
      → (text_eq namespace r.namespace && text_eq name r.name) ≡ false
      → w'.ingresses namespace name ≡ w.ingresses namespace name

pub Quiet-Frame : (r : Ref) {w w' : World} → Quiet w w' → Frame r w w'
Quiet-Frame r q = record { hosts = q.hosts; others = λ ns n other. ap (λ i. i ns n) q.ingresses }

pub Frame-trans : {r : Ref} {u v w : World} → Frame r u v → Frame r v w → Frame r u w
Frame-trans {r} {u} {v} {w} a b = record {
  hosts = SameHosts-trans u.domains v.domains w.domains a.hosts b.hosts;
  others = λ ns n other. b.others ns n other ∙ a.others ns n other;
}

pub set_ingress-Frame :
    (d : Domain) (v : Option Ingress) (w : World)
    → Frame (ref_of d) w (record w { ingresses = set_object d.namespace d.name v w.ingresses })
set_ingress-Frame d v w = record {
  hosts = SameHosts-refl w.domains;
  others = λ ns n other. ground (arith, other);
}

module _ (lib : Library) (cluster_issuer : Text) where
  follow_up-Quiet :
      (io : Io) (before : DomainStatus) (d : Domain) (w : World)
      → Quiet w (follow_up lib cluster_issuer io before d w).world
  unfolding follow_up
  follow_up-Quiet io before d w =
      let o = follow_up lib cluster_issuer io before d w in
      elim (Result-cases (observe_certificate (read_certificate io d w) d)) [
        | inl (e, failed) ↦
            let why = wrap (lit "observing Certificate: ") e in
            Quiet-at o.world (ground (arith, failed)) (fail_ready-Quiet lib io before d why w)
        | inr (seen, read) ↦
            let told = set_domain_condition lib (lit "CertificateReady") seen d in
            elim (Option-cases io.get_app) [
              | inr (e, failed) ↦
                  let why = wrap (lit "fetching App " ++ (d.app_ref ++ lit ": ")) e in
                  Quiet-at o.world (ground (arith, read, failed))
                    (fail_ready-Quiet lib io before told why w)
              | inl fine ↦
                  let judged = judge lib cluster_issuer seen (w.apps d.namespace d.app_ref) told in
                  let url = update_app_url io d.namespace d.app_ref w in
                  let rest = update_status lib io before judged in
                  Quiet-at {x = (and_then (lit "deriving App URL: ") url rest).world} o.world
                    (ground (arith, read, fine))
                    (and_then-Quiet (lit "deriving App URL: ") w url rest
                      (update_app_url-Quiet io d.namespace d.app_ref w)
                      (update_status-Quiet lib io before judged url.world))
            ]
      ]

  pub route-Frame :
      (io : Io) (before : DomainStatus) (d : Domain) (w : World)
      → Frame (ref_of d) w (route lib cluster_issuer io before d w).world
  unfolding route
  route-Frame io before d w =
      let o = route lib cluster_issuer io before d w in
      let u =
        lib.ingresses.run blank_ingress (own_ingress lib cluster_issuer d) io.ingress
          (w.ingresses d.namespace d.name) in
      let w' : World = record w {
        ingresses = set_object d.namespace d.name u.stored w.ingresses;
      } in
      Frame-trans (set_ingress-Frame d u.stored w) (
        Quiet-Frame (ref_of d) (elim (Result-cases u.result) [
          | inl (e, failed) ↦
              let why = wrap (lit "reconciling Ingress: ") e in
              Quiet-at o.world (ground (arith, failed)) (fail_ready-Quiet lib io before d why w')
          | inr (ing, made) ↦
              Quiet-at o.world (ground (arith, made)) (follow_up-Quiet io before d w')
        ]))

-- What becomes of one's own Ingress where another Domain owns the host.
abbrev pub held : Domain → Objects Ingress → Bool
held d ingresses = elim (ingresses d.namespace d.name) [
  | none ↦ false
  | some ing ↦ controls d ing.controller
]

module _ (lib : Library) (io : Io) (d : Domain) (w : World) where
  abbrev pub without : World
  without = record w { ingresses = set_object d.namespace d.name none w.ingresses }

  -- It stays as it is, or goes; after a deletion without an error it is not held.
  pub data Deleted (o : Outcome) : Type 0 where
    kept : (e : ApiError) → o ≡ stop w (some e) → Deleted o
    free : held d w.ingresses ≡ false → o ≡ stop w none → Deleted o
    gone_now : o ≡ stop without none → Deleted o

  answered :
      (ing : Ingress) (answer : Deletion)
      → io.get_ingress ≡ none
      → w.ingresses d.namespace d.name ≡ some ing
      → controls d ing.controller ≡ true
      → io.delete_ingress ≡ answer
      → Deleted (delete_own_ingress lib io d w)
  unfolding delete_own_ingress
  answered ing done read present ours e = gone_now (ground arith)
  answered ing gone read present ours e = gone_now (ground arith)
  answered ing (undeleted x) read present ours e = kept x (ground arith)

  pub delete_own_ingress-Deleted : Deleted (delete_own_ingress lib io d w)
  unfolding delete_own_ingress
  delete_own_ingress-Deleted = elim (Option-cases io.get_ingress) [
    | inr (e, failed) ↦ kept e (ground arith)
    | inl read ↦ elim (Option-cases (w.ingresses d.namespace d.name)) [
      | inl none_there ↦ free (ground arith) (ground arith)
      | inr (ing, present) ↦ elim (Bool-cases (controls d ing.controller)) [
        | inl ours ↦ answered ing io.delete_ingress read present ours refl
        | inr other ↦ free (ground (arith, present, other)) (ground (arith, read, present, other))
      ]
    ]
  ]
