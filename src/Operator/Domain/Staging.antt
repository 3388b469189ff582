-- ===== src/Operator/Domain/Staging.antt =====
-- A reconcile of operator/internal/controller/domain_controller.go, stage by stage: it settles its own
-- Domain, and frames it.
use orkano.Prelude.{
  ◌≡◌, refl, sym, ap, ◌∙◌, inl, inr, ◌⊎◌, Text, lit, text_eq_iff, text_eq_refl, List, Option, none,
  some, true, false, Bool-cases, Option-cases, Result-cases, ok, arith,
}
use mathlib.Core.Path.{subst}
use orkano.Operator.Kube.{ApiError, wrap}
use orkano.Operator.Domain.{Domain, DomainStatus, Ref, ref_of, is_ref, host_winner}
use orkano.Operator.Domain.Reconcile.{
  Library, Io, World, Outcome, stop, update_app_url, update_status, delete_own_ingress, yield_host,
  tell_conflict, conflicting, put_finalizers, fail_ready,
}
use orkano.Operator.Domain.Cycle.{
  reconcile_domain, finalize, contend, route, release, has_finalizer, with_finalizer,
}
use orkano.Operator.Domain.Alike.{put_finalizers-SameHosts, release-SameHosts}
use orkano.Operator.Domain.Framing.{
  Quiet, Quiet-refl, Quiet-trans, Quiet-at, Frame, Frame-trans, Quiet-Frame, route-Frame, held,
  kept, free, gone_now, without, delete_own_ingress-Deleted, update_app_url-Quiet, and_then-Quiet,
  update_status-Quiet, fail_ready-Quiet, fail_ready-error, set_ingress-Frame,
}

-- The Domain owns its host, or has no Ingress.
abbrev pub Settled : Domain → World → Type 0
Settled d w = (host_winner none w.domains d.host ≡ ok (ref_of d)) ⊎ (held d w.ingresses ≡ false)

Settled-Quiet : (d : Domain) {w w' : World} → Quiet w w' → Settled d w → Settled d w'
Settled-Quiet d q (inl owns) = inl (q.hosts.owner d.host ∙ owns)
Settled-Quiet d q (inr idle) = inr (ap (held d) q.ingresses ∙ idle)

-- A stage: it frames its own Domain, and settles it where it ends without an error.
record Stage (d : Domain) (w : World) (o : Outcome) : Type 0 where
  frame : Frame (ref_of d) w o.world
  settles : o.error ≡ none → Settled d o.world

module _ (lib : Library) (io : Io) (before : DomainStatus) (winner : Ref) (d : Domain) where
  tell_conflict-Quiet : (w : World) → Quiet w (tell_conflict lib io before winner d w).world
  unfolding tell_conflict
  tell_conflict-Quiet w =
      let url = update_app_url io d.namespace d.app_ref w in
      let told = conflicting lib winner d in
      and_then-Quiet (lit "recomputing App URL: ") w url (update_status lib io before told)
        (update_app_url-Quiet io d.namespace d.app_ref w)
        (update_status-Quiet lib io before told url.world)

  module _ (w : World) where
    -- The Ingress is gone, or was not there.
    told :
        (x : World)
        → Frame (ref_of d) w x
        → held d x.ingresses ≡ false
        → delete_own_ingress lib io d w ≡ stop x none
        → Stage d w (yield_host lib io before winner d w)
    unfolding yield_host
    told x f idle k =
        let goes : yield_host lib io before winner d w ≡ tell_conflict lib io before winner d x =
          ground (arith, k) in
        let quiet = tell_conflict-Quiet x in
        subst (Stage d w) (sym goes) (record {
          frame = Frame-trans f (Quiet-Frame (ref_of d) quiet);
          settles = λ _. Settled-Quiet d quiet (inr idle);
        })

    yield_host-Stage : Stage d w (yield_host lib io before winner d w)
    unfolding yield_host
    yield_host-Stage = elim (delete_own_ingress-Deleted lib io d w) [
      | kept e k ↦
          let why = wrap (lit "deleting Ingress of conflicting Domain: ") e in
          let goes : yield_host lib io before winner d w ≡ fail_ready lib io before d why w =
            ground (arith, k) in
          subst (Stage d w) (sym goes) (record {
            frame = Quiet-Frame (ref_of d) (fail_ready-Quiet lib io before d why w);
            settles = λ fine.
                let wrong : ⊥ = ground (arith, fail_ready-error lib io before d why w) in
                elim wrong [ ];
          })
      | free idle k ↦ told w (Quiet-Frame (ref_of d) (Quiet-refl w)) idle k
      | gone_now k ↦
          told (without lib io d w) (set_ingress-Frame d none w)
            (ground (arith, text_eq_refl d.namespace, text_eq_refl d.name)) k
    ]

pub is_ref-eq : (r : Ref) (d : Domain) → is_ref r d ≡ true → r ≡ ref_of d
unfolding is_ref
is_ref-eq r d h = ground (arith, text_eq_iff r.namespace d.namespace, text_eq_iff r.name d.name)

host_winner_ok :
    (fault : Option ApiError) (ds : List Domain) (host : Text) (r : Ref)
    → host_winner fault ds host ≡ ok r
    → host_winner none ds host ≡ ok r
unfolding host_winner
host_winner_ok none ds host r h = h
host_winner_ok (some e) ds host r h = cc

module _ (lib : Library) (cluster_issuer : Text) (io : Io) where
  contend-Stage : (d : Domain) (w : World) → Stage d w (contend lib cluster_issuer io d w)
  unfolding contend
  contend-Stage d w = elim (Result-cases (host_winner (io.list_host d.host) w.domains d.host)) [
    | inl (e, failed) ↦
        let goes : contend lib cluster_issuer io d w
            ≡ stop w (some (wrap (lit "checking host conflicts: ") e)) =
          ground (arith, failed) in
        subst (Stage d w) (sym goes)
          (record { frame = Quiet-Frame (ref_of d) (Quiet-refl w); settles = λ fine. cc })
    | inr (winner, found) ↦ elim (Bool-cases (is_ref winner d)) [
      | inr other ↦
          let goes : contend lib cluster_issuer io d w ≡ yield_host lib io d.status winner d w =
            ground (arith, found, other) in
          subst (Stage d w) (sym goes) (yield_host-Stage lib io d.status winner d w)
      | inl mine ↦
          let goes : contend lib cluster_issuer io d w ≡ route lib cluster_issuer io d.status d w =
            ground (arith, found, mine) in
          let frame = route-Frame lib cluster_issuer io d.status d w in
          let owns : host_winner none w.domains d.host ≡ ok (ref_of d) =
            host_winner_ok (io.list_host d.host) w.domains d.host winner found
            ∙ ap ok (is_ref-eq winner d mine) in
          subst (Stage d w) (sym goes)
            (record { frame = frame; settles = λ _. inl (frame.hosts.owner d.host ∙ owns) })
    ]
  ]

  finalize-Quiet : (d : Domain) (w : World) → Quiet w (finalize io d w).world
  unfolding finalize
  finalize-Quiet d w = elim (Bool-cases (has_finalizer d)) [
    | inr idle ↦ Quiet-at (finalize io d w).world (ground (arith, idle)) (Quiet-refl w)
    | inl finalizing ↦
        let url = update_app_url io d.namespace d.app_ref w in
        let released : World = record url.world { domains = release d url.world.domains } in
        let first = update_app_url-Quiet io d.namespace d.app_ref w in
        elim (Option-cases url.error) [
          | inr (e, failed) ↦
              Quiet-at (finalize io d w).world (ground (arith, finalizing, failed)) first
          | inl fine ↦ elim (Option-cases io.update_domain) [
            | inr (e, failed) ↦
                Quiet-at (finalize io d w).world (ground (arith, finalizing, fine, failed)) first
            | inl updated ↦
                Quiet-at {x = released} (finalize io d w).world
                  (ground (arith, finalizing, fine, updated))
                  (Quiet-trans first
                    (record { hosts = release-SameHosts d url.world.domains; ingresses = refl }))
          ]
        ]
  ]

  -- What a reconcile of a stored Domain leaves: it frames it, and settles it where it is live.
  pub record Done (d : Domain) (w : World) (o : Outcome) : Type 0 where
    pub frame : Frame (ref_of d) w o.world
    pub settles : d.deleted ≡ false → o.error ≡ none → Settled d o.world

  pub reconcile_domain-Done :
      (d : Domain) (w : World) → Done d w (reconcile_domain lib cluster_issuer io d w)
  unfolding reconcile_domain
  reconcile_domain-Done d w = elim (Bool-cases d.deleted) [
    | inl dying ↦
        let goes : reconcile_domain lib cluster_issuer io d w ≡ finalize io d w =
          ground (arith, dying) in
        subst (Done d w) (sym goes)
          (record { frame = Quiet-Frame (ref_of d) (finalize-Quiet d w); settles = λ live. cc })
    | inr live ↦ elim (Bool-cases (has_finalizer d)) [
      | inl has ↦
          let goes : reconcile_domain lib cluster_issuer io d w
              ≡ contend lib cluster_issuer io d w =
            ground (arith, live, has) in
          let stage = contend-Stage d w in
          subst (Done d w) (sym goes) (record { frame = stage.frame; settles = λ _. stage.settles })
      | inr lacks ↦ elim (Option-cases io.update_domain) [
        | inr (e, failed) ↦
            let goes : reconcile_domain lib cluster_issuer io d w
                ≡ stop w (some (wrap (lit "adding finalizer: ") e)) =
              ground (arith, live, lacks, failed) in
            subst (Done d w) (sym goes)
              (record { frame = Quiet-Frame (ref_of d) (Quiet-refl w); settles = λ _ fine. cc })
        | inl updated ↦
            let d' = with_finalizer lib cluster_issuer d in
            let w' : World = record w {
              domains = put_finalizers (ref_of d) d'.finalizers w.domains;
            } in
            let goes : reconcile_domain lib cluster_issuer io d w
                ≡ contend lib cluster_issuer io d' w' =
              ground (arith, live, lacks, updated) in
            let stage = contend-Stage d' w' in
            let first : Quiet w w' = record {
              hosts = put_finalizers-SameHosts (ref_of d) d'.finalizers w.domains;
              ingresses = refl;
            } in
            subst (Done d w) (sym goes) (record {
              frame = Frame-trans (Quiet-Frame (ref_of d) first) stage.frame;
              settles = λ _. stage.settles;
            })
      ]
    ]
  ]
