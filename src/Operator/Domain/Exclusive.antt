-- ===== src/Operator/Domain/Exclusive.antt =====
-- At most one Ingress for a host, once its Domains have been reconciled by
-- operator/internal/controller/domain_controller.go, one after the other in any order.
use orkano.Prelude.{
  ◌≡◌, ◌≢◌, sym, ap, ◌∙◌, inl, inr, ◌⊎◌, Text, text_eq, text_eq_iff, List, [], ◌∷◌, none, some,
  false, ◌&&◌, Bool-cases, Option-cases, ok, arith, In,
}
use mathlib.Core.Path.{subst}
use orkano.Operator.Domain.{Domain, Ref, ref_of, is_ref, host_winner}
use orkano.Operator.Domain.Reconcile.{Library, Io, World, Outcome, find_domain}
use orkano.Operator.Domain.Cycle.{reconcile, reconcile_domain}
use orkano.Operator.Domain.Alike.{core, core_of}
use orkano.Operator.Domain.Framing.{Quiet-refl, Frame, Quiet-Frame, held}
use orkano.Operator.Domain.Staging.{Settled, reconcile_domain-Done, is_ref-eq}

find_domain-ref :
    (r : Ref) (ds : List Domain) (d : Domain) → find_domain r ds ≡ some d → r ≡ ref_of d
unfolding find_domain
find_domain-ref r [] d h = cc
find_domain-ref r (x ∷ ds) d h = elim (Bool-cases (is_ref r x)) [
  | inl here ↦ ground (arith, is_ref-eq r x)
  | inr later ↦ find_domain-ref r ds d (ground arith)
]

-- The stored Domain, but for its status and finalizers.
abbrev pub Stored : Domain → World → Type 0
Stored d w = core_of (find_domain (ref_of d) w.domains) ≡ some (core d)

module _ (lib : Library) (cluster_issuer : Text) where
  -- Reconciles, one after the other, each with what fails of its calls.
  unfoldable pub run : List (Ref × Io) → World → World
  run [] w = w
  run ((r, io) ∷ es) w = run es (reconcile lib cluster_issuer io r w).world

  -- None ends with an error.
  abbrev pub Fine : List (Ref × Io) → World → Type 0
  Fine [] w = Unit {0}
  Fine ((r, io) ∷ es) w =
      ((reconcile lib cluster_issuer io r w).error ≡ none)
      × Fine es (reconcile lib cluster_issuer io r w).world

  abbrev pub refs : List (Ref × Io) → List Ref
  refs [] = []
  refs ((r, io) ∷ es) = r ∷ refs es

  reconcile-Frame :
      (io : Io) (r : Ref) (w : World) → Frame r w (reconcile lib cluster_issuer io r w).world
  unfolding reconcile
  reconcile-Frame io r w =
      let o = reconcile lib cluster_issuer io r w in
      let idle : o.world ≡ w → Frame r w o.world =
        λ e. subst (Frame r w) (sym e) (Quiet-Frame r (Quiet-refl w)) in
      elim (Option-cases io.get_domain) [
        | inr (e, failed) ↦ idle (ground arith)
        | inl read ↦ elim (Option-cases (find_domain r w.domains)) [
          | inl lost ↦ idle (ground arith)
          | inr (d, found) ↦
              let goes : o ≡ reconcile_domain lib cluster_issuer io d w =
                ground (arith, read, found) in
              subst (λ x. Frame r w x.world) (sym goes)
                (subst (λ q. Frame q w (reconcile_domain lib cluster_issuer io d w).world)
                  (sym (find_domain-ref r w.domains d found))
                  (reconcile_domain-Done lib cluster_issuer io d w).frame)
        ]
      ]

  Stored-step :
      (io : Io) (r : Ref) (w : World) (d : Domain)
      → Stored d w
      → d.deleted ≡ false
      → Stored d (reconcile lib cluster_issuer io r w).world
  Stored-step io r w d s live = elim (Option-cases (find_domain (ref_of d) w.domains)) [
    | inl lost ↦ let wrong : ⊥ = ground arith in elim wrong [ ]
    | inr (d', here) ↦
        let same : core d' ≡ core d = ground arith in
        (reconcile-Frame io r w).hosts.stays (ref_of d) d' here
          (ap (λ (x : Domain). x.deleted) same ∙ live)
        ∙ ap some same
  ]

  -- Its own reconcile settles a live Domain.
  Settled-own :
      (io : Io) (w : World) (d : Domain)
      → Stored d w
      → d.deleted ≡ false
      → (reconcile lib cluster_issuer io (ref_of d) w).error ≡ none
      → Settled d (reconcile lib cluster_issuer io (ref_of d) w).world
  unfolding reconcile
  Settled-own io w d s live fine = elim (Option-cases io.get_domain) [
    | inr (e, failed) ↦ let wrong : ⊥ = ground arith in elim wrong [ ]
    | inl read ↦ elim (Option-cases (find_domain (ref_of d) w.domains)) [
      | inl lost ↦ let wrong : ⊥ = ground arith in elim wrong [ ]
      | inr (d', here) ↦
          let same : core d' ≡ core d = ground arith in
          let goes : reconcile lib cluster_issuer io (ref_of d) w
              ≡ reconcile_domain lib cluster_issuer io d' w =
            ground (arith, read, here) in
          let settled =
            (reconcile_domain-Done lib cluster_issuer io d' w).settles
              (ap (λ (x : Domain). x.deleted) same ∙ live)
              (ap (λ (o : Outcome). o.error) (sym goes) ∙ fine) in
          subst (λ o. Settled d o.world) (sym goes)
            (subst (λ x. Settled x (reconcile_domain lib cluster_issuer io d' w).world) same
              settled)
    ]
  ]

  -- The reconcile of another leaves it settled.
  Settled-other :
      (io : Io) (r : Ref) (w : World) (d : Domain)
      → (text_eq d.namespace r.namespace && text_eq d.name r.name) ≡ false
      → Settled d w
      → Settled d (reconcile lib cluster_issuer io r w).world
  Settled-other io r w d other (inl owns) = inl ((reconcile-Frame io r w).hosts.owner d.host ∙ owns)
  Settled-other io r w d other (inr idle) =
      inr (ground (arith, idle, (reconcile-Frame io r w).others d.namespace d.name other))

  Settled-its :
      (io : Io) (r : Ref) (w : World) (d : Domain)
      → Stored d w
      → d.deleted ≡ false
      → (reconcile lib cluster_issuer io r w).error ≡ none
      → ref_of d ≡ r
      → Settled d (reconcile lib cluster_issuer io r w).world
  Settled-its io r w d s live fine mine =
      subst (λ q. Settled d (reconcile lib cluster_issuer io q w).world) mine
        (Settled-own io w d s live
          (subst (λ q. (reconcile lib cluster_issuer io q w).error ≡ none) (sym mine) fine))

  Settled-step :
      (io : Io) (r : Ref) (w : World) (d : Domain)
      → Stored d w
      → d.deleted ≡ false
      → (reconcile lib cluster_issuer io r w).error ≡ none
      → Settled d w
      → Settled d (reconcile lib cluster_issuer io r w).world
  Settled-step io r w d s live fine before =
      elim (Bool-cases (text_eq d.namespace r.namespace && text_eq d.name r.name)) [
        | inr other ↦ Settled-other io r w d other before
        | inl same ↦
            let mine : ref_of d ≡ r =
              ground (arith, text_eq_iff d.namespace r.namespace, text_eq_iff d.name r.name) in
            Settled-its io r w d s live fine mine
      ]

  Settled-run :
      (es : List (Ref × Io)) (w : World) (d : Domain)
      → Stored d w
      → d.deleted ≡ false
      → Fine es w
      → Settled d w ⊎ In (ref_of d) (refs es)
      → Settled d (run es w)
  unfolding run
  Settled-run [] w d s live fine (inl before) = before
  Settled-run [] w d s live fine (inr m) = elim m [ ]
  Settled-run ((r, io) ∷ es) w d s live (fine, rest) (inl before) =
      Settled-run es (reconcile lib cluster_issuer io r w).world d (Stored-step io r w d s live)
        live rest (inl (Settled-step io r w d s live fine before))
  Settled-run ((r, io) ∷ es) w d s live (fine, rest) (inr (inl mine)) =
      Settled-run es (reconcile lib cluster_issuer io r w).world d (Stored-step io r w d s live)
        live rest (inl (Settled-its io r w d s live fine mine))
  Settled-run ((r, io) ∷ es) w d s live (fine, rest) (inr (inr later)) =
      Settled-run es (reconcile lib cluster_issuer io r w).world d (Stored-step io r w d s live)
        live rest (inr later)

  -- After reconciles that ended without an error, in any order and among those of other Domains, of two
  -- live Domains that claim one host and were both reconciled, one at least controls no Ingress of its
  -- name; so a host is not routed twice.
  pub one_ingress :
      (es : List (Ref × Io)) (w : World) (d e : Domain)
      → Stored d w
      → d.deleted ≡ false
      → Stored e w
      → e.deleted ≡ false
      → d.host ≡ e.host
      → ref_of d ≢ ref_of e
      → Fine es w
      → In (ref_of d) (refs es)
      → In (ref_of e) (refs es)
      → (held d (run es w).ingresses ≡ false) ⊎ (held e (run es w).ingresses ≡ false)
  one_ingress es w d e sd ld se le same apart fine md me =
      both (Settled-run es w d sd ld fine (inr md)) (Settled-run es w e se le fine (inr me))
    where
      both :
          Settled d (run es w)
          → Settled e (run es w)
          → (held d (run es w).ingresses ≡ false) ⊎ (held e (run es w).ingresses ≡ false)
      both (inr idle) b = inl idle
      both (inl a) (inr idle) = inr idle
      both (inl a) (inl b) =
          let c : host_winner none (run es w).domains d.host ≡ ok (ref_of e) =
            ap (host_winner none (run es w).domains) same ∙ b in
          absurd (apart (cc))
