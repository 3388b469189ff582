-- ===== src/Operator/Domain/Alike.antt =====
-- The writes of operator/internal/controller/domain_controller.go to a stored Domain leave alone what
-- decides who owns a host.
use orkano.Prelude.{
  ◌≡◌, refl, sym, ap, ◌∙◌, inl, inr, Text, List, [], ◌∷◌, map, Option, none, some, false, not, ◌&&◌,
  Bool-cases, Option-cases, ok, arith, select,
}
use mathlib.Core.Path.{subst}
use orkano.Operator.Domain.{
  Domain, DomainStatus, Ref, ref_of, is_ref, older_domain, better, oldest, claims, host_winner,
  winner_ref,
}
use orkano.Operator.Domain.Reconcile.{put_status, put_finalizers, find_domain}
use orkano.Operator.Domain.Cycle.{release, is_gone, is_nil, other_finalizers}

-- A Domain without what the controller writes.
abbrev pub core : Domain → Domain
core d = record d { finalizers = []; status = record { observed_generation = 0; conditions = [] } }

abbrev pub core_of : Option Domain → Option Domain
core_of none = none
core_of (some d) = some (core d)

abbrev pub cores : List Domain → List Domain
cores = map core

better-core : (d : Domain) (b : Option Domain) → better (core d) (core_of b) ≡ better d b
unfolding older_domain
better-core d none = refl
better-core d (some b) = refl

oldest_core :
    (ds : List Domain) (b : Option Domain) → oldest (cores ds) (core_of b) ≡ core_of (oldest ds b)
unfolding oldest
oldest_core [] b = refl
oldest_core (d ∷ ds) b = elim (Bool-cases (not d.deleted && better d b)) [
  | inl taken ↦ ground (arith, better-core d b, oldest_core ds (some d))
  | inr passed ↦ ground (arith, better-core d b, oldest_core ds b)
]

select-cores :
    (host : Text) (ds : List Domain)
    → select (claims host) (cores ds) ≡ cores (select (claims host) ds)
select-cores host [] = refl
select-cores host (d ∷ ds) = ground (arith, select-cores host ds)

winner_core : (o : Option Domain) → winner_ref (core_of o) ≡ winner_ref o
winner_core none = refl
winner_core (some d) = refl

host_winner_core :
    (ds : List Domain) (host : Text) → host_winner none (cores ds) host ≡ host_winner none ds host
unfolding host_winner
host_winner_core ds host =
    ap (λ l. ok (winner_ref (oldest l none))) (select-cores host ds)
    ∙ ap (λ o. ok (winner_ref o)) (oldest_core (select (claims host) ds) none)
    ∙ ap ok (winner_core (oldest (select (claims host) ds) none))

find_domain_core :
    (r : Ref) (ds : List Domain) → find_domain r (cores ds) ≡ core_of (find_domain r ds)
unfolding find_domain is_ref
find_domain_core r [] = refl
find_domain_core r (d ∷ ds) = ground (arith, find_domain_core r ds)

cores-put_status :
    (r : Ref) (s : DomainStatus) (ds : List Domain) → cores (put_status r s ds) ≡ cores ds
unfolding put_status
cores-put_status r s [] = refl
cores-put_status r s (d ∷ ds) = ground (arith, cores-put_status r s ds)

cores-put_finalizers :
    (r : Ref) (fs : List Text) (ds : List Domain) → cores (put_finalizers r fs ds) ≡ cores ds
unfolding put_finalizers
cores-put_finalizers r fs [] = refl
cores-put_finalizers r fs (d ∷ ds) = ground (arith, cores-put_finalizers r fs ds)

-- The same Domains decide: who owns each host, and which live Domain is found by a name.
pub record SameHosts (before after : List Domain) : Type 0 where
  pub owner : (host : Text) → host_winner none after host ≡ host_winner none before host
  pub stays :
      (r : Ref) (d : Domain)
      → find_domain r before ≡ some d
      → d.deleted ≡ false
      → core_of (find_domain r after) ≡ some (core d)

pub cores-SameHosts : (xs ys : List Domain) → cores ys ≡ cores xs → SameHosts xs ys
cores-SameHosts xs ys e = record {
  owner = λ host.
      sym (host_winner_core ys host)
      ∙ ap (λ l. host_winner none l host) e
      ∙ host_winner_core xs host;
  stays = λ r d h l.
      sym (find_domain_core r ys) ∙ ap (find_domain r) e ∙ find_domain_core r xs ∙ ap core_of h;
}

pub put_status-SameHosts :
    (r : Ref) (s : DomainStatus) (ds : List Domain) → SameHosts ds (put_status r s ds)
put_status-SameHosts r s ds = cores-SameHosts ds _ (cores-put_status r s ds)

pub put_finalizers-SameHosts :
    (r : Ref) (fs : List Text) (ds : List Domain) → SameHosts ds (put_finalizers r fs ds)
put_finalizers-SameHosts r fs ds = cores-SameHosts ds _ (cores-put_finalizers r fs ds)

oldest_gone :
    (r : Ref) (host : Text) (ds : List Domain) (b : Option Domain)
    → oldest (select (claims host) (select (λ x. not (is_gone r x)) ds)) b
      ≡ oldest (select (claims host) ds) b
unfolding oldest
oldest_gone r host [] b = refl
oldest_gone r host (d ∷ ds) b =
    ground (arith, oldest_gone r host ds b, oldest_gone r host ds (some d))

find_domain_live :
    (q r : Ref) (ds : List Domain) (d : Domain)
    → find_domain r ds ≡ some d
    → d.deleted ≡ false
    → find_domain r (select (λ x. not (is_gone q x)) ds) ≡ some d
unfolding find_domain
find_domain_live q r [] d h live = cc
find_domain_live q r (x ∷ ds) d h live = ground (arith, find_domain_live q r ds d)

gone_SameHosts : (q : Ref) (ds : List Domain) → SameHosts ds (select (λ x. not (is_gone q x)) ds)
unfolding host_winner
gone_SameHosts q ds = record {
  owner = λ host. ap (λ o. ok (winner_ref o)) (oldest_gone q host ds none);
  stays = λ r d h l. ap core_of (find_domain_live q r ds d h l);
}

pub release-SameHosts : (d : Domain) (ds : List Domain) → SameHosts ds (release d ds)
unfolding release
release-SameHosts d ds = elim (Bool-cases (is_nil (other_finalizers d))) [
  | inl last ↦
      let e : release d ds ≡ select (λ x. not (is_gone (ref_of d) x)) ds = ground (arith, last) in
      subst (SameHosts ds) (sym e) (gone_SameHosts (ref_of d) ds)
  | inr more ↦
      let e : release d ds ≡ put_finalizers (ref_of d) (other_finalizers d) ds =
        ground (arith, more) in
      subst (SameHosts ds) (sym e) (put_finalizers-SameHosts (ref_of d) (other_finalizers d) ds)
]

pub SameHosts-refl : (ds : List Domain) → SameHosts ds ds
SameHosts-refl ds = cores-SameHosts ds ds refl

pub SameHosts-trans : (xs ys zs : List Domain) → SameHosts xs ys → SameHosts ys zs → SameHosts xs zs
SameHosts-trans xs ys zs a b = record {
  owner = λ host. b.owner host ∙ a.owner host;
  stays = λ r d h l. elim (Option-cases (find_domain r ys)) [
    | inl lost ↦ let wrong : ⊥ = ground (arith, a.stays r d h l) in elim wrong [ ]
    | inr (d', here) ↦
        let same : core d' ≡ core d = ground (arith, a.stays r d h l) in
        b.stays r d' here (ap (λ (x : Domain). x.deleted) same ∙ l) ∙ ap some same
  ];
}
