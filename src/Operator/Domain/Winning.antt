-- ===== src/Operator/Domain/Winning.antt =====
-- `hostWinner` of operator/internal/controller/domain_controller.go: the oldest live Domain owns the
-- host, in whatever order the Domains are listed, and it alone.
use orkano.Prelude.{
  ◌≡◌, refl, sym, ap, inl, inr, ◌⊎◌, Text, text_eq_iff, List, [], ◌∷◌, Option, none, some, Bool,
  true, false, not, ◌&&◌, if◌then◌else◌, Bool-cases, ok, arith, All, All_map, All_at, In, In_select,
  select, select-All_back,
}
use mathlib.Core.Path.{subst}
use orkano.Prelude.Sorting.{less_irrefl, less_trans, less_total}
use orkano.Operator.Domain.{
  Domain, Ref, ref_of, no_ref, older_domain, better, oldest, claims, host_winner, winner_ref,
}

-- One that is not older than one that is not older than a third is not older than that.
older_domain_negative :
    (a b c : Domain)
    → older_domain a b ≡ false
    → older_domain b c ≡ false
    → older_domain a c ≡ false
unfolding older_domain
older_domain_negative a b c h k = ground (
  arith,
  text_eq_iff a.name b.name,
  text_eq_iff b.name c.name,
  text_eq_iff a.name c.name,
  less_trans b.name a.name c.name,
  less_total a.name b.name,
  less_trans b.namespace a.namespace c.namespace,
  less_total a.namespace b.namespace,
)

older_domain_irrefl : (a : Domain) → older_domain a a ≡ false
unfolding older_domain
older_domain_irrefl a = ground (arith, less_irrefl a.name, less_irrefl a.namespace)

abbrev NotOlder : Option Domain → Domain → Type 0
NotOlder none d = Unit {0}
NotOlder (some b) d = older_domain b d ≡ false

abbrev beaten : Domain → Domain → Bool
beaten d x = not x.deleted && older_domain x d

-- What the loop comes to.
data Ends (ds : List Domain) (best : Option Domain) : Option Domain → Type 0 where
  nobody : best ≡ none → All (λ x. x.deleted ≡ true) ds → Ends ds best none
  somebody :
      (d : Domain)
      → (In d ds × (d.deleted ≡ false)) ⊎ (best ≡ some d)
      → All (λ x. beaten d x ≡ false) ds
      → NotOlder best d
      → Ends ds best (some d)

came_from :
    (x d : Domain) (ds : List Domain)
    → x.deleted ≡ false
    → (In d ds × (d.deleted ≡ false)) ⊎ (some x ≡ some d)
    → In d (x ∷ ds) × (d.deleted ≡ false)
came_from x d ds live (inl (m, l)) = (inr m, l)
came_from x d ds live (inr e) =
    let same : x ≡ d = cc in (inl (sym same), subst (λ (y : Domain). y.deleted ≡ false) same live)

older_domain_asym : (a b : Domain) → older_domain a b ≡ true → older_domain b a ≡ false
unfolding older_domain
older_domain_asym a b h = ground (
  arith,
  text_eq_iff a.name b.name,
  text_eq_iff b.name a.name,
  less_trans a.name b.name a.name,
  less_irrefl a.name,
  less_trans a.namespace b.namespace a.namespace,
  less_irrefl a.namespace,
)

not_older_than :
    (x b d : Domain) → older_domain x b ≡ true → older_domain x d ≡ false → older_domain b d ≡ false
not_older_than x b d won n = elim (Bool-cases (older_domain b d)) [
  | inr r ↦ r
  | inl y ↦
      let wrong = older_domain_negative x d b n (older_domain_asym b d y) in ground (arith, wrong)
]

-- One turn of the loop, where the Domain is taken and where it is passed over.
turn_taken :
    (x : Domain) (ds : List Domain) (best : Option Domain) (r : Option Domain)
    → x.deleted ≡ false
    → better x best ≡ true
    → Ends ds (some x) r
    → Ends (x ∷ ds) best r
turn_taken x ds best _ live won (nobody h a) = cc
turn_taken x ds none _ live won (somebody d from a n) =
    somebody d (inl (came_from x d ds live from)) (ground arith, a) tt
turn_taken x ds (some b) _ live won (somebody d from a n) =
    somebody d (inl (came_from x d ds live from)) (ground arith, a) (not_older_than x b d won n)

kept_from :
    (x d : Domain) (ds : List Domain) (best : Option Domain)
    → (In d ds × (d.deleted ≡ false)) ⊎ (best ≡ some d)
    → (In d (x ∷ ds) × (d.deleted ≡ false)) ⊎ (best ≡ some d)
kept_from x d ds best (inl (m, l)) = inl (inr m, l)
kept_from x d ds best (inr e) = inr e

turn_passed :
    (x : Domain) (ds : List Domain) (best : Option Domain) (r : Option Domain)
    → (not x.deleted && better x best) ≡ false
    → Ends ds best r
    → Ends (x ∷ ds) best r
turn_passed x ds best _ passed (nobody h a) = nobody h (ground (arith, h, passed), a)
turn_passed x ds none _ passed (somebody d from a n) =
    somebody d (kept_from x d ds none from) (ground (arith, passed), a) n
turn_passed x ds (some b) _ passed (somebody d from a n) =
    somebody d (kept_from x d ds (some b) from)
      (ground (arith, passed, older_domain_negative x b d), a) n

oldest-Ends : (ds : List Domain) (best : Option Domain) → Ends ds best (oldest ds best)
unfolding oldest
oldest-Ends [] none = nobody refl tt
oldest-Ends [] (some b) = somebody b (inr refl) tt (older_domain_irrefl b)
oldest-Ends (x ∷ ds) best = elim (Bool-cases (not x.deleted && better x best)) [
  | inl taken ↦
      subst (λ b. Ends (x ∷ ds) best (oldest ds (if b then some x else best))) (sym taken)
        (turn_taken x ds best (oldest ds (some x)) (ground arith) (ground arith)
          (oldest-Ends ds (some x)))
  | inr passed ↦
      subst (λ b. Ends (x ∷ ds) best (oldest ds (if b then some x else best))) (sym passed)
        (turn_passed x ds best (oldest ds best) passed (oldest-Ends ds best))
]

-- `d` claims the host, is live, and no live Domain that claims it is older.
pub record Owns (domains : List Domain) (host : Text) (d : Domain) : Type 0 where
  pub present : In d domains
  pub claims_it : d.host ≡ host
  pub live : d.deleted ≡ false
  pub unbeaten : All (λ x. (claims host x && beaten d x) ≡ false) domains

-- Who the owner of a host is: nobody, where no live Domain claims it.
pub data Owner (domains : List Domain) (host : Text) : Ref → Type 0 where
  unowned : All (λ x. (claims host x && not x.deleted) ≡ false) domains → Owner domains host no_ref
  owned : (d : Domain) → Owns domains host d → Owner domains host (ref_of d)

select-Owner :
    (domains : List Domain) (host : Text) (o : Option Domain)
    → Ends (select (claims host) domains) none o
    → Owner domains host (winner_ref o)
select-Owner domains host _ (nobody _ dead) = unowned (
    select-All_back (claims host) (λ x. not x.deleted) domains
      (All_map (λ x (h : x.deleted ≡ true). let r : not x.deleted ≡ false = ground arith in r) _
        dead))
select-Owner domains host _ (somebody d (inr e) a _) = cc
select-Owner domains host _ (somebody d (inl (m, live)) a _) =
    let (there, claimed) = In_select (claims host) d domains m in
    owned d (record {
      present = there;
      claims_it = (text_eq_iff d.host host).0 claimed;
      live = live;
      unbeaten = select-All_back (claims host) (beaten d) domains a;
    })

-- The owner of a host that the controller finds is the oldest of the live Domains that claim it, names
-- and then namespaces breaking a tie; where it names no Domain, no live Domain claims the host.
pub host_winner-Owner :
    (domains : List Domain) (host : Text) (r : Ref)
    → host_winner none domains host ≡ ok r
    → Owner domains host r
unfolding host_winner
host_winner-Owner domains host r h =
    let o = oldest (select (claims host) domains) none in
    let same : winner_ref o ≡ r = cc in
    subst (Owner domains host) same
      (select-Owner domains host o (oldest-Ends (select (claims host) domains) none))

-- Of two owners, each unbeaten by the other, the names and the namespaces are the same.
unbeaten_same :
    (d e : Domain) → older_domain d e ≡ false → older_domain e d ≡ false → ref_of d ≡ ref_of e
unfolding older_domain
unbeaten_same d e h k = ground (
  arith,
  text_eq_iff d.name e.name,
  text_eq_iff e.name d.name,
  less_total d.name e.name,
  less_total d.namespace e.namespace,
)

unbeaten_at :
    (host : Text) (ds : List Domain) (d e : Domain)
    → All (λ x. (claims host x && beaten d x) ≡ false) ds
    → In e ds
    → e.host ≡ host
    → e.deleted ≡ false
    → older_domain e d ≡ false
unbeaten_at host ds d e a m h live =
    let here : (claims host e && beaten d e) ≡ false = All_at _ ds e a m in
    ground (arith, here, (text_eq_iff e.host host).1 h)

Owner-same :
    (xs ys : List Domain) (host : Text) (r s : Ref)
    → ((d : Domain) → In d xs → In d ys)
    → ((d : Domain) → In d ys → In d xs)
    → Owner xs host r
    → Owner ys host s
    → r ≡ s
Owner-same xs ys host _ _ there back (unowned a) (unowned b) = refl
Owner-same xs ys host _ _ there back (unowned a) (owned e o) =
    let here : (claims host e && not e.deleted) ≡ false = All_at _ xs e a (back e o.present) in
    let wrong : ⊥ = ground (arith, here, (text_eq_iff e.host host).1 o.claims_it, o.live) in
    elim wrong [ ]
Owner-same xs ys host _ _ there back (owned d o) (unowned b) =
    let here : (claims host d && not d.deleted) ≡ false = All_at _ ys d b (there d o.present) in
    let wrong : ⊥ = ground (arith, here, (text_eq_iff d.host host).1 o.claims_it, o.live) in
    elim wrong [ ]
Owner-same xs ys host _ _ there back (owned d o) (owned e p) =
    unbeaten_same d e (unbeaten_at host ys e d p.unbeaten (there d o.present) o.claims_it o.live)
      (unbeaten_at host xs d e o.unbeaten (back e p.present) p.claims_it p.live)

-- The owner does not depend on the order in which the Domains are listed, nor on repetitions.
pub host_winner_order :
    (xs ys : List Domain) (host : Text)
    → ((d : Domain) → In d xs → In d ys)
    → ((d : Domain) → In d ys → In d xs)
    → host_winner none xs host ≡ host_winner none ys host
unfolding host_winner
host_winner_order xs ys host there back = ap ok (
    Owner-same xs ys host _ _ there back (host_winner-Owner xs host _ refl)
      (host_winner-Owner ys host _ refl))
