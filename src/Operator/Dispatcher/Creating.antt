-- ===== src/Operator/Dispatcher/Creating.antt =====
-- `createBuild` of operator/internal/dispatcher/dispatcher.go.
use orkano.Prelude.{
  ◌≡◌, refl, Text, text_eq_refl, List, [], ◌∷◌, ◌++◌, true, false, arith, inl, inr, ◌⊎◌, Bool-cases,
}
use orkano.Api.{Build}
use orkano.Operator.Dispatcher.{Cluster, Resolution, commit, unresolvable, unreachable, Answers}
use orkano.Operator.Dispatcher.Loop.{exists, create_build}

pub exists-append :
    (b : Build) (bs cs : List Build) → exists b bs ≡ true → exists b (bs ++ cs) ≡ true
exists-append b [] cs h = let no : ⊥ = ground arith in elim no [ ]
exists-append b (c ∷ bs) cs h = ground (arith, exists-append b bs cs)

pub exists-last : (b : Build) (bs : List Build) → exists b (bs ++ b ∷ []) ≡ true
exists-last b [] = ground (arith, text_eq_refl b.name, text_eq_refl b.namespace)
exists-last b (c ∷ bs) = ground (arith, exists-last b bs)

pub Resolution-cases :
    (r : Resolution) → ((sha : Text) × (r ≡ commit sha)) ⊎ ((r ≡ unresolvable) ⊎ (r ≡ unreachable))
Resolution-cases (commit sha) = inl (sha, refl)
Resolution-cases unresolvable = inr (inl refl)
Resolution-cases unreachable = inr (inr refl)

-- Creating a build adds it, or nothing; where it does not fail, the build is there.
pub create_build-added :
    (w : Answers) (b : Build) (c : Cluster)
    → let o = create_build w b c in (o.1 ≡ c) ⊎ (o.1 ≡ record c { builds = c.builds ++ b ∷ [] })
unfolding create_build
create_build-added w b c = elim (Bool-cases (exists b c.builds)) [
  | inl e ↦ inl (ground arith)
  | inr n ↦ elim (Bool-cases (w.create_fails b)) [
    | inl f ↦ inl (ground arith)
    | inr f ↦ inr (ground arith)
  ]
]

pub create_build-there :
    (w : Answers) (b : Build) (c : Cluster)
    → (create_build w b c).0 ≡ false
    → exists b (create_build w b c).1.builds ≡ true
unfolding create_build
create_build-there w b c e = ground (arith, exists-last b c.builds)

pub create_build-again :
    (w : Answers) (b : Build) (c : Cluster)
    → w.create_fails b ≡ false
    → exists b c.builds ≡ true
    → create_build w b c ≡ (false, c)
unfolding create_build
create_build-again w b c works e = ground arith
