-- ===== src/Operator/Dispatcher/Loop.antt =====
-- `handle`, `processOne` and `tick` of operator/internal/dispatcher/dispatcher.go.
use orkano.Prelude.{
  ℕ, suc, zero, Text, text_eq, is_empty, List, [], ◌∷◌, ◌++◌, Option, none, some, Bool, true, false,
  not, ◌&&◌, ◌==◌, if◌then◌else◌, length, any_of, select, ok, err,
}
use orkano.Prelude.Trimming.{trim_space, to_lower}
use orkano.Api.{App, Build}
use orkano.Features.{Set, validate_app}
use orkano.Operator.Dispatcher.{
  Delivery, Cluster, Resolution, commit, unresolvable, unreachable, Answers, validate_delivery,
  resolve_commit, build_from_app, budget, build_name_for_delivery,
}

abbrev pub same_name : Build → Build → Bool
same_name a b = text_eq a.name b.name && text_eq a.namespace b.namespace

abbrev pub exists : Build → List Build → Bool
exists b bs = any_of (same_name b) bs

-- `createBuild`: whether it fails, and the store. Unless the call fails by itself, a build that exists
-- is success.
unfoldable pub create_build : Answers → Build → Cluster → Bool × Cluster
create_build w b c =
    if w.create_fails b
    then (true, c)
    else if exists b c.builds
    then (false, c)
    else (false, record c { builds = c.builds ++ b ∷ [] })

-- What is known at the end of the loop over the apps: the store, how many apps were skipped, and
-- whether a transient failure ended it.
pub record Progress : Type 0 where
  pub cluster : Cluster
  pub skipped : ℕ
  pub failed : Bool

-- `ack`, whether there is an error to log or return, and the store.
pub record Handled : Type 0 where
  pub ack : Bool
  pub error : Bool
  pub cluster : Cluster

-- A queue and a store after `processOne`: whether a row was removed, or an error.
pub record Processed : Type 0 where
  pub outcome : Option Bool
  pub queue : List Delivery
  pub cluster : Cluster

abbrev pub by_name : Text → List App → List App
by_name name [] = []
by_name name (a ∷ apps) =
    let rest = by_name name apps in if text_eq a.name name then a ∷ [] else rest

module _ (sha256_hex : Text → Text) (unicode_lower : Text → Text) where
  abbrev pub is_repo : Text → App → Bool
  is_repo want app = elim app.spec.source.github [
    | none ↦ false
    | some s ↦ text_eq (to_lower unicode_lower s.repo) want
  ]

  unfoldable pub apps_for_repo : Text → Cluster → List App
  apps_for_repo repo c = select (is_repo (to_lower unicode_lower (trim_space repo))) c.apps

  unfoldable pub apps_for_delivery : Delivery → Cluster → List App
  unfolding apps_for_repo
  apps_for_delivery d c =
      if is_empty d.app_name then apps_for_repo d.repo c else by_name d.app_name c.apps

  unfoldable pub wanted : Delivery → App → Text → Build
  unfolding build_from_app build_name_for_delivery
  wanted d app sha = build_from_app app sha (build_name_for_delivery sha256_hex app.name sha d)

  -- One app: its build, or why there is none.
  unfoldable pub attempt : Set → Answers → Delivery → App → Resolution
  unfolding resolve_commit
  attempt features w d app = elim (validate_app features app.spec) [
    | err _ ↦ unresolvable
    | ok _ ↦ resolve_commit w app
  ]

  unfoldable pub build_apps : Set → Answers → Delivery → List App → Cluster → ℕ → Progress
  unfolding attempt create_build wanted
  build_apps features w d [] c skipped = record { cluster = c; skipped = skipped; failed = false }
  build_apps features w d (app ∷ apps) c skipped = elim (attempt features w d app) [
    | unresolvable ↦ build_apps features w d apps c (suc skipped)
    | unreachable ↦ record { cluster = c; skipped = skipped; failed = true }
    | commit sha ↦
        let (fails, c') = create_build w (wanted d app sha) c in
        elim fails [
          | true ↦ record { cluster = c'; skipped = skipped; failed = true }
          | false ↦ build_apps features w d apps c' skipped
        ]
  ]

  abbrev pub handled : ℕ → Progress → Handled
  handled total p =
      if p.failed
      then record { ack = false; error = true; cluster = p.cluster }
      else record { ack = true; error = p.skipped == total; cluster = p.cluster }

  unfoldable pub handle : Set → Answers → Delivery → Cluster → Handled
  unfolding apps_for_delivery build_apps
  handle features w d c =
      let apps = apps_for_delivery d c in
      if not (validate_delivery d)
      then record { ack = true; error = true; cluster = c }
      else if w.list_fails
      then record { ack = false; error = true; cluster = c }
      else if length apps == 0
      then record { ack = true; error = true; cluster = c }
      else handled (length apps) (build_apps features w d apps c 0)

  -- `processOne`: `none` is an error, `some false` an empty queue. A row that is not acknowledged, or
  -- whose removal does not commit, stays, whether or not the rollback is reported as done.
  unfoldable pub process_one : Set → Answers → List Delivery → Cluster → Processed
  unfolding handle
  process_one features w queue c =
      if w.claim_fails then record { outcome = none; queue = queue; cluster = c } else elim queue [
        | [] ↦ record { outcome = some false; queue = []; cluster = c }
        | d ∷ rest ↦
            let h = handle features w d c in
            if h.ack && not w.ack_fails
            then record { outcome = some true; queue = rest; cluster = h.cluster }
            else record { outcome = none; queue = d ∷ rest; cluster = h.cluster }
      ]

  -- The loop of `tick`, by what is left of the budget; the answers of each turn come from a list,
  -- which a tick that outlives it ends.
  unfoldable pub drain : Set → ℕ → List Answers → List Delivery → Cluster → List Delivery × Cluster
  unfolding process_one
  drain features zero ws queue c = (queue, c)
  drain features (suc n) [] queue c = (queue, c)
  drain features (suc n) (w ∷ ws) queue c =
      let p = process_one features w queue c in
      let (queue', c') = drain features n ws p.queue p.cluster in
      elim p.outcome [ some true ↦ (queue', c') | _ ↦ (p.queue, p.cluster) ]

  unfoldable pub tick :
      Set → ℕ → Bool → List Answers → List Delivery → Cluster → List Delivery × Cluster
  unfolding drain
  tick features max_concurrent_builds builds_listed ws queue c =
      if builds_listed
      then drain features (budget max_concurrent_builds c) ws queue c
      else (queue, c)
