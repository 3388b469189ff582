-- ===== src/Checks/Examples.antt =====
-- A registry of three checks (internal/checks), its plan and its run, and the theorems on them.
use orkano.Prelude.{
  ℕ, ◌+◌, ◌<◌, ◌≤◌, ◌≡◌, refl, Text, lit, List, [], ◌∷◌, Option, none, some, true, false, Result,
  ok, err, All, arith, if◌then◌else◌, text_eq, text_eq_iff, is_some,
}
use orkano.Prelude.Counts.{count}
use orkano.Checks.{Check, CheckResult, critical, Outcome, Status, Reply, reported}
use orkano.Checks.Score.{score}
use orkano.Checks.Score.Honesty.{score_bounds}
use orkano.Checks.Score.Monotone.{Cures, cure, keep, score_mono}
use orkano.Prelude.Maps.{lookup, insert}
use orkano.Checks.Registry.{Registry, new, get, register, dedupe}
use orkano.Checks.Registry.Soundness.{IsSound, new-IsSound, register-IsSound, stored}
use orkano.Checks.Plan.{PlanError, cycle, plan, reqs, index_of, sort_by, walk, link, checks_at}
use orkano.Checks.Plan.Walking.{Ordered}
use orkano.Checks.Plan.Topology.{check_ids}
use orkano.Checks.Plan.Verdict.{plan_total, plan_order, plan_faults, plan_acyclic, Fault}
use orkano.Checks.Run.{run, blank, run_check, decide, probe, run_checks, sift}
use orkano.Checks.Run.Outcomes.{outcome_of}
use orkano.Checks.Run.Trust.{Settles, run-Settles, direct, pass-Needs_passes}

-- The world counts the probes that were called.
abbrev answer : Status → ℕ → Reply × ℕ
answer s n = (reported (record { status = s; message = [] }), n + 1)

abbrev check : Text → List Text → Status → Check ℕ
check id requires s = record {
  id = id;
  severity = critical;
  summary = [];
  remediation = [];
  requires = requires;
  probe = some (answer s);
  fix = none;
}

abbrev api : Check ℕ
api = check (lit "k8s.api") (lit "k8s.version" ∷ []) Status.pass

abbrev version : Check ℕ
version = check (lit "k8s.version") [] Status.pass

abbrev nodes : Check ℕ
nodes = check (lit "k8s.nodes") (lit "k8s.api" ∷ lit "k8s.api" ∷ []) Status.fail

abbrev with_api : Registry ℕ
with_api = record { by_id = (api.id, api) ∷ []; order = api.id ∷ [] }

abbrev with_version : Registry ℕ
with_version = record {
  by_id = (api.id, api) ∷ (version.id, version) ∷ [];
  order = api.id ∷ version.id ∷ [];
}

abbrev all_three : Registry ℕ
all_three = record {
  by_id = (api.id, api) ∷ (version.id, version) ∷ (nodes.id, stored nodes) ∷ [];
  order = api.id ∷ version.id ∷ nodes.id ∷ [];
}

register-nodes : register with_version nodes ≡ ok all_three
unfolding register lookup insert dedupe text_eq
register-nodes = refl

register-api : register new api ≡ ok with_api
unfolding register lookup insert dedupe text_eq
register-api = refl

register-version : register with_api version ≡ ok with_version
unfolding register lookup insert dedupe text_eq
register-version = refl

all_three-IsSound : IsSound all_three
all_three-IsSound =
    register-IsSound with_version nodes
      (register-IsSound with_api version (register-IsSound new api new-IsSound register-api)
        register-version)
      register-nodes

-- The plan puts the version check, which is registered second, before the two that need it.
plan-all_three : plan all_three ≡ some (ok (version ∷ api ∷ stored nodes ∷ []))
unfolding plan link sort_by walk index_of checks_at lookup dedupe text_eq
plan-all_three = refl

abbrev alive : ℕ → Option Text
alive _ = none

abbrev result : Check ℕ → Outcome → CheckResult
result c o = record (blank alive c) { outcome = o }

abbrev results : List CheckResult
results =
    result version Outcome.pass ∷ result api Outcome.pass ∷ result (stored nodes) Outcome.fail ∷ []

run-all_three : run alive all_three 0 ≡ some (ok (results, 3))
unfolding run run_checks plan link sort_by walk index_of checks_at lookup dedupe text_eq sift insert
    run_check decide probe
run-all_three = refl

plan_total_example : (p : Result PlanError (List (Check ℕ))) × (plan all_three ≡ some p)
plan_total_example = plan_total all_three all_three-IsSound

plan_order_example :
    ((x : Text) → count x (check_ids (version ∷ api ∷ stored nodes ∷ [])) ≡ count x all_three.order)
    × Ordered (reqs all_three) [] (check_ids (version ∷ api ∷ stored nodes ∷ []))
    × All (λ (c : Check ℕ). get all_three c.id ≡ some c) (version ∷ api ∷ stored nodes ∷ [])
plan_order_example = plan_order all_three all_three-IsSound plan-all_three

run-Settles_example : Settles alive all_three all_three-IsSound 0 results
run-Settles_example = run-Settles alive all_three all_three-IsSound 0 run-all_three

pass-Needs_passes_example : outcome_of results version.id ≡ some Outcome.pass
unfolding text_eq
pass-Needs_passes_example =
    pass-Needs_passes alive all_three all_three-IsSound 0 run-all_three {x = api.id} refl
      (direct version.id (unfold lookup text_eq in omega arith))

-- Two checks that require each other.
abbrev egg : Check ℕ
egg = check (lit "egg") (lit "hen" ∷ []) Status.pass

abbrev hen : Check ℕ
hen = check (lit "hen") (lit "egg" ∷ []) Status.pass

abbrev with_egg : Registry ℕ
with_egg = record { by_id = (egg.id, egg) ∷ []; order = egg.id ∷ [] }

abbrev looped : Registry ℕ
looped = record { by_id = (egg.id, egg) ∷ (hen.id, hen) ∷ []; order = egg.id ∷ hen.id ∷ [] }

register-egg : register new egg ≡ ok with_egg
unfolding register lookup insert dedupe text_eq
register-egg = refl

register-hen : register with_egg hen ≡ ok looped
unfolding register lookup insert dedupe text_eq
register-hen = refl

looped-IsSound : IsSound looped
looped-IsSound =
    register-IsSound with_egg hen (register-IsSound new egg new-IsSound register-egg) register-hen

plan-looped : plan looped ≡ some (err (cycle (egg.id ∷ hen.id ∷ [])))
unfolding plan link sort_by walk index_of checks_at lookup dedupe text_eq
plan-looped = refl

plan_faults_example : Fault looped (cycle (egg.id ∷ hen.id ∷ []))
plan_faults_example = plan_faults looped looped-IsSound plan-looped

abbrev rank : Text → ℕ
rank x = if text_eq x version.id then 0 else 1

version_ne_api : text_eq api.id version.id ≡ false
unfolding text_eq
version_ne_api = refl

rank_falls : (q x : Text) → 0 < count q (reqs with_version x) → rank q < rank x
unfolding lookup
rank_falls q x h = ground (arith, text_eq_iff x api.id, text_eq_iff x version.id, version_ne_api)

requirement_there :
    (q x : Text) → 0 < count q (reqs with_version x) → is_some (get with_version q) ≡ true
unfolding lookup
requirement_there q x h =
    ground (arith, text_eq_iff x api.id, text_eq_iff x version.id, version_ne_api)

with_version-IsSound : IsSound with_version
with_version-IsSound = register-IsSound with_api version register-IsSound_api register-version
  where
    register-IsSound_api : IsSound with_api
    register-IsSound_api = register-IsSound new api new-IsSound register-api

plan_acyclic_example : (cs : List (Check ℕ)) × (plan with_version ≡ some (ok cs))
plan_acyclic_example =
    plan_acyclic with_version with_version-IsSound rank rank_falls requirement_there

register-IsSound_example : IsSound with_api
register-IsSound_example = register-IsSound new api new-IsSound register-api

abbrev mixed : List CheckResult
mixed = result version Outcome.pass ∷ result api Outcome.skip ∷ result nodes Outcome.error ∷ []

score_bounds_example :
    ((score mixed).value ≤ 100)
    × ((score mixed).earned ≤ (score mixed).possible)
    × ((score mixed).passed ≤ (score mixed).scored)
score_bounds_example = score_bounds mixed

score_mono_example :
    (score results).value
    ≤ (score (
        result version Outcome.pass
        ∷ result api Outcome.pass
        ∷ result (stored nodes) Outcome.pass
        ∷ [])).value
score_mono_example = score_mono (
    keep (result version Outcome.pass) (
      keep (result api Outcome.pass) (
        cure (result (stored nodes) Outcome.fail) (result (stored nodes) Outcome.pass) (λ e. cc)
          refl refl Cures.none)))
