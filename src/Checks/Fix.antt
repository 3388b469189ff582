-- ===== src/Checks/Fix.antt =====
-- internal/checks/fix.go: a run, the fixes of what failed in it, and a second run.
pub mod Attempts
mod Examples
use mathlib.Core.Option
use orkano.Prelude.{
  ℕ, Text, lit, List, [], ◌∷◌, ◌++◌, Option, none, some, Bool, true, false, is_some, ◌&&◌,
  if◌then◌else◌, map, Result, ok, err,
}
use orkano.Prelude.Maps.{lookup, insert}
use orkano.Checks.{Check, CheckResult, Outcome, Repair}
use orkano.Checks.Registry.{Registry, get}
use orkano.Checks.Plan.{PlanError}
use orkano.Checks.Run.{run}

pub record FixAttempt : Type 0 where
  pub id : Text
  pub err : Option Text
  pub resolved : Bool

abbrev pub is_fail : Outcome → Bool
is_fail Outcome.fail = true
is_fail _ = false

abbrev pub is_pass : Option Outcome → Bool
is_pass (some Outcome.pass) = true
is_pass _ = false

-- The outcomes of a run by id.
unfoldable pub outcomes : List CheckResult → List (Text × Outcome) → List (Text × Outcome)
outcomes [] m = m
outcomes (r ∷ rs) m = outcomes rs (insert r.id r.outcome m)

abbrev pub resolve : List (Text × Outcome) → FixAttempt → FixAttempt
resolve m a = record a { resolved = is_pass (lookup a.id m) }

module _ {W : Type 0} (ctx_err : W → Option Text) where
  abbrev pub repaired : Repair × W → Option Text × W
  repaired (Repair.done, w) = (none, w)
  repaired (Repair.failed e, w) = (some e, w)
  repaired (Repair.panicked value stack, w) =
      (some (lit "fix panicked: " ++ (value ++ (lit "\n" ++ stack))), w)

  -- A cancelled context is an error before the fix is called.
  unfoldable pub run_fix : (W → Repair × W) → W → Option Text × W
  run_fix fix w = elim (ctx_err w) [ some e ↦ (some e, w) | none ↦ repaired (fix w) ]

  -- The fix of a result that failed, where its check has one.
  abbrev pub fix_of : Registry W → CheckResult → Option (W → Repair × W)
  fix_of r res =
      if is_fail res.outcome then elim (get r res.id) [ some c ↦ c.fix | none ↦ none ] else none

  -- The loop over the first run.
  unfoldable pub attempt_fixes : Registry W → List CheckResult → W → List FixAttempt × W
  unfolding run_fix
  attempt_fixes r [] w = ([], w)
  attempt_fixes r (res ∷ rs) w = elim (fix_of r res) [
    | none ↦ attempt_fixes r rs w
    | some fix ↦
        let (e, w') = run_fix fix w in
        let (attempts, w'') = attempt_fixes r rs w' in
        (record { id = res.id; err = e; resolved = false } ∷ attempts, w'')
  ]

  -- What is returned: the run and the attempts, or an error and the attempts.
  abbrev pub FixOutcome : Type 0
  FixOutcome = Result (PlanError × List FixAttempt) ((List CheckResult × List FixAttempt) × W)

  abbrev pub second_run : List FixAttempt → Result PlanError (List CheckResult × W) → FixOutcome
  second_run attempts (err e) = err (e, attempts)
  second_run attempts (ok (rs, w)) = ok ((rs, map (resolve (outcomes rs [])) attempts), w)

  abbrev pub first_run : Registry W → Result PlanError (List CheckResult × W) → Option FixOutcome
  unfolding attempt_fixes
  first_run r (err e) = some (err (e, []))
  first_run r (ok (rs, w)) =
      let (attempts, w') = attempt_fixes r rs w in
      elim attempts [
        | [] ↦ some (ok ((rs, []), w'))
        | a ∷ as' ↦ Option.map (second_run (a ∷ as')) (run ctx_err r w')
      ]

  unfoldable pub run_and_fix : Registry W → W → Option FixOutcome
  unfolding first_run
  run_and_fix r w = elim (run ctx_err r w) [ none ↦ none | some o ↦ first_run r o ]
