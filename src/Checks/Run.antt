-- ===== src/Checks/Run.antt =====
-- internal/checks/run.go: a run of the registered checks.
pub mod Outcomes
pub mod Settling
pub mod Trust
use mathlib.Core.Option
use orkano.Prelude.{
  ℕ, zero, suc, ◌+◌, Text, lit, is_empty, show_list, quote, List, [], ◌∷◌, ◌++◌, Option, none, some,
  Bool, true, false, is_some, if◌then◌else◌, Result, ok, err,
}
use orkano.Checks.{
  Check, CheckResult, Severity, critical, Status, Outcome, Report, Reply, reported, panicked,
}
use orkano.Prelude.Maps.{lookup, insert}
use orkano.Checks.Registry.{Registry}
use orkano.Checks.Plan.{PlanError, plan}

-- What the requirements of a check came to: the hard blockers, and the ones that do not apply.
pub record Sifted : Type 0 where
  pub hard : List Text
  pub skipped : List Text

unfoldable pub place : Option Outcome → Text → Sifted → Sifted
place (some Outcome.pass) req s = s
place (some Outcome.skip) req s = record s { skipped = req ∷ s.skipped }
place _ req s = record s { hard = req ∷ s.hard }

-- The loop over `c.Requires`; `at` reads the results map, where a missing id has the zero outcome.
unfoldable pub sift : (Text → Option Outcome) → List Text → Sifted
unfolding place
sift at [] = record { hard = []; skipped = [] }
sift at (req ∷ reqs) = place (at req) req (sift at reqs)

status_text : Status → Text
status_text Status.pass = lit "pass"
status_text Status.fail = lit "fail"
status_text Status.skip = lit "skip"
status_text (Status.other s) = s

unknown_status : Report → Text
unfolding status_text
unknown_status p =
    lit "probe returned unknown status "
    ++ quote (status_text p.status)
    ++ (if is_empty p.message then [] else lit ": " ++ p.message)

panic_text : Text → Text → Text
panic_text value stack = lit "probe panicked: " ++ value ++ lit "\n" ++ stack

abbrev pub errored : Text → CheckResult → CheckResult
errored e res = record res { outcome = Outcome.error; err = some e; message = e }

-- The switch on a report's status.
unfoldable pub judge_report : Status → Report → CheckResult → CheckResult
unfolding unknown_status
judge_report Status.pass p res = record res { outcome = Outcome.pass; message = p.message }
judge_report Status.fail p res = record res { outcome = Outcome.fail; message = p.message }
judge_report Status.skip p res = record res { outcome = Outcome.skip; message = p.message }
judge_report (Status.other s) p res = errored (unknown_status p) res

unfoldable pub judge : Reply → CheckResult → CheckResult
unfolding judge_report panic_text
judge (reported p) res = judge_report p.status p res
judge (Reply.failed e) res = errored e res
judge (panicked value stack) res = errored (panic_text value stack) res

-- The run's value is its results in the order of the walk.
module _ {W : Type 0} (ctx_err : W → Option Text) where
  -- A call of a nil probe panics; `Register` lets none in.
  abbrev call_probe : Option (W → Reply × W) → W → Reply × W
  call_probe (some f) w = f w
  call_probe none w = (panicked (lit "invalid memory address or nil pointer dereference") [], w)

  abbrev probed : Reply × W → CheckResult → CheckResult × W
  probed (reply, w) res = (judge reply res, w)

  -- A cancelled context is an error before the probe is called.
  unfoldable pub probe : Check W → CheckResult → W → CheckResult × W
  unfolding judge
  probe c res w = elim (ctx_err w) [
    | some e ↦ (errored e res, w)
    | none ↦ probed (call_probe c.probe w) res
  ]

  abbrev pub blank : Check W → CheckResult
  blank c = record {
    id = c.id;
    severity = c.severity;
    summary = c.summary;
    remediation = c.remediation;
    fixable = is_some c.fix;
    outcome = Outcome.error;
    message = [];
    err = none;
    blockers = [];
  }

  blocked_message : List Text → Text
  blocked_message hard = lit "not run: requirement(s) " ++ show_list hard ++ lit " did not pass"

  skipped_message : List Text → Text
  skipped_message skipped =
      lit "skipped: requirement(s) " ++ show_list skipped ++ lit " not applicable"

  -- The switch on what the requirements came to.
  unfoldable pub decide : Check W → List Text → List Text → W → CheckResult × W
  unfolding blocked_message skipped_message
  decide c (h ∷ hard) skipped w = (
    record (blank c) {
      outcome = Outcome.blocked;
      message = blocked_message (h ∷ hard);
      blockers = h ∷ hard;
    },
    w,
  )
  decide c [] (s ∷ skipped) w =
      (record (blank c) { outcome = Outcome.skip; message = skipped_message (s ∷ skipped) }, w)
  decide c [] [] w = probe c (blank c) w

  abbrev pub outcome_at : List (Text × CheckResult) → Text → Option Outcome
  outcome_at results req = Option.map (λ (x : CheckResult). x.outcome) (lookup req results)

  -- One round of the walk.
  unfoldable pub run_check : List (Text × CheckResult) → Check W → W → CheckResult × W
  run_check results c w =
      let s = sift (outcome_at results) c.requires in decide c s.hard s.skipped w

  -- The walk over the planned checks, with the results so far as a map and as the list to return.
  unfoldable pub run_checks :
      List (Text × CheckResult) → List CheckResult → List (Check W) → W → List CheckResult × W
  run_checks results done [] w = (done, w)
  run_checks results done (c ∷ cs) w =
      let (res, w') = run_check results c w in
      run_checks (insert c.id res results) (done ++ res ∷ []) cs w'

  abbrev pub run_plan :
      W → Result PlanError (List (Check W)) → Result PlanError (List CheckResult × W)
  run_plan w (err e) = err e
  run_plan w (ok cs) = ok (run_checks [] [] cs w)

  unfoldable pub run : Registry W → W → Option (Result PlanError (List CheckResult × W))
  run r w = Option.map (run_plan w) (plan r)

pub record Summary : Type 0 where
  pub total : ℕ
  pub passed : ℕ
  pub failed : ℕ
  pub errored : ℕ
  pub blocked : ℕ
  pub skipped : ℕ

abbrev pub no_summary : Summary
no_summary = record { total = 0; passed = 0; failed = 0; errored = 0; blocked = 0; skipped = 0 }

unfoldable pub tally : Outcome → Summary → Summary
tally Outcome.pass s = record s { total = s.total + 1; passed = s.passed + 1 }
tally Outcome.fail s = record s { total = s.total + 1; failed = s.failed + 1 }
tally Outcome.error s = record s { total = s.total + 1; errored = s.errored + 1 }
tally Outcome.blocked s = record s { total = s.total + 1; blocked = s.blocked + 1 }
tally Outcome.skip s = record s { total = s.total + 1; skipped = s.skipped + 1 }

unfoldable pub summary_from : Summary → List CheckResult → Summary
unfolding tally
summary_from s [] = s
summary_from s (r ∷ rs) = summary_from (tally r.outcome s) rs

unfoldable pub summary : List CheckResult → Summary
unfolding summary_from
summary rs = summary_from no_summary rs

abbrev pub exit_ok : ℕ
exit_ok = 0

abbrev pub exit_critical : ℕ
exit_critical = 1

abbrev pub exit_indeterminate : ℕ
exit_indeterminate = 2

abbrev pub is_critical : Severity → Bool
is_critical critical = true
is_critical _ = false

-- The loop of `ExitCode`; `rest` is what the loop goes on to.
unfoldable pub exit_code_from : ℕ → List CheckResult → ℕ
exit_code_from code [] = code
exit_code_from code (r ∷ rs) =
    let same = exit_code_from code rs in
    let worse = exit_code_from exit_indeterminate rs in
    if is_critical r.severity
    then elim r.outcome [
      | Outcome.fail ↦ exit_critical
      | Outcome.error ↦ worse
      | Outcome.blocked ↦ worse
      | _ ↦ same
    ]
    else same

unfoldable pub exit_code : List CheckResult → ℕ
unfolding exit_code_from
exit_code rs = exit_code_from exit_ok rs
