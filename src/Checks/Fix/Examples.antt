-- ===== src/Checks/Fix/Examples.antt =====
-- A check of internal/checks that fails until its fix has run, under `RunAndFix` of fix.go.
use orkano.Prelude.{
  ◌≡◌, refl, Text, lit, text_eq, [], ◌∷◌, Option, none, some, Bool, true, false, if◌then◌else◌, ok,
  err,
}
use orkano.Prelude.Maps.{lookup, insert}
use orkano.Checks.{Severity, Status, Outcome, reported, Repair, Check, CheckResult}
use orkano.Checks.Registry.{Registry}
use orkano.Checks.Plan.{plan, link, sort_by, walk, index_of, checks_at, cycle}
use orkano.Checks.Run.{run, run_checks, run_check, decide, probe, blank, sift}
use orkano.Checks.Fix.{FixAttempt, run_and_fix, outcomes}
use orkano.Checks.Fix.Attempts.{Reports, run_and_fix-Reports}

-- The world is whether the disk has room.
abbrev disk : Check Bool
disk = record {
  id = lit "disk";
  severity = Severity.warning;
  summary = [];
  remediation = [];
  requires = [];
  probe = some (λ room. (
    reported (record { status = if room then Status.pass else Status.fail; message = [] }),
    room,
  ));
  fix = some (λ room. (Repair.done, true));
}

abbrev registry : Registry Bool
registry = record { by_id = (disk.id, disk) ∷ []; order = disk.id ∷ [] }

abbrev alive : Bool → Option Text
alive room = none

abbrev passed : CheckResult
passed = record (blank alive disk) { outcome = Outcome.pass }

abbrev attempt : FixAttempt
attempt = record { id = lit "disk"; err = none; resolved = true }

fixed_disk : run_and_fix alive registry false ≡ some (ok ((passed ∷ [], attempt ∷ []), true))
unfolding run_and_fix run run_checks plan link sort_by walk index_of checks_at lookup insert text_eq
    sift run_check decide probe outcomes
fixed_disk = refl

run_and_fix-Reports_example : Reports alive registry false (passed ∷ []) (attempt ∷ []) true
run_and_fix-Reports_example = run_and_fix-Reports alive registry false fixed_disk

-- A check that needs itself.
abbrev knot : Registry Bool
knot = record {
  by_id = (disk.id, record disk { requires = disk.id ∷ [] }) ∷ [];
  order = disk.id ∷ [];
}

knot_stuck : run_and_fix alive knot false ≡ some (err (cycle (disk.id ∷ []), []))
unfolding run_and_fix run plan link sort_by walk index_of checks_at lookup text_eq
knot_stuck = refl
