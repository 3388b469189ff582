-- ===== src/Checks/Score.antt =====
-- internal/checks/score.go: the hardening score of a run.
pub mod Honesty
pub mod Monotone
use orkano.Prelude.{ℕ, ◌+◌, ◌*◌, ◌/◌, List, [], ◌∷◌, ◌==◌, leb, if◌then◌else◌}
use orkano.Checks.{Severity, critical, warning, Outcome, CheckResult}

pub record Score : Type 0 where
  pub value : ℕ
  pub earned : ℕ
  pub possible : ℕ
  pub passed : ℕ
  pub scored : ℕ

abbrev pub severity_weight : Severity → ℕ
severity_weight critical = 10
severity_weight warning = 3
severity_weight _ = 1

-- One round of the loop of `Score`, on a result's outcome and weight.
unfoldable pub count_result : Outcome → ℕ → Score → Score
count_result Outcome.skip w s = s
count_result Outcome.pass w s = record s {
  possible = s.possible + w;
  scored = s.scored + 1;
  earned = s.earned + w;
  passed = s.passed + 1;
}
count_result _ w s = record s { possible = s.possible + w; scored = s.scored + 1 }

-- The loop of `Score`.
unfoldable pub count_results : List CheckResult → Score → Score
unfolding count_result
count_results [] s = s
count_results (r ∷ rs) s = count_results rs (count_result r.outcome (severity_weight r.severity) s)

-- The integer division is Go's on non-negative operands, and `possible` is not 0 where it is made.
unfoldable pub score_percent : ℕ → ℕ → ℕ
score_percent earned possible =
    if possible == 0
    then 100
    else if earned == possible
    then 100
    else if earned == 0
    then 0
    else let p = (earned * 100 + possible / 2) / possible in
      if leb 100 p then 99 else if leb p 0 then 1 else p

abbrev pub no_score : Score
no_score = record { value = 0; earned = 0; possible = 0; passed = 0; scored = 0 }

unfoldable pub score : List CheckResult → Score
unfolding count_results score_percent
score rs =
    let s = count_results rs no_score in record s { value = score_percent s.earned s.possible }
