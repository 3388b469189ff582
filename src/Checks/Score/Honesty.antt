-- ===== src/Checks/Score/Honesty.antt =====
-- What the score of score.go claims: the extremes 0 and 100 are earned.
use orkano.Prelude.{ℕ, ◌+◌, ◌*◌, ◌≤◌, ◌<◌, ◌≡◌, ◌↔◌, ◌⊎◌, List, [], ◌∷◌, arith}
use orkano.Checks.{Severity, Outcome, CheckResult}
use orkano.Checks.Score.{
  Score, severity_weight, count_result, count_results, score_percent, no_score, score,
}

abbrev pub weight : CheckResult → ℕ
weight r = severity_weight r.severity

pub weight_bounds : (s : Severity) → (1 ≤ severity_weight s) × (severity_weight s ≤ 10)
weight_bounds s = ground arith

-- What the loop of `Score` adds to the figures.
pub record Tally (s t : Score) : Type 0 where
  pub lost : s.possible + t.earned ≤ t.possible + s.earned
  pub passed_least : s.earned + t.passed ≤ t.earned + s.passed
  pub passed_most : t.earned + 10 * s.passed ≤ s.earned + 10 * t.passed
  pub scored_least : s.possible + t.scored ≤ t.possible + s.scored
  pub scored_most : t.possible + 10 * s.scored ≤ s.possible + 10 * t.scored
  pub gained : s.passed ≤ t.passed
  pub grown : s.scored + t.passed ≤ t.scored + s.passed

Tally-count_result :
    (o : Outcome) (w : ℕ) (s : Score) → 1 ≤ w → w ≤ 10 → Tally s (count_result o w s)
unfolding count_result
Tally-count_result o w s l h = ground arith

pub Tally-count_results : (rs : List CheckResult) (s : Score) → Tally s (count_results rs s)
unfolding count_results
Tally-count_results [] s = omega arith
Tally-count_results (r ∷ rs) s =
    let (l, h) = weight_bounds r.severity in
    omega (
      arith,
      Tally-count_result r.outcome (weight r) s l h,
      Tally-count_results rs (count_result r.outcome (weight r) s),
    )

-- The percentage on figures that a run can give.
score_percent_extremes :
    (e p : ℕ)
    → e ≤ p
    → ((score_percent e p ≡ 100) ↔ (e ≡ p))
      × ((score_percent e p ≡ 0) ↔ ((e ≡ 0) × (0 < p)))
      × (score_percent e p ≤ 100)
unfolding score_percent
score_percent_extremes e p h =
    ((λ k. ground arith, λ k. ground arith), (λ k. ground arith, λ k. ground arith), ground arith)

-- A result that costs nothing: it passed, or it did not apply.
abbrev pub IsClean : CheckResult → Type 0
IsClean r = (r.outcome ≡ Outcome.pass) ⊎ (r.outcome ≡ Outcome.skip)

abbrev Even : Score → Score → Type 0
Even s t = t.possible + s.earned ≡ s.possible + t.earned

-- The score is at most 100, and the counts behind it are in order.
pub score_bounds :
    (rs : List CheckResult)
    → ((score rs).value ≤ 100)
      × ((score rs).earned ≤ (score rs).possible)
      × ((score rs).passed ≤ (score rs).scored)
unfolding score
score_bounds rs =
    let tally = Tally-count_results rs no_score in
    let t = count_results rs no_score in
    ((score_percent_extremes t.earned t.possible (omega arith)).2, omega arith, omega arith)
