-- ===== src/Checks/Score/Monotone.antt =====
-- How the score of score.go answers to a fix: curing a failed check never lowers it.
use orkano.Prelude.{ℕ, ◌+◌, ◌*◌, ◌/◌, ◌≤◌, ◌≡◌, ◌≢◌, List, [], ◌∷◌, arith}
use orkano.Checks.{Outcome, CheckResult}
use orkano.Checks.Score.{Score, count_result, count_results, score_percent, no_score, score}
use orkano.Checks.Score.Honesty.{weight, Tally-count_results}

-- The second list is the first with some counted results turned into passes.
pub data Cures : List CheckResult → List CheckResult → Type 0 where
  none : Cures [] []
  keep : (r : CheckResult) {rs ss : List CheckResult} → Cures rs ss → Cures (r ∷ rs) (r ∷ ss)
  cure :
      (r s : CheckResult) {rs ss : List CheckResult}
      → r.outcome ≢ Outcome.skip
      → s.severity ≡ r.severity
      → s.outcome ≡ Outcome.pass
      → Cures rs ss
      → Cures (r ∷ rs) (s ∷ ss)

div_mono : (a b p : ℕ) → a ≤ b → a / p ≤ b / p
div_mono a b p h = grind arith

score_percent_mono : (d e p : ℕ) → d ≤ e → e ≤ p → score_percent d p ≤ score_percent e p
unfolding score_percent
score_percent_mono d e p h k =
    ground (arith, div_mono (d * 100 + p / 2) (e * 100 + p / 2) p (omega arith))

record Behind (s t : Score) : Type 0 where
  same : s.possible ≡ t.possible
  less : s.earned ≤ t.earned

Behind-keep :
    (r : CheckResult) (s t : Score)
    → Behind s t
    → Behind (count_result r.outcome (weight r) s) (count_result r.outcome (weight r) t)
unfolding count_result
Behind-keep r s t h = ground arith

Behind-cure :
    (r q : CheckResult) (s t : Score)
    → r.outcome ≢ Outcome.skip
    → q.severity ≡ r.severity
    → q.outcome ≡ Outcome.pass
    → Behind s t
    → Behind (count_result r.outcome (weight r) s) (count_result q.outcome (weight q) t)
unfolding count_result
Behind-cure r q s t n e p h = ground arith

Behind-count_results :
    {rs ss : List CheckResult} (c : Cures rs ss) (s t : Score)
    → Behind s t
    → Behind (count_results rs s) (count_results ss t)
unfolding count_results
Behind-count_results none s t h = h
Behind-count_results (keep r c) s t h = Behind-count_results c _ _ (Behind-keep r s t h)
Behind-count_results (cure r q n e p c) s t h =
    Behind-count_results c _ _ (Behind-cure r q s t n e p h)

-- Turning failed, errored or blocked checks into passes never lowers the score.
pub score_mono : {rs ss : List CheckResult} → Cures rs ss → (score rs).value ≤ (score ss).value
unfolding score
score_mono {rs} {ss} c =
    let b = Behind-count_results c no_score no_score (omega arith) in
    let s = count_results rs no_score in
    let t = count_results ss no_score in
    let tally = Tally-count_results ss no_score in
    let same : s.possible ≡ t.possible = b.same in
    rw same (score_percent_mono s.earned t.earned t.possible b.less (omega arith))
