-- ===== src/Checks/Run/Trust.antt =====
-- What a finished run (internal/checks/run.go) may be trusted for: every registered check has one
-- result, which follows from the results of its requirements.
use mathlib.Core.Path.{subst}
use orkano.Prelude.{
  ◌<◌, ◌≡◌, refl, ap, ◌∙◌, Text, text_eq, text_eq_iff, List, [], ◌∷◌, Option, some, ok, arith,
  Option-cases, Bool-cases, Result-cases, inl, inr, All, List-cases, select,
}
use orkano.Prelude.Counts.{count}
use orkano.Checks.{Check, CheckResult, Outcome}
use orkano.Prelude.Maps.{lookup}
use orkano.Checks.Registry.{Registry, get}
use orkano.Checks.Registry.Soundness.{IsSound}
use orkano.Checks.Plan.{plan, reqs}
use orkano.Checks.Plan.Topology.{check_ids}
use orkano.Checks.Plan.Verdict.{plan_order}
use orkano.Checks.Run.{run_checks, run}
use orkano.Checks.Run.Outcomes.{
  result_of, outcome_of, result_ids, Settled, blocks, skips, sorted_out, sift-sorted_out,
}
use orkano.Checks.Run.Settling.{After, run_checks-Finished}

at_id :
    {W : Type 0} (P : Check W → Type 0) (x : Text) (cs : List (Check W))
    → All P cs
    → 0 < count x (check_ids cs)
    → (d : Check W) × (d.id ≡ x) × P d
at_id P x [] h k = elim k [ ]
at_id P x (c ∷ cs) h k = elim (Bool-cases (text_eq x c.id)) [
  | inl e ↦ (c, ground (arith, text_eq_iff x c.id), h.0)
  | inr e ↦ at_id P x cs h.1 (ground arith)
]

given_all :
    {W : Type 0} (r : Registry W) (cs : List (Check W))
    → All (λ (c : Check W). get r c.id ≡ some c) cs
    → All (λ (c : Check W). reqs r c.id ≡ c.requires) cs
given_all r [] h = tt
given_all r (c ∷ cs) h = (rw h.0, given_all r cs h.1)

both :
    {W : Type 0} (P Q : Check W → Type 0) (cs : List (Check W))
    → All P cs
    → All Q cs
    → All (λ (c : Check W). P c × Q c) cs
both P Q [] h k = tt
both P Q (c ∷ cs) h k = ((h.0, k.0), both P Q cs h.1 k.1)

all_passed :
    (at : Text → Option Outcome) (q : Text) (qs : List Text)
    → select (blocks at) qs ≡ []
    → select (skips at) qs ≡ []
    → 0 < count q qs
    → at q ≡ some Outcome.pass
all_passed at q [] h k l = elim l [ ]
all_passed at q (p ∷ qs) h k l = ground (arith, all_passed at q qs, text_eq_iff q p)

-- `x` is reached from a check by following requirements.
pub data Needs {W : Type 0} (r : Registry W) (x : Text) : Text → Type 0 where
  direct : (q : Text) → 0 < count q (reqs r x) → Needs r x q
  further : {q : Text} (p : Text) → Needs r x q → 0 < count p (reqs r q) → Needs r x p

module _ {W : Type 0} (ctx_err : W → Option Text) (r : Registry W) (sound : IsSound r) (w : W) where
  -- One result for each registered check, which its requirements' results settle.
  abbrev pub Settles : List CheckResult → Type 0
  Settles rs =
      ((x : Text) → count x (result_ids rs) ≡ count x r.order)
      × ((x : Text) (c : Check W)
          → get r x ≡ some c
          → (y : CheckResult) × (result_of rs x ≡ some y)
            × Settled (sorted_out (outcome_of rs) c.requires) c y)

  walk-Settles :
      {cs : List (Check W)} → plan r ≡ some (ok cs) → Settles (run_checks ctx_err [] [] cs w).0
  walk-Settles {cs} h =
      let (counts, ordered, given) = plan_order r sound h in
      let done = run_checks-Finished ctx_err (reqs r) cs [] [] [] w (record {
        agree = λ q. unfold lookup in refl;
        ids = refl;
        once = λ x. ground (arith, counts x, sound.listed x);
        ordered = ordered;
        given = given_all r cs given;
      }) in
      (
        λ x. ap (count x) done.ids ∙ counts x,
        λ x c there.
            let (d, same, rest) =
              at_id
                (λ d.
                  After ctx_err (reqs r) (run_checks ctx_err [] [] cs w).0 d
                  × (get r d.id ≡ some d))
                x cs (both _ _ cs done.all given)
                (ground (arith, counts x, sound.listed x, there)) in
            let (y, found, settled) = rest.0 in
            let final = (run_checks ctx_err [] [] cs w).0 in
            let eq : d ≡ c = ground (arith, rest.1, there, same) in
            (
              y,
              subst (λ z. result_of final z ≡ some y) same found,
              subst (λ (b : Check W). Settled (sorted_out (outcome_of final) b.requires) b y) eq
                  (subst (λ s. Settled s d y) (sift-sorted_out (outcome_of final) d.requires)
                    settled),
            ),
      )

  -- A run that returns has one result for each registered check and none besides, and every result
  -- follows from the finished results of its requirements: where some of them failed, had an error,
  -- were blocked or have no result, it is blocked, by exactly those in their order; else, where some
  -- were skipped, it is skipped; and else, where all passed, it is not blocked.
  pub run-Settles :
      {rs : List CheckResult} {w' : W} → run ctx_err r w ≡ some (ok (rs, w')) → Settles rs
  unfolding run
  run-Settles {rs} {w'} h = elim (Option-cases (plan r)) [
    | inl e ↦ absurd (ground (arith, e))
    | inr (p, e) ↦ elim (Result-cases p) [
      | inl (x, f) ↦ absurd (ground (arith, e, f))
      | inr (cs, f) ↦
          let same : (run_checks ctx_err [] [] cs w).0 ≡ rs = ground (arith, e, f) in
          subst Settles same (walk-Settles (e ∙ ap some f))
    ]
  ]

  pass_step :
      (rs : List CheckResult)
      → Settles rs
      → (x q : Text) → outcome_of rs x ≡ some Outcome.pass
      → 0 < count q (reqs r x)
      → outcome_of rs q ≡ some Outcome.pass
  pass_step rs (_, settles) x q p n = elim (Option-cases (get r x)) [
    | inl e ↦ absurd (ground (arith, e))
    | inr (c, e) ↦
        let (y, found, settled) = settles x c e in
        let s = sorted_out (outcome_of rs) c.requires in
        let passed : y.outcome ≡ Outcome.pass = ground (arith, found) in
        let free : s.hard ≡ [] = elim (List-cases s.hard) [
          | inl none_hard ↦ none_hard
          | inr (a, l, some_hard) ↦ absurd (ground (arith, settled.blocked, some_hard, passed))
        ] in
        let clear : s.skipped ≡ [] = elim (List-cases s.skipped) [
          | inl none_skipped ↦ none_skipped
          | inr (a, l, some_skipped) ↦
              absurd (ground (arith, settled.skipped free, some_skipped, passed))
        ] in
        all_passed (outcome_of rs) q c.requires free clear (ground (arith, e))
  ]

  -- A pass rests on passes: a check that a passed check needs, however far, passed in the same run.
  pub pass-Needs_passes :
      {rs : List CheckResult} {w' : W}
      → run ctx_err r w ≡ some (ok (rs, w'))
      → {x q : Text} → outcome_of rs x ≡ some Outcome.pass
      → Needs r x q
      → outcome_of rs q ≡ some Outcome.pass
  pass-Needs_passes {rs} h p (direct q n) = pass_step rs (run-Settles h) _ q p n
  pass-Needs_passes {rs} h p (further q n l) =
      pass_step rs (run-Settles h) _ q (pass-Needs_passes h p n) l
