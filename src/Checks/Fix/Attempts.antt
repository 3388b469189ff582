-- ===== src/Checks/Fix/Attempts.antt =====
-- What `RunAndFix` of internal/checks/fix.go attempts, and what it reports.
use mathlib.Core.Path.{subst}
use orkano.Prelude.{
  ◌≡◌, ◌≢◌, refl, ap, ◌∙◌, sym, Text, lit, text_eq, List, [], ◌∷◌, ◌++◌, Option, none, some, map,
  true, false, if◌then◌else◌, ok, arith, inl, inr, ◌⊎◌, Bool-cases, Option-cases, Result-cases,
  List-cases,
}
use orkano.Prelude.Maps.{lookup, insert, lookup-insert}
use orkano.Checks.{Check, CheckResult, Outcome, Repair}
use orkano.Checks.Registry.{Registry, get}
use orkano.Checks.Run.{run}
use orkano.Checks.Fix.{
  FixAttempt, is_pass, is_fail, outcomes, resolve, run_fix, fix_of, attempt_fixes, first_run,
  run_and_fix, repaired,
}

is_fail-fail : (o : Outcome) → is_fail o ≡ true → o ≡ Outcome.fail
is_fail-fail o e = ground (arith, e)

-- The outcome that a run's results last give a check.
abbrev pub last_outcome : Text → List CheckResult → Option Outcome
last_outcome x [] = none
last_outcome x (r ∷ rs) = elim (last_outcome x rs) [
  | some o ↦ some o
  | none ↦ if text_eq x r.id then some r.outcome else none
]

abbrev or_else : Option Outcome → Option Outcome → Option Outcome
or_else (some o) p = some o
or_else none p = p

or_none : (o : Option Outcome) → or_else o none ≡ o
or_none none = refl
or_none (some o) = refl

lookup-outcomes :
    (x : Text) (rs : List CheckResult) (m : List (Text × Outcome))
    → lookup x (outcomes rs m) ≡ or_else (last_outcome x rs) (lookup x m)
unfolding outcomes
lookup-outcomes x [] m = refl
lookup-outcomes x (r ∷ rs) m =
    ground (arith, lookup-outcomes x rs (insert r.id r.outcome m), lookup-insert r.id x r.outcome m)

-- The attempts of the first run, each marked by whether its check passed in the second.
abbrev pub verified : List CheckResult → List FixAttempt → List FixAttempt
verified rs [] = []
verified rs (a ∷ l) = record a { resolved = is_pass (last_outcome a.id rs) } ∷ verified rs l

resolve-verified :
    (rs : List CheckResult) (l : List FixAttempt) → map (resolve (outcomes rs [])) l ≡ verified rs l
unfolding lookup
resolve-verified rs [] = refl
resolve-verified rs (a ∷ l) =
    ground
      (arith, lookup-outcomes a.id rs [], or_none (last_outcome a.id rs), resolve-verified rs l)

module _ {W : Type 0} (ctx_err : W → Option Text) (r : Registry W) where
  -- A result that did not fail, is of no registered check, or of one without a fix.
  abbrev pub NothingToFix : CheckResult → Type 0
  NothingToFix res =
      (res.outcome ≢ Outcome.fail)
      ⊎ ((get r res.id ≡ none) ⊎ ((c : Check W) × (get r res.id ≡ some c) × (c.fix ≡ none)))

  -- The world and the error that a fix leaves.
  pub data Repairs (fix : W → Repair × W) (w : W) : Option Text → W → Type 0 where
    cancelled : (e : Text) → ctx_err w ≡ some e → Repairs fix w (some e) w
    worked : (v : W) → ctx_err w ≡ none → fix w ≡ (Repair.done, v) → Repairs fix w none v
    failed :
        (e : Text) (v : W)
        → ctx_err w ≡ none
        → fix w ≡ (Repair.failed e, v)
        → Repairs fix w (some e) v
    crashed :
        (value stack : Text) (v : W)
        → ctx_err w ≡ none
        → fix w ≡ (Repair.panicked value stack, v)
        → Repairs fix w (some (lit "fix panicked: " ++ (value ++ (lit "\n" ++ stack)))) v

  -- The fixes of a run's results, one after the other: each in the world that the one before has left.
  pub data Fixing : List CheckResult → W → List FixAttempt → W → Type 0 where
    finished : (w : W) → Fixing [] w [] w
    passed_over :
        (res : CheckResult) (rs : List CheckResult) (w : W) (l : List FixAttempt) (v : W)
        → NothingToFix res
        → Fixing rs w l v
        → Fixing (res ∷ rs) w l v
    tried :
        (res : CheckResult) (rs : List CheckResult) (w u : W) (l : List FixAttempt) (v : W)
        (c : Check W) (fix : W → Repair × W) (e : Option Text)
        → res.outcome ≡ Outcome.fail
        → get r res.id ≡ some c
        → c.fix ≡ some fix
        → Repairs fix w e u
        → Fixing rs u l v
        → Fixing (res ∷ rs) w (record { id = res.id; err = e; resolved = false } ∷ l) v

  repaired-Repairs :
      (fix : W → Repair × W) (w : W) (o : Repair × W)
      → ctx_err w ≡ none
      → fix w ≡ o
      → Repairs fix w (repaired ctx_err o).0 (repaired ctx_err o).1
  repaired-Repairs fix w (Repair.done, v) live e = worked v live e
  repaired-Repairs fix w (Repair.failed x, v) live e = failed x v live e
  repaired-Repairs fix w (Repair.panicked value stack, v) live e = crashed value stack v live e

  run_fix-Repairs :
      (fix : W → Repair × W) (w : W)
      → Repairs fix w (run_fix ctx_err fix w).0 (run_fix ctx_err fix w).1
  unfolding run_fix
  run_fix-Repairs fix w = elim (Option-cases (ctx_err w)) [
    | inr (x, e) ↦
        let goes : run_fix ctx_err fix w ≡ (some x, w) = ground (arith, e) in
        subst (λ o. Repairs fix w o.0 o.1) (sym goes) (cancelled x e)
    | inl e ↦
        let goes : run_fix ctx_err fix w ≡ repaired ctx_err (fix w) = ground (arith, e) in
        subst (λ o. Repairs fix w o.0 o.1) (sym goes) (repaired-Repairs fix w (fix w) e refl)
  ]

  fix_cases :
      (res : CheckResult)
      → ((fix_of ctx_err r res ≡ none) × NothingToFix res)
        ⊎ ((c : Check W) × (fix : W → Repair × W) × (fix_of ctx_err r res ≡ some fix)
            × (res.outcome ≡ Outcome.fail)
            × (get r res.id ≡ some c)
            × (c.fix ≡ some fix))
  fix_cases res = elim (Bool-cases (is_fail res.outcome)) [
    | inr well ↦ inl (ground (arith, well), inl (λ e. ground (arith, well, e)))
    | inl bad ↦
        let failing : res.outcome ≡ Outcome.fail = is_fail-fail res.outcome bad in
        elim (Option-cases (get r res.id)) [
          | inl absent ↦ inl (ground (arith, bad, absent), inr (inl absent))
          | inr (c, there) ↦ elim (Option-cases c.fix) [
            | inl without ↦ inl (ground (arith, bad, there, without), inr (inr (c, there, without)))
            | inr (fix, has) ↦ inr (c, fix, ground (arith, bad, there, has), failing, there, has)
          ]
        ]
  ]

  attempt_fixes-Fixing :
      (rs : List CheckResult) (w : W)
      → Fixing rs w (attempt_fixes ctx_err r rs w).0 (attempt_fixes ctx_err r rs w).1
  unfolding attempt_fixes
  attempt_fixes-Fixing [] w = finished w
  attempt_fixes-Fixing (res ∷ rs) w = elim (fix_cases res) [
    | inl (skipped, idle) ↦
        let goes : attempt_fixes ctx_err r (res ∷ rs) w ≡ attempt_fixes ctx_err r rs w =
          ground (arith, skipped) in
        subst (λ o. Fixing (res ∷ rs) w o.0 o.1) (sym goes)
          (passed_over res rs w _ _ idle (attempt_fixes-Fixing rs w))
    | inr (c, fix, found, failing, there, has) ↦
        let (e, u) = run_fix ctx_err fix w in
        let rest = attempt_fixes ctx_err r rs u in
        let goes : attempt_fixes ctx_err r (res ∷ rs) w
            ≡ (record { id = res.id; err = e; resolved = false } ∷ rest.0, rest.1) =
          ground (arith, found) in
        subst (λ o. Fixing (res ∷ rs) w o.0 o.1) (sym goes)
          (tried res rs w u rest.0 rest.1 c fix e failing there has (run_fix-Repairs fix w)
            (attempt_fixes-Fixing rs u))
  ]

  -- What is returned, with the first run and what came of it.
  pub record Reports (w : W) (rs : List CheckResult) (attempts : List FixAttempt) (w' : W)
      : Type 0 where
    pub first : List CheckResult
    pub after_first : W
    pub first_ran : run ctx_err r w ≡ some (ok (first, after_first))
    pub made : List FixAttempt
    pub after_fixes : W
    pub fixing : Fixing first after_first made after_fixes
    pub outcome :
        ((made ≡ []) × (attempts ≡ []) × (rs ≡ first) × (w' ≡ after_fixes))
        ⊎ ((made ≢ [])
            × (run ctx_err r after_fixes ≡ some (ok (rs, w')))
            × (attempts ≡ verified rs made))

  first_Reports :
      (w : W) (first : List CheckResult) (v : W) {rs : List CheckResult}
      {attempts : List FixAttempt} {w' : W}
      → run ctx_err r w ≡ some (ok (first, v))
      → first_run ctx_err r (ok (first, v)) ≡ some (ok ((rs, attempts), w'))
      → Reports w rs attempts w'
  unfolding first_run
  first_Reports w first v {rs} {attempts} {w'} ran h =
      let l = (attempt_fixes ctx_err r first v).0 in
      let u = (attempt_fixes ctx_err r first v).1 in
      record {
        first = first;
        after_first = v;
        first_ran = ran;
        made = l;
        after_fixes = u;
        fixing = attempt_fixes-Fixing first v;
        outcome = elim (List-cases l) [
          | inl nothing ↦ inl (nothing, ground arith, ground arith, ground arith)
          | inr (a, l', some_left) ↦ elim (Option-cases (run ctx_err r u)) [
            | inl n ↦ let no : ⊥ = ground arith in elim no [ ]
            | inr (o, again) ↦ elim (Result-cases o) [
              | inl (x, f) ↦ let no : ⊥ = ground arith in elim no [ ]
              | inr ((rs', u'), f) ↦
                  let runs : rs' ≡ rs = ground arith in
                  let ends : u' ≡ w' = ground arith in
                  let reported : map (resolve (outcomes rs' [])) (a ∷ l') ≡ attempts =
                    ground arith in
                  inr (
                    λ e. ground (arith, e, some_left),
                    rw (sym runs) (rw (sym ends) (again ∙ ap some f)),
                    sym reported
                        ∙ (resolve-verified rs' (a ∷ l')
                            ∙ (ap (λ x. verified rs' x) (sym some_left)
                                ∙ ap (λ x. verified x l) runs)),
                  )
            ]
          ]
        ];
      }

  -- `RunAndFix` runs the checks, and then runs the fix of every check that failed in this first run and
  -- has one, in the order of the run, each in the world that the one before has left, and runs no
  -- other fix; a cancelled context and a panic are errors of the attempt. With nothing to fix it
  -- returns the first run. Else it returns a second run, of the world that the last fix has left, and
  -- an attempt counts as resolved exactly when its check passed in that run.
  pub run_and_fix-Reports :
      (w : W) {rs : List CheckResult} {attempts : List FixAttempt} {w' : W}
      → run_and_fix ctx_err r w ≡ some (ok ((rs, attempts), w'))
      → Reports w rs attempts w'
  unfolding run_and_fix first_run
  run_and_fix-Reports w {rs} {attempts} {w'} h = elim (Option-cases (run ctx_err r w)) [
    | inl n ↦ let no : ⊥ = ground arith in elim no [ ]
    | inr (o, e) ↦ elim (Result-cases o) [
      | inl (x, f) ↦ let no : ⊥ = ground arith in elim no [ ]
      | inr ((first, v), f) ↦
          first_Reports w first v {rs = rs} {attempts = attempts} {w' = w'} (e ∙ ap some f)
            (ground arith)
    ]
  ]
