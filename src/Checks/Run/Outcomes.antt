-- ===== src/Checks/Run/Outcomes.antt =====
-- The results of a run (internal/checks/run.go) against the requirements of its checks.
use mathlib.Core.Option
use orkano.Prelude.{
  ◌<◌, ◌≡◌, ◌≢◌, refl, ap, ◌∙◌, Bool, true, false, select, Text, text_eq, text_eq_iff, text_eq_refl,
  List, [], ◌∷◌, ◌++◌, Option, none, some, is_some, if◌then◌else◌, arith, map, ltb,
}
use orkano.Prelude.Counts.{count}
use orkano.Checks.{Check, CheckResult, Outcome}
use orkano.Checks.Plan.Walking.{missing}
use orkano.Checks.Run.{Sifted, sift, place, probe, decide, outcome_at, run_check}

-- The result of a check in a run's results, and its outcome.
abbrev pub result_of : List CheckResult → Text → Option CheckResult
result_of [] id = none
result_of (r ∷ rs) id = if text_eq id r.id then some r else result_of rs id

abbrev pub outcome_of : List CheckResult → Text → Option Outcome
outcome_of rs id = Option.map (λ (x : CheckResult). x.outcome) (result_of rs id)

abbrev pub result_ids : List CheckResult → List Text
result_ids = map (λ r. r.id)

pub sift-cong :
    (f g : Text → Option Outcome) (qs : List Text)
    → ((q : Text) → 0 < count q qs → f q ≡ g q)
    → sift f qs ≡ sift g qs
unfolding sift
sift-cong f g [] h = refl
sift-cong f g (q ∷ qs) h =
    cc (h q (ground (arith, text_eq_refl q)), sift-cong f g qs (λ p k. h p (omega (arith, k))))

pub met : (q : Text) (qs out : List Text) → 0 < count q qs → missing qs out ≡ 0 → 0 < count q out
met q [] out h m = elim h [ ]
met q (p ∷ qs) out h m = ground (arith, met q qs out, text_eq_iff q p)

pub result_of-snoc :
    (q : Text) (rs : List CheckResult) (r : CheckResult)
    → result_of (rs ++ r ∷ []) q ≡ (
        if is_some (result_of rs q)
        then result_of rs q
        else if text_eq q r.id
        then some r
        else none)
result_of-snoc q [] r = refl
result_of-snoc q (x ∷ rs) r = ground (arith, result_of-snoc q rs r)

pub is_some-result_of :
    (q : Text) (rs : List CheckResult) → is_some (result_of rs q) ≡ ltb 0 (count q (result_ids rs))
is_some-result_of q [] = refl
is_some-result_of q (r ∷ rs) = ground (arith, is_some-result_of q rs)

-- What a requirement without an outcome, or with one, does to the check that needs it.
abbrev pub blocks : (Text → Option Outcome) → Text → Bool
blocks at q = elim (at q) [
  | none ↦ true
  | some o ↦ elim o [
    | Outcome.pass ↦ false
    | Outcome.skip ↦ false
    | Outcome.fail ↦ true
    | Outcome.error ↦ true
    | Outcome.blocked ↦ true
  ]
]

abbrev pub skips : (Text → Option Outcome) → Text → Bool
skips at q = elim (at q) [ none ↦ false | some o ↦ elim o [ Outcome.skip ↦ true | _ ↦ false ] ]

-- The requirements sorted out by what they came to, said without the code's loop.
abbrev pub sorted_out : (Text → Option Outcome) → List Text → Sifted
sorted_out at qs = record { hard = select (blocks at) qs; skipped = select (skips at) qs }

place-sorted_out :
    (at : Text → Option Outcome) (q : Text) (qs : List Text) (o : Option Outcome)
    → at q ≡ o
    → place o q (sorted_out at qs) ≡ sorted_out at (q ∷ qs)
unfolding place
place-sorted_out at q qs none e = ground (arith, e)
place-sorted_out at q qs (some Outcome.pass) e = ground (arith, e)
place-sorted_out at q qs (some Outcome.skip) e = ground (arith, e)
place-sorted_out at q qs (some Outcome.fail) e = ground (arith, e)
place-sorted_out at q qs (some Outcome.error) e = ground (arith, e)
place-sorted_out at q qs (some Outcome.blocked) e = ground (arith, e)

pub sift-sorted_out : (at : Text → Option Outcome) (qs : List Text) → sift at qs ≡ sorted_out at qs
unfolding sift
sift-sorted_out at [] = refl
sift-sorted_out at (q ∷ qs) =
    ap (place (at q) q) (sift-sorted_out at qs) ∙ place-sorted_out at q qs (at q) refl

-- A result that follows from what its check's requirements came to.
pub record Settled {W : Type 0} (s : Sifted) (c : Check W) (r : CheckResult) : Type 0 where
  pub same_id : r.id ≡ c.id
  pub same_severity : r.severity ≡ c.severity
  pub blocked : s.hard ≢ [] → (r.outcome ≡ Outcome.blocked) × (r.blockers ≡ s.hard)
  pub skipped : s.hard ≡ [] → s.skipped ≢ [] → r.outcome ≡ Outcome.skip
  pub probed : s.hard ≡ [] → s.skipped ≡ [] → r.outcome ≢ Outcome.blocked

module _ {W : Type 0} (ctx_err : W → Option Text) where
  decide-Settled :
      (c : Check W) (hard skipped : List Text) (w : W)
      → Settled (record { hard = hard; skipped = skipped }) c (decide ctx_err c hard skipped w).0
  unfolding decide probe
  decide-Settled c (h ∷ hard) skipped w = ground arith
  decide-Settled c [] (s ∷ skipped) w = ground arith
  decide-Settled c [] [] w = ground (arith)

  pub run_check-Settled :
      (results : List (Text × CheckResult)) (c : Check W) (w : W)
      → Settled (sift (outcome_at ctx_err results) c.requires) c (run_check ctx_err results c w).0
  unfolding run_check
  run_check-Settled results c w =
      let s = sift (outcome_at ctx_err results) c.requires in decide-Settled c s.hard s.skipped w
