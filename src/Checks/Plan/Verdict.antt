-- ===== src/Checks/Plan/Verdict.antt =====
-- What `Plan` of internal/checks/registry.go answers, on each of its returns.
use orkano.Prelude.{
  ℕ, zero, suc, ◌<◌, ◌≡◌, ◌≢◌, Text, List, [], none, some, is_some, true, Result, ok, err, arith,
  inl, inr, Result-cases, All, List-cases, text_eq_refl,
}
use orkano.Prelude.Counts.{count}
use orkano.Checks.{Check}
use orkano.Checks.Registry.{Registry, get}
use orkano.Checks.Registry.Soundness.{IsSound}
use orkano.Checks.Plan.{
  Edges, PlanError, cycle, missing_requirement, link, no_edges, known, reqs, finish, plan,
}
use orkano.Checks.Plan.Linking.{Unregistered, unregistered, link_error}
use orkano.Checks.Plan.Walking.{Ordered}
use orkano.Checks.Plan.Topology.{check_ids, plan_of_linked, finish-Ordered, finish_stuck}

module _ {W : Type 0} (r : Registry W) where
  plan_of_error :
      {x : PlanError} → link (known r) (reqs r) r.order no_edges ≡ err x → plan r ≡ some (err x)
  unfolding plan
  plan_of_error e = rw (e, plan)

  -- What an error of `Plan` means.
  abbrev pub Fault : PlanError → Type 0
  Fault (missing_requirement id req) =
      (0 < count id r.order) × (0 < count req (reqs r id)) × (get r req ≡ none)
  Fault (cycle stuck) =
      (stuck ≢ [])
      × ((x : Text)
          → 0 < count x stuck
          → (q : Text) × (0 < count q (reqs r x)) × (0 < count q stuck))

  Fault-of_Unregistered : (x : PlanError) → Unregistered (known r) (reqs r) r.order x → Fault x
  Fault-of_Unregistered x (unregistered id req e there wanted new) =
      rw e (there, wanted, ground (arith, new))

  module _ (sound : IsSound r) where
    finish-Fault :
        (e : Edges) (linked : link (known r) (reqs r) r.order no_edges ≡ ok e)
        → (x : PlanError) → plan r ≡ some (err x)
        → Fault x
    finish-Fault e linked (missing_requirement id req) h =
        let (v, runs, _, _) = plan_of_linked r sound linked in absurd (ground (arith, runs))
    finish-Fault e linked (cycle stuck) h =
        let (v, runs, walking, done) = plan_of_linked r sound linked in
        finish_stuck r sound linked v walking done (ground (arith, runs))

    -- On a registry that `Register` filled, `Plan` always answers: the fuel of its loop suffices.
    pub plan_total : (p : Result PlanError (List (Check W))) × (plan r ≡ some p)
    plan_total = elim (Result-cases (link (known r) (reqs r) r.order no_edges)) [
      | inl (x, e) ↦ (err x, plan_of_error e)
      | inr (a, e) ↦ let (v, runs, _, _) = plan_of_linked r sound e in (finish r v, runs)
    ]

    -- An order that `Plan` returns holds every registered check exactly once, each as it was
    -- registered, and each after all the checks that it requires.
    pub plan_order :
        {cs : List (Check W)}
        → plan r ≡ some (ok cs)
        → ((x : Text) → count x (check_ids cs) ≡ count x r.order)
          × Ordered (reqs r) [] (check_ids cs)
          × All (λ (c : Check W). get r c.id ≡ some c) cs
    plan_order h = elim (Result-cases (link (known r) (reqs r) r.order no_edges)) [
      | inl (x, e) ↦ absurd (ground (arith, plan_of_error e))
      | inr (a, e) ↦
          let (v, runs, walking, done) = plan_of_linked r sound e in
          finish-Ordered r sound e v walking done (ground (arith, runs))
    ]

    -- An error of `Plan` is justified: the requirement that it names is wanted by a registered check
    -- and is not registered, or the checks that it names are there and each requires one of them.
    pub plan_faults : {x : PlanError} → plan r ≡ some (err x) → Fault x
    plan_faults {x} h = elim (Result-cases (link (known r) (reqs r) r.order no_edges)) [
      | inl (y, e) ↦
          let same : x ≡ y = ground (arith, plan_of_error e) in
          rw same (Fault-of_Unregistered y (link_error (known r) (reqs r) r.order no_edges e))
      | inr (a, e) ↦ finish-Fault a e x h
    ]

    -- If some rank falls along every requirement, a set of checks that each require one of the set
    -- is empty.
    no_cycle :
        (rank : Text → ℕ)
        → ((q x : Text) → 0 < count q (reqs r x) → rank q < rank x)
        → (stuck : List Text)
        → ((x : Text)
            → 0 < count x stuck
            → (q : Text) × (0 < count q (reqs r x)) × (0 < count q stuck))
        → (n : ℕ) (x : Text) → rank x < n
        → ¬ (0 < count x stuck)
    no_cycle rank falls stuck wants zero x l k = absurd (omega arith)
    no_cycle rank falls stuck wants (suc n) x l k =
        let (q, wanted, there) = wants x k in
        no_cycle rank falls stuck wants n q (omega (arith, falls q x wanted)) there

    -- Where every requirement is registered and no requirement leads round, `Plan` returns an order.
    pub plan_acyclic :
        (rank : Text → ℕ)
        → ((q x : Text) → 0 < count q (reqs r x) → rank q < rank x)
        → ((q x : Text) → 0 < count q (reqs r x) → is_some (get r q) ≡ true)
        → (cs : List (Check W)) × (plan r ≡ some (ok cs))
    plan_acyclic rank falls there = answer plan_total
      where
        refute : (x : PlanError) → Fault x → ⊥
        refute (missing_requirement id req) (listed, wanted, new) =
            absurd (ground (arith, there req id wanted))
        refute (cycle stuck) (nonempty, wants) = elim (List-cases stuck) [
          | inl e ↦ nonempty e
          | inr (x, xs, e) ↦
              no_cycle rank falls stuck wants (suc (rank x)) x (omega arith)
                (rw e (ground (arith, text_eq_refl x)))
        ]

        answer :
            ((p : Result PlanError (List (Check W))) × (plan r ≡ some p))
            → (cs : List (Check W)) × (plan r ≡ some (ok cs))
        answer (ok cs, e) = (cs, e)
        answer (err x, e) = absurd (refute x (plan_faults e))
