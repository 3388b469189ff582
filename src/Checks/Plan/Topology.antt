-- ===== src/Checks/Plan/Topology.antt =====
-- The order that `Plan` (internal/checks/registry.go) returns.
use mathlib.Core.Path.{subst}
use orkano.Prelude.{
  ℕ, ◌≤◌, ◌<◌, ◌≡◌, ◌≢◌, refl, ap, sym, ◌∙◌, Text, text_eq_iff, text_eq_refl, List, [], ◌∷◌, Bool,
  true, none, some, is_some, if◌then◌else◌, length, ok, err, arith, select, ltb, ◌==◌, map,
  Bool-cases, Option-cases, All, inl, inr,
}
use orkano.Prelude.Counts.{count, count_eq_of_length, length_le_of_count}
use orkano.Checks.{Check}
use orkano.Checks.Registry.{Registry, get}
use orkano.Checks.Registry.Soundness.{IsSound}
use orkano.Checks.Plan.{
  Edges, Walk, cycle, link, no_edges, known, reqs, checks_at, start, finish, walk_from, plan,
  index_of,
}
use orkano.Checks.Plan.Linking.{LinkedAll, link-LinkedAll, times, times-zero, times-once}
use orkano.Checks.Plan.Walking.{missing, Ordered, Walking, walk_ends}

count-select :
    (p : Text → Bool) (x : Text) (xs : List Text)
    → count x (select p xs) ≡ (if p x then count x xs else 0)
count-select p x [] = ground arith
count-select p x (y ∷ ys) = ground (arith, count-select p x ys, text_eq_iff x y)

missing-none : (qs : List Text) → missing qs [] ≡ length qs
missing-none [] = refl
missing-none (q ∷ qs) = omega (arith, missing-none qs)

abbrev pub check_ids : {W : Type 0} → List (Check W) → List Text
check_ids = map (λ c. c.id)

checks_at-registered :
    {W : Type 0} (r : Registry W)
    → IsSound r
    → (ids : List Text) → All (λ (c : Check W). get r c.id ≡ some c) (checks_at r ids)
unfolding checks_at
checks_at-registered r sound [] = tt
checks_at-registered r sound (x ∷ xs) = elim (Option-cases (get r x)) [
  | inl e ↦ rw (e, checks_at) (checks_at-registered r sound xs)
  | inr (c, e) ↦
      rw (e, checks_at) (ground (arith, sound.keyed x c e), checks_at-registered r sound xs)
]

checks_at-id :
    {W : Type 0} (r : Registry W)
    → IsSound r
    → (ids : List Text) → ((x : Text) → 0 < count x ids → is_some (get r x) ≡ true)
    → check_ids (checks_at r ids) ≡ ids
unfolding checks_at
checks_at-id r sound [] h = refl
checks_at-id r sound (x ∷ xs) h =
    let ih = checks_at-id r sound xs (λ y k. h y (omega (arith, k))) in
    elim (Option-cases (get r x)) [
      | inl e ↦ absurd (ground (arith, h x, text_eq_refl x))
      | inr (c, e) ↦ ground (arith, ih, sound.keyed x c e)
    ]

-- Some requirement is not emitted.
unmet :
    (qs out : List Text) → 0 < missing qs out → (q : Text) × (0 < count q qs) × (count q out ≡ 0)
unmet [] out h = absurd (omega arith)
unmet (q ∷ qs) out h = elim (Bool-cases (count q out == 0)) [
  | inl e ↦ (q, ground (arith, text_eq_refl q), ground arith)
  | inr e ↦
      let (p, inside, outside) = unmet qs out (ground arith) in (p, omega (arith, inside), outside)
]

module _ {W : Type 0} (r : Registry W) (sound : IsSound r) where
  pub registered_once : (x : Text) → count x r.order ≤ 1
  registered_once x = ground (arith, sound.listed x)

  pub registered_of_required : (q x : Text) → 0 < count q (reqs r x) → 0 < count x r.order
  registered_of_required q x h = ground (arith, sound.listed x)

  times_of_registered : (x : Text) (n : ℕ) → (get r x ≡ none → n ≡ 0) → times x r.order n ≡ n
  times_of_registered x n h = elim (Option-cases (get r x)) [
    | inl e ↦ rw (h e) (times-zero x r.order)
    | inr (c, e) ↦ times-once x r.order n (ground (arith, sound.listed x))
  ]

  module _ {e : Edges} (linked : link (known r) (reqs r) r.order no_edges ≡ ok e) where
    pub edges : LinkedAll (known r) (reqs r) r.order no_edges e
    edges = link-LinkedAll (known r) (reqs r) r.order no_edges linked

    start_degree : (x : Text) → e.indegree x ≡ missing (reqs r x) []
    start_degree x = omega (
      arith,
      edges.degree x,
      missing-none (reqs r x),
      times_of_registered x (length (reqs r x)) (λ n. ground arith),
    )

    pub reversed : (q x : Text) → count x (e.dependents q) ≡ count q (reqs r x)
    reversed q x =
        omega
          (arith, edges.reverse q x, times_of_registered x (count q (reqs r x)) (λ n. ground arith))

    abbrev pub WalkingHere : Walk → Type 0
    WalkingHere =
        Walking r.order (reqs r) e.dependents (λ id. index_of id r.order) registered_once reversed
          registered_of_required

    start-Walking : WalkingHere (start r e)
    start-Walking = record {
      placed =
          λ x. ground (arith, count-select (λ id. e.indegree id == 0) x r.order, registered_once x);
      degree = λ x. omega (arith, start_degree x);
      known = λ x k. elim k [ ];
      ordered = tt;
    }

    walk_from_ends : (v : Walk) × (walk_from r e ≡ some v) × WalkingHere v × (v.ready ≡ [])
    walk_from_ends =
        walk_ends r.order (reqs r) e.dependents (λ id. index_of id r.order) registered_once reversed
          registered_of_required (length r.order) (start r e) start-Walking (omega arith)

    pub plan_of_linked : (v : Walk) × (plan r ≡ some (finish r v)) × WalkingHere v × (v.ready ≡ [])
    unfolding plan
    plan_of_linked =
        let (v, runs, walking, done) = walk_from_ends in
        (v, rw (linked, plan) (rw runs refl), walking, done)

    -- At the end of the walk an id is emitted or has an unmet requirement.
    emitted_or_unmet :
        (v : Walk)
        → WalkingHere v
        → v.ready ≡ []
        → (x : Text)
        → (count x v.order ≤ count x r.order)
          × (count x v.order < count x r.order → 0 < v.indegree x)
          × (0 < v.indegree x → count x v.order ≡ 0)
    emitted_or_unmet v h done x = (
      ground (arith, h.placed x),
      λ k. ground (arith, h.placed x, registered_once x),
      λ k. ground (arith, h.placed x),
    )

    pub finish-Ordered :
        (v : Walk)
        → WalkingHere v
        → v.ready ≡ []
        → {cs : List (Check W)} → finish r v ≡ ok cs
        → ((x : Text) → count x (check_ids cs) ≡ count x r.order)
          × Ordered (reqs r) [] (check_ids cs)
          × All (λ (c : Check W). get r c.id ≡ some c) cs
    finish-Ordered v h done {cs} e =
        let same : checks_at r v.order ≡ cs = ground arith in
        let all : (x : Text) → count x v.order ≡ count x r.order =
          count_eq_of_length v.order r.order (λ x. (emitted_or_unmet v h done x).0)
            (ground arith) in
        let ids : check_ids cs ≡ v.order =
          ap check_ids (sym same)
          ∙ checks_at-id r sound v.order (λ x k. ground (arith, all x, sound.listed x)) in
        (
          λ x. rw ids (all x),
          rw ids h.ordered,
          subst (All (λ (c : Check W). get r c.id ≡ some c)) same
              (checks_at-registered r sound v.order),
        )

    abbrev unmet_at : Walk → Text → Bool
    unmet_at v id = ltb 0 (v.indegree id)

    stuck_nonempty :
        (v : Walk)
        → WalkingHere v
        → v.ready ≡ []
        → length v.order < length r.order
        → select (unmet_at v) r.order ≢ []
    stuck_nonempty v h done l e = absurd (
        omega (
          arith,
          length_le_of_count r.order v.order (λ x. ground (
            arith,
            emitted_or_unmet v h done x,
            count-select (unmet_at v) x r.order,
            ap (count x) e,
          )),
        ))

    stuck_requirement :
        (v : Walk)
        → WalkingHere v
        → v.ready ≡ []
        → (q x : Text) → 0 < count x r.order
        → 0 < count q (reqs r x)
        → count q v.order ≡ 0
        → 0 < count q (select (unmet_at v) r.order)
    stuck_requirement v h done q x listed wanted absent =
        let there = edges.all_known q x listed wanted in
        ground (arith, h.placed q, sound.listed q, there, count-select (unmet_at v) q r.order)

    pub finish_stuck :
        (v : Walk)
        → WalkingHere v
        → v.ready ≡ []
        → {stuck : List Text} → finish r v ≡ err (cycle stuck)
        → (stuck ≢ [])
          × ((x : Text)
              → 0 < count x stuck
              → (q : Text) × (0 < count q (reqs r x)) × (0 < count q stuck))
    finish_stuck v h done {stuck} e =
        let same : select (unmet_at v) r.order ≡ stuck = ground arith in
        (
          rw same at (stuck_nonempty v h done (ground arith)),
          λ x k.
              let inside = rw (← same) at k in
              let (q, wanted, absent) =
                unmet (reqs r x) v.order
                  (ground (arith, h.degree x, count-select (unmet_at v) x r.order, inside)) in
              (
                q,
                wanted,
                rw (← same) (
                    stuck_requirement v h done q x
                      (ground (arith, inside, count-select (unmet_at v) x r.order)) wanted absent),
              ),
        )
