-- ===== src/Operator/Dispatcher/Queueing.antt =====
-- The queue under `processOne` and `tick` of operator/internal/dispatcher/dispatcher.go.
use mathlib.Core.Path.{subst}
use orkano.Prelude.{
  ℕ, suc, zero, ◌-◌, ◌≤◌, ◌≡◌, refl, ap, ◌∙◌, sym, Text, List, [], ◌∷◌, some, Bool, true, false,
  not, ◌&&◌, length, drop, select, All, All_map, arith, inl, inr, ◌⊎◌, Bool-cases, List-cases,
  Option-cases,
}
use orkano.Api.{Build, unset, pending, running, succeeded, failed}
use orkano.Features.{Set}
use orkano.Operator.Dispatcher.{Delivery, Cluster, Answers, validate_delivery, budget, inflight}
use orkano.Operator.Dispatcher.Loop.{
  Handled, Processed, apps_for_delivery, process_one, drain, tick,
}
use orkano.Operator.Dispatcher.Builds.{Served}
use orkano.Operator.Dispatcher.Handling.{
  apps_of, run, loop, handle_cases, handle_looped, handled_cluster, handled_ack, handle-IsHandled,
  again, Alike, Served-Alike, handle_dropped,
}

-- A build that has not ended.
abbrev pub underway : Build → Bool
underway b = elim b.status.phase [
  | unset ↦ true
  | pending ↦ true
  | running ↦ true
  | succeeded ↦ false
  | failed ↦ false
]

inflight-underway : (bs : List Build) → inflight bs ≡ length (select underway bs)
unfolding inflight
inflight-underway [] = refl
inflight-underway (b ∷ bs) = ground (arith, inflight-underway bs)

module _ (sha256_hex : Text → Text) (unicode_lower : Text → Text) (features : Set) where
  apps_same :
      (d : Delivery) (b c : Cluster)
      → b.apps ≡ c.apps
      → apps_of sha256_hex unicode_lower features d b
        ≡ apps_of sha256_hex unicode_lower features d c
  unfolding apps_for_delivery
  apps_same d b c e =
      ap (λ apps. apps_of sha256_hex unicode_lower features d (record b { apps = apps })) e

  -- A delivery that was acknowledged but whose removal was lost is handled again to the same effect,
  -- if on the second time neither the listing nor a creation fails and each ref resolves as it did on
  -- the first: it is acknowledged again, and no build is added.
  pub handle_again :
      (w w' : Answers) (d : Delivery) (c : Cluster)
      → (run sha256_hex unicode_lower features w d c).ack ≡ true
      → Alike sha256_hex unicode_lower features w w'
      → let c' = (run sha256_hex unicode_lower features w d c).cluster in
        ((run sha256_hex unicode_lower features w' d c').ack ≡ true)
        × ((run sha256_hex unicode_lower features w' d c').cluster ≡ c')
  handle_again w w' d c k a =
      let c' = (run sha256_hex unicode_lower features w d c).cluster in
      let h = handle-IsHandled sha256_hex unicode_lower features w d c in
      let same : apps_of sha256_hex unicode_lower features d c'
          ≡ apps_of sha256_hex unicode_lower features d c =
        apps_same d c' c h.apps_kept in
      elim (handle_cases sha256_hex unicode_lower features w d c) [
        | inl (e, dropped) ↦
            handle_dropped sha256_hex unicode_lower features w' d c' a.lists
              (elim (dropped k) [ inl bad ↦ inl bad | inr nobody ↦ inr (same ∙ nobody) ])
        | inr (good, lists, (x, xs, found), e) ↦
            let n = length (apps_of sha256_hex unicode_lower features d c') in
            let p = loop sha256_hex unicode_lower features w' d c' in
            let e' =
              handle_looped sha256_hex unicode_lower features w' d c' x xs good a.lists
                (same ∙ found) in
            let all : All (Served sha256_hex unicode_lower features w' d c'.builds)
                (apps_of sha256_hex unicode_lower features d c') =
              elim (h.served k) [
                | inl bad ↦ let no : ⊥ = ground arith in elim no [ ]
                | inr s ↦
                    subst (λ l. All (Served sha256_hex unicode_lower features w' d c'.builds) l)
                      (sym same)
                      (All_map
                        (λ app.
                          Served-Alike sha256_hex unicode_lower features w w' d c'.builds app a)
                        (apps_of sha256_hex unicode_lower features d c) s)
              ] in
            let (kept, done) =
              again sha256_hex unicode_lower features w' d
                (apps_of sha256_hex unicode_lower features d c') c' 0 a.creates all in
            (
              ap (λ (z : Handled). z.ack) e'
                  ∙ (handled_ack sha256_hex unicode_lower features n p ∙ ap not done),
              ap (λ (z : Handled). z.cluster) e'
                  ∙ (handled_cluster sha256_hex unicode_lower features n p ∙ kept),
            )
      ]

  -- The queue loses a row only when that row was handled: it is the oldest, and then, unless it was
  -- malformed, every app that it is about has its build in the store or was skipped for good.
  pub process_one_keeps :
      (w : Answers) (queue : List Delivery) (c : Cluster)
      → let p = process_one sha256_hex unicode_lower features w queue c in
        ((p.queue ≡ queue) × ¬ (p.outcome ≡ some true))
        ⊎ ((d : Delivery) × (queue ≡ d ∷ p.queue)
            × ((validate_delivery d ≡ false)
                ⊎ All
                    (Served sha256_hex unicode_lower features w d p.cluster.builds)
                    (apps_of sha256_hex unicode_lower features d c)))
  unfolding process_one
  process_one_keeps w queue c = elim (Bool-cases w.claim_fails) [
    | inl f ↦ inl (ground arith, λ k. ground arith)
    | inr f ↦ elim (List-cases queue) [
      | inl empty ↦ inl (ground arith, λ k. ground arith)
      | inr (d, rest, q) ↦
          let h = run sha256_hex unicode_lower features w d c in
          elim (Bool-cases (h.ack && not w.ack_fails)) [
            | inr left ↦ inl (ground arith, λ k. ground arith)
            | inl acked ↦
                let p : process_one sha256_hex unicode_lower features w queue c
                    ≡ record { outcome = some true; queue = rest; cluster = h.cluster } =
                  ground arith in
                inr (
                  d,
                  q ∙ ap (λ (z : Processed). d ∷ z.queue) (sym p),
                  subst
                      (λ (z : Processed).
                        (validate_delivery d ≡ false)
                        ⊎ All (Served sha256_hex unicode_lower features w d z.cluster.builds)
                            (apps_of sha256_hex unicode_lower features d c))
                      (sym p)
                      ((handle-IsHandled sha256_hex unicode_lower features w d c).served
                        (ground arith)),
                )
          ]
    ]
  ]

  drain_drops :
      (n : ℕ) (ws : List Answers) (queue : List Delivery) (c : Cluster)
      → (k : ℕ) × (k ≤ n)
        × ((drain sha256_hex unicode_lower features n ws queue c).0 ≡ drop k queue)
  unfolding drain
  drain_drops zero ws queue c = (0, omega arith, refl)
  drain_drops (suc n) [] queue c = (0, omega arith, refl)
  drain_drops (suc n) (w ∷ ws) queue c =
      let p = process_one sha256_hex unicode_lower features w queue c in
      let (k, le, rest) = drain_drops n ws p.queue p.cluster in
      elim (process_one_keeps w queue c) [
        | inl (same, stays) ↦ (
          0,
          omega arith,
          elim (Option-cases p.outcome) [
            | inl x ↦ ground arith
            | inr (b, x) ↦ elim (Bool-cases b) [
              | inl t ↦ let no : ⊥ = stays (ground arith) in elim no [ ]
              | inr t ↦ ground arith
            ]
          ],
        )
        | inr (d, q, served) ↦ elim (Option-cases p.outcome) [
          | inl x ↦ (1, omega arith, ground arith)
          | inr (b, x) ↦ elim (Bool-cases b) [
            | inl t ↦ (suc k, omega (arith, le), ground arith)
            | inr t ↦ (1, omega arith, ground arith)
          ]
        ]
      ]

  -- A tick takes rows from the front of the queue only, in order, and at most as many as there are
  -- places left of the maximum by the builds that have not ended; where these cannot be listed it
  -- does nothing.
  pub tick_drops :
      (max : ℕ) (listed : Bool) (ws : List Answers) (queue : List Delivery) (c : Cluster)
      → let o = tick sha256_hex unicode_lower features max listed ws queue c in
        (listed ≡ false → o ≡ (queue, c))
        × ((k : ℕ) × (k ≤ max - length (select underway c.builds)) × (o.0 ≡ drop k queue))
  unfolding tick budget
  tick_drops max true ws queue c =
      let (k, le, rest) = drain_drops (budget max c) ws queue c in
      (λ f. absurd (ground arith), (k, omega (arith, le, inflight-underway c.builds), rest))
  tick_drops max false ws queue c = (λ f. refl, (0, omega arith, refl))
