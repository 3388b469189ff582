-- ===== src/Operator/Dispatcher/Handling.antt =====
-- What a delivery comes to in operator/internal/dispatcher/dispatcher.go.
use mathlib.Core.Path.{subst}
use mathlib.Core.List.{append-nil}
use orkano.Prelude.{
  ℕ, suc, ◌≡◌, refl, ap, ◌∙◌, sym, Text, List, [], ◌∷◌, ◌++◌, true, false, not, length, All, arith,
  inl, inr, ◌⊎◌, Bool-cases, List-cases,
}
use orkano.Api.{App, Build}
use orkano.Features.{Set}
use orkano.Operator.Dispatcher.{Delivery, Cluster, Answers, validate_delivery, resolve_commit}
use orkano.Operator.Dispatcher.Loop.{
  Progress, Handled, apps_for_delivery, build_apps, handled, handle,
}
use orkano.Operator.Dispatcher.Builds.{
  IsSnapshot, Served, Served-attempt, build_apps-Looped, progress, build_for,
}
use orkano.Operator.Dispatcher.Creating.{create_build-again}

module _ (sha256_hex : Text → Text) (unicode_lower : Text → Text) (features : Set) where
  abbrev pub apps_of : Delivery → Cluster → List App
  apps_of d c = apps_for_delivery sha256_hex unicode_lower d c

  abbrev pub run : Answers → Delivery → Cluster → Handled
  run w d c = handle sha256_hex unicode_lower features w d c

  abbrev pub loop : Answers → Delivery → Cluster → Progress
  loop w d c = progress sha256_hex unicode_lower features w d (apps_of d c) c 0

  -- The exits of `handle`: the delivery is dropped, or left, with nothing done; or the loop ran.
  pub handle_cases :
      (w : Answers) (d : Delivery) (c : Cluster)
      → (((run w d c).cluster ≡ c)
          × ((run w d c).ack ≡ true → (validate_delivery d ≡ false) ⊎ (apps_of d c ≡ [])))
        ⊎ ((validate_delivery d ≡ true)
            × (w.list_fails ≡ false)
            × ((x : App) × (xs : List App) × (apps_of d c ≡ x ∷ xs))
            × (run w d c ≡ handled sha256_hex unicode_lower (length (apps_of d c)) (loop w d c)))
  unfolding handle
  handle_cases w d c = elim (Bool-cases (validate_delivery d)) [
    | inr bad ↦ inl (ground arith, λ k. inl bad)
    | inl good ↦ elim (Bool-cases w.list_fails) [
      | inl fails ↦ inl (ground arith, λ k. ground arith)
      | inr lists ↦ elim (List-cases (apps_of d c)) [
        | inl none_left ↦ inl (ground (arith, ap length none_left), λ k. inr none_left)
        | inr (x, xs, some_left) ↦
            inr (good, lists, (x, xs, some_left), ground (arith, ap length some_left))
      ]
    ]
  ]

  pub handle_looped :
      (w : Answers) (d : Delivery) (c : Cluster) (x : App) (xs : List App)
      → validate_delivery d ≡ true
      → w.list_fails ≡ false
      → apps_of d c ≡ x ∷ xs
      → run w d c ≡ handled sha256_hex unicode_lower (length (apps_of d c)) (loop w d c)
  unfolding handle
  handle_looped w d c x xs good lists found = ground (arith, ap length found)

  -- What handling a delivery does.
  pub record IsHandled (w : Answers) (d : Delivery) (c : Cluster) (h : Handled) : Type 0 where
    pub added : List Build
    pub builds : h.cluster.builds ≡ c.builds ++ added
    pub apps_kept : h.cluster.apps ≡ c.apps
    pub snapshots : All (IsSnapshot sha256_hex unicode_lower features w d (apps_of d c)) added
    pub served :
        h.ack ≡ true
        → (validate_delivery d ≡ false)
          ⊎ All (Served sha256_hex unicode_lower features w d h.cluster.builds) (apps_of d c)

  pub handled_cluster :
      (n : ℕ) (p : Progress) → (handled sha256_hex unicode_lower n p).cluster ≡ p.cluster
  handled_cluster n p = ground arith

  pub handled_ack :
      (n : ℕ) (p : Progress) → (handled sha256_hex unicode_lower n p).ack ≡ not p.failed
  handled_ack n p = ground arith

  pub handle-IsHandled : (w : Answers) (d : Delivery) (c : Cluster) → IsHandled w d c (run w d c)
  handle-IsHandled w d c = elim (handle_cases w d c) [
    | inl (same, dropped) ↦ record {
      added = [];
      builds = ap (λ (x : Cluster). x.builds) same ∙ sym (append-nil c.builds);
      apps_kept = ap (λ (x : Cluster). x.apps) same;
      snapshots = tt;
      served = λ k. elim (dropped k) [ inl bad ↦ inl bad | inr none_left ↦ inr (rw none_left tt) ];
    }
    | inr (good, lists, found, e) ↦
        let p = loop w d c in
        let l = build_apps-Looped sha256_hex unicode_lower features w d (apps_of d c) c 0 in
        let n = length (apps_of d c) in
        subst (IsHandled w d c) (sym e) (record {
          added = l.added;
          builds = ap (λ (x : Cluster). x.builds) (handled_cluster n p) ∙ l.builds;
          apps_kept = ap (λ (x : Cluster). x.apps) (handled_cluster n p) ∙ l.apps_kept;
          snapshots = l.snapshots;
          served = λ k. inr (
              subst
                (λ (x : Cluster).
                  All (Served sha256_hex unicode_lower features w d x.builds) (apps_of d c))
                (sym (handled_cluster n p)) (l.served (ground (arith, handled_ack n p))));
        })
  ]

  -- Handling a delivery only adds builds to the store, each a new one of an app that the delivery is
  -- about and whose gates are open: with the app's own source and strategy, pinned to the commit that
  -- this source resolved to, in the app's namespace, under the name that the app's name, the commit
  -- and, for a manual delivery, the delivery's id make. The apps stay as they are.
  pub handle_adds :
      (w : Answers) (d : Delivery) (c : Cluster)
      → (added : List Build) × ((run w d c).cluster.builds ≡ c.builds ++ added)
        × ((run w d c).cluster.apps ≡ c.apps)
        × All (IsSnapshot sha256_hex unicode_lower features w d (apps_of d c)) added
  handle_adds w d c =
      let h = handle-IsHandled w d c in (h.added, h.builds, h.apps_kept, h.snapshots)

  -- When a well-formed delivery is acknowledged, every app that it is about has its build in the
  -- store, or is one whose gate is closed or whose ref will never resolve.
  pub handle_serves :
      (w : Answers) (d : Delivery) (c : Cluster)
      → validate_delivery d ≡ true
      → (run w d c).ack ≡ true
      → All (Served sha256_hex unicode_lower features w d (run w d c).cluster.builds) (apps_of d c)
  handle_serves w d c good k = elim ((handle-IsHandled w d c).served k) [
    | inl bad ↦ let no : ⊥ = ground arith in elim no [ ]
    | inr s ↦ s
  ]

  -- Answers under which neither the listing nor a creation fails, and refs resolve as they did.
  pub record Alike (w w' : Answers) : Type 0 where
    pub lists : w'.list_fails ≡ false
    pub creates : (b : Build) → w'.create_fails b ≡ false
    pub resolves : (app : App) → resolve_commit w' app ≡ resolve_commit w app

  pub Served-Alike :
      (w w' : Answers) (d : Delivery) (bs : List Build) (app : App)
      → Alike w w'
      → Served sha256_hex unicode_lower features w d bs app
      → Served sha256_hex unicode_lower features w' d bs app
  Served-Alike w w' d bs app a (inl closed) = inl closed
  Served-Alike w w' d bs app a (inr (inl u)) = inr (inl (a.resolves app ∙ u))
  Served-Alike w w' d bs app a (inr (inr (sha, r, there))) =
      inr (inr (sha, a.resolves app ∙ r, there))

  pub handle_dropped :
      (w : Answers) (d : Delivery) (c : Cluster)
      → w.list_fails ≡ false
      → (validate_delivery d ≡ false) ⊎ (apps_of d c ≡ [])
      → ((run w d c).ack ≡ true) × ((run w d c).cluster ≡ c)
  unfolding handle
  handle_dropped w d c lists (inl bad) = (ground arith, ground arith)
  handle_dropped w d c lists (inr nobody) =
      (ground (arith, ap length nobody), ground (arith, ap length nobody))

  pub again :
      (w : Answers) (d : Delivery) (apps : List App) (c : Cluster) (n : ℕ)
      → ((b : Build) → w.create_fails b ≡ false)
      → All (Served sha256_hex unicode_lower features w d c.builds) apps
      → let p = progress sha256_hex unicode_lower features w d apps c n in
        (p.cluster ≡ c) × (p.failed ≡ false)
  unfolding build_apps
  again w d [] c n works h = (refl, refl)
  again w d (app ∷ apps) c n works (served, hs) =
      elim (Served-attempt sha256_hex unicode_lower features w d c.builds app served) [
        | inl u ↦
            let e : progress sha256_hex unicode_lower features w d (app ∷ apps) c n
                ≡ progress sha256_hex unicode_lower features w d apps c (suc n) =
              ground arith in
            let ih = again w d apps c (suc n) works hs in
            (ap (λ (p : Progress). p.cluster) e ∙ ih.0, ap (λ (p : Progress). p.failed) e ∙ ih.1)
        | inr (sha, r, there) ↦
            let made =
              create_build-again w (build_for sha256_hex unicode_lower features w d app sha) c
                (works (build_for sha256_hex unicode_lower features w d app sha)) there in
            let e : progress sha256_hex unicode_lower features w d (app ∷ apps) c n
                ≡ progress sha256_hex unicode_lower features w d apps c n =
              ground (arith, made) in
            let ih = again w d apps c n works hs in
            (ap (λ (p : Progress). p.cluster) e ∙ ih.0, ap (λ (p : Progress). p.failed) e ∙ ih.1)
      ]
