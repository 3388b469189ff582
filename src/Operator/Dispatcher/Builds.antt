-- ===== src/Operator/Dispatcher/Builds.antt =====
-- What the loop over the apps in `handle` of operator/internal/dispatcher/dispatcher.go does to the
-- builds.
use mathlib.Core.Path.{subst}
use mathlib.Core.List.{append_assoc, append-nil}
use orkano.Prelude.{
  ℕ, suc, ◌≡◌, refl, ap, ◌∙◌, sym, Text, List, [], ◌∷◌, ◌++◌, none, true, false, ok, err, All,
  All-append, In, arith, inl, inr, ◌⊎◌, Bool-cases, Result-cases,
}
use orkano.Api.{App, Build, unset}
use orkano.Features.{Set, validate_app}
use orkano.Operator.Dispatcher.{
  Delivery, Cluster, Resolution, commit, unresolvable, Answers, resolve_commit, build_from_app,
  build_name_for_delivery,
}
use orkano.Operator.Dispatcher.Loop.{exists, create_build, Progress, wanted, attempt, build_apps}
use orkano.Operator.Dispatcher.Creating.{
  exists-append, Resolution-cases, create_build-added, create_build-there,
}

module _ (sha256_hex : Text → Text) (unicode_lower : Text → Text) (features : Set) (w : Answers)
    (d : Delivery) where
  abbrev pub attempted : App → Resolution
  attempted app = attempt sha256_hex unicode_lower features w d app

  abbrev pub build_for : App → Text → Build
  build_for app sha = wanted sha256_hex unicode_lower d app sha

  abbrev pub progress : List App → Cluster → ℕ → Progress
  progress apps c n = build_apps sha256_hex unicode_lower features w d apps c n

  -- `b` is a new build of one of the apps, whose gates are open: the app's source and strategy, pinned
  -- to the commit that its source resolved to.
  pub record IsSnapshot (apps : List App) (b : Build) : Type 0 where
    pub app : App
    pub listed : In app apps
    pub sha : Text
    pub gates : validate_app features app.spec ≡ ok tt
    pub resolved : resolve_commit w app ≡ commit sha
    pub named : b.name ≡ build_name_for_delivery sha256_hex app.name sha d
    pub placed : b.namespace ≡ app.namespace
    pub owner : b.spec.app_name ≡ app.name
    pub pinned : b.spec.commit ≡ sha
    pub source : b.spec.source ≡ app.spec.source
    pub strategy : b.spec.strategy ≡ app.spec.build
    pub timeout : b.spec.timeout_seconds ≡ 0
    pub new : (b.status.phase ≡ unset) × (b.status.job_ref ≡ none) × (b.status.image ≡ [])

  -- A gate of the app is closed, or its ref will never resolve, or its build is there.
  abbrev pub Served : List Build → App → Type 0
  Served bs app =
      ((missing : List Text) × (validate_app features app.spec ≡ err missing))
      ⊎ ((resolve_commit w app ≡ unresolvable)
          ⊎ ((sha : Text) × (resolve_commit w app ≡ commit sha)
              × (exists (build_for app sha) bs ≡ true)))

  attempt-commit :
      (app : App) (sha : Text)
      → attempted app ≡ commit sha
      → (validate_app features app.spec ≡ ok tt) × (resolve_commit w app ≡ commit sha)
  unfolding attempt
  attempt-commit app sha r = (ground arith, ground arith)

  attempt-unresolvable :
      (app : App)
      → attempted app ≡ unresolvable
      → ((missing : List Text) × (validate_app features app.spec ≡ err missing))
        ⊎ (resolve_commit w app ≡ unresolvable)
  unfolding attempt
  attempt-unresolvable app r = elim (Result-cases (validate_app features app.spec)) [
    | inl (missing, v) ↦ inl (missing, v)
    | inr (u, v) ↦ inr (ground arith)
  ]

  -- The two ways to be served, as the loop meets them; with a gate closed nothing is resolved.
  pub Served-attempt :
      (bs : List Build) (app : App)
      → Served bs app
      → (attempted app ≡ unresolvable)
        ⊎ ((sha : Text) × (attempted app ≡ commit sha) × (exists (build_for app sha) bs ≡ true))
  unfolding attempt
  Served-attempt bs app served = elim (Result-cases (validate_app features app.spec)) [
    | inl (missing, v) ↦ inl (ground arith)
    | inr (u, v) ↦ elim served [
      | inl (missing, m) ↦ let no : ⊥ = ground arith in elim no [ ]
      | inr (inl r) ↦ inl (ground arith)
      | inr (inr (sha, r, there)) ↦ inr (sha, ground arith, there)
    ]
  ]

  once_more :
      (app : App) (apps : List App) (b : Build) → IsSnapshot apps b → IsSnapshot (app ∷ apps) b
  once_more app apps b s = record {
    app = s.app;
    listed = inr s.listed;
    sha = s.sha;
    gates = s.gates;
    resolved = s.resolved;
    named = s.named;
    placed = s.placed;
    owner = s.owner;
    pinned = s.pinned;
    source = s.source;
    strategy = s.strategy;
    timeout = s.timeout;
    new = s.new;
  }

  later :
      (app : App) (apps : List App) (bs : List Build)
      → All (IsSnapshot apps) bs
      → All (IsSnapshot (app ∷ apps)) bs
  later app apps [] h = tt
  later app apps (b ∷ bs) (s, h) = (once_more app apps b s, later app apps bs h)

  -- What the loop leaves: the builds it found and, after them, snapshots of the apps; and, unless it
  -- was cut short, all apps served.
  pub record Looped (apps : List App) (c : Cluster) (p : Progress) : Type 0 where
    pub added : List Build
    pub builds : p.cluster.builds ≡ c.builds ++ added
    pub apps_kept : p.cluster.apps ≡ c.apps
    pub snapshots : All (IsSnapshot apps) added
    pub served : p.failed ≡ false → All (Served p.cluster.builds) apps

  new_snapshot :
      (app : App) (apps : List App) (sha : Text)
      → attempted app ≡ commit sha
      → IsSnapshot (app ∷ apps) (build_for app sha)
  unfolding wanted build_from_app
  new_snapshot app apps sha r =
      let (open_gates, resolved) = attempt-commit app sha r in
      record {
        app = app;
        listed = inl refl;
        sha = sha;
        gates = open_gates;
        resolved = resolved;
        named = refl;
        placed = refl;
        owner = refl;
        pinned = refl;
        source = refl;
        strategy = refl;
        timeout = refl;
        new = (refl, refl, refl);
      }

  one_added :
      (app : App) (apps : List App) (sha : Text) (c : Cluster)
      → attempted app ≡ commit sha
      → (added : List Build) × ((create_build w (build_for app sha) c).1.builds ≡ c.builds ++ added)
        × ((create_build w (build_for app sha) c).1.apps ≡ c.apps)
        × All (IsSnapshot (app ∷ apps)) added
  one_added app apps sha c r = elim (create_build-added w (build_for app sha) c) [
    | inl e ↦ (
      [],
      ap (λ (x : Cluster). x.builds) e ∙ sym (append-nil c.builds),
      ap (λ (x : Cluster). x.apps) e,
      tt,
    )
    | inr e ↦ (
      build_for app sha ∷ [],
      ap (λ (x : Cluster). x.builds) e,
      ap (λ (x : Cluster). x.apps) e,
      (new_snapshot app apps sha r, tt),
    )
  ]

  pub build_apps-Looped :
      (apps : List App) (c : Cluster) (n : ℕ) → Looped apps c (progress apps c n)
  unfolding build_apps
  build_apps-Looped [] c n = record {
    added = [];
    builds = sym (append-nil c.builds);
    apps_kept = refl;
    snapshots = tt;
    served = λ k. tt;
  }
  build_apps-Looped (app ∷ apps) c n = elim (Resolution-cases (attempted app)) [
    | inr (inr u) ↦
        let e : progress (app ∷ apps) c n ≡ record { cluster = c; skipped = n; failed = true } =
          ground arith in
        subst (Looped (app ∷ apps) c) (sym e) (record {
          added = [];
          builds = sym (append-nil c.builds);
          apps_kept = refl;
          snapshots = tt;
          served = λ k. let no : ⊥ = ground arith in elim no [ ];
        })
    | inr (inl u) ↦
        let ih = build_apps-Looped apps c (suc n) in
        let skipped : Served (progress apps c (suc n)).cluster.builds app =
          elim (attempt-unresolvable app u) [ inl m ↦ inl m | inr m ↦ inr (inl m) ] in
        let e : progress (app ∷ apps) c n ≡ progress apps c (suc n) = ground arith in
        subst (Looped (app ∷ apps) c) (sym e) (record {
          added = ih.added;
          builds = ih.builds;
          apps_kept = ih.apps_kept;
          snapshots = later app apps ih.added ih.snapshots;
          served = λ k. (skipped, ih.served k);
        })
    | inl (sha, r) ↦
        let o = create_build w (build_for app sha) c in
        let (added, builds, kept, snapshots) = one_added app apps sha c r in
        elim (Bool-cases o.0) [
          | inl fails ↦
              let e : progress (app ∷ apps) c n
                  ≡ record { cluster = o.1; skipped = n; failed = true } =
                ground arith in
              subst (Looped (app ∷ apps) c) (sym e) (record {
                added = added;
                builds = builds;
                apps_kept = kept;
                snapshots = snapshots;
                served = λ k. let no : ⊥ = ground arith in elim no [ ];
              })
          | inr made ↦
              let ih = build_apps-Looped apps o.1 n in
              let e : progress (app ∷ apps) c n ≡ progress apps o.1 n = ground arith in
              let there = create_build-there w (build_for app sha) c made in
              subst (Looped (app ∷ apps) c) (sym e) (record {
                added = added ++ ih.added;
                builds =
                    ih.builds
                    ∙ (ap (λ l. l ++ ih.added) builds ∙ append_assoc c.builds added ih.added);
                apps_kept = ih.apps_kept ∙ kept;
                snapshots =
                    All-append (IsSnapshot (app ∷ apps)) added ih.added snapshots
                      (later app apps ih.added ih.snapshots);
                served = λ k. (
                  inr (
                      inr (
                        sha,
                        (attempt-commit app sha r).1,
                        rw ih.builds (exists-append (build_for app sha) o.1.builds ih.added there),
                      )),
                  ih.served k,
                );
              })
        ]
  ]
