-- ===== src/Operator/App/Newest.antt =====
-- `observeBuilds` of operator/internal/controller/app_controller.go: the newest Build, and the image
-- of the newest one that succeeded.
use orkano.Prelude.{
  ◌≡◌, refl, ◌∙◌, inl, inr, Text, List, [], ◌∷◌, none, Bool, true, false, ◌&&◌, Bool-cases, ok,
  arith, All, All_map, All_at, In, select,
}
use mathlib.Core.Path.{subst}
use orkano.Prelude.Sorting.{less_irrefl, less_trans}
use orkano.Operator.App.{App, StoredBuild}
use orkano.Operator.App.Reconcile.{
  newer_build, insert_build, sort_builds, has_image, first_image, latest_name, is_of,
  observe_builds,
}

newer_build_irrefl : (a : StoredBuild) → newer_build a a ≡ false
unfolding newer_build
newer_build_irrefl a = ground (arith, less_irrefl a.build.name)

newer_build_trans :
    (a b c : StoredBuild) → newer_build a b ≡ true → newer_build b c ≡ true → newer_build a c ≡ true
unfolding newer_build
newer_build_trans a b c h k = ground (arith, less_trans c.build.name b.build.name a.build.name)

-- Nothing later is newer.
abbrev Falling : List StoredBuild → Type 0
Falling [] = Unit {0}
Falling (x ∷ xs) = All (λ y. newer_build y x ≡ false) xs × Falling xs

insert_build-All :
    (P : StoredBuild → Type 0) (x : StoredBuild) (ys : List StoredBuild)
    → P x
    → All P ys
    → All P (insert_build x ys)
unfolding insert_build
insert_build-All P x [] p h = (p, tt)
insert_build-All P x (y ∷ ys) p h = elim (Bool-cases (newer_build x y)) [
  | inl e ↦ rw e (p, h)
  | inr e ↦ rw e (h.0, insert_build-All P x ys p h.1)
]

insert_build-All_back :
    (P : StoredBuild → Type 0) (x : StoredBuild) (ys : List StoredBuild)
    → All P (insert_build x ys)
    → P x × All P ys
unfolding insert_build
insert_build-All_back P x [] h = h
insert_build-All_back P x (y ∷ ys) h = elim (Bool-cases (newer_build x y)) [
  | inl e ↦ rw e at h
  | inr e ↦
      let h' : P y × All P (insert_build x ys) = rw e at h in
      let (p, rest) = insert_build-All_back P x ys h'.1 in (p, (h'.0, rest))
]

insert_build-Falling :
    (x : StoredBuild) (ys : List StoredBuild) → Falling ys → Falling (insert_build x ys)
unfolding insert_build
insert_build-Falling x [] h = (tt, tt)
insert_build-Falling x (y ∷ ys) h = elim (Bool-cases (newer_build x y)) [
  | inl e ↦
      let older = λ (z : StoredBuild) (n : newer_build z y ≡ false).
        let r : newer_build z x ≡ false = ground (arith, newer_build_trans z x y) in r in
      let first : newer_build y x ≡ false =
        ground (arith, newer_build_trans x y x, newer_build_irrefl x) in
      rw e ((first, All_map older ys h.0), h)
  | inr e ↦
      rw e
        (insert_build-All (λ z. newer_build z y ≡ false) x ys e h.0, insert_build-Falling x ys h.1)
]

sort_builds-Falling : (xs : List StoredBuild) → Falling (sort_builds xs)
unfolding sort_builds
sort_builds-Falling [] = tt
sort_builds-Falling (x ∷ xs) = insert_build-Falling x (sort_builds xs) (sort_builds-Falling xs)

sort_builds-All_back :
    (P : StoredBuild → Type 0) (xs : List StoredBuild) → All P (sort_builds xs) → All P xs
unfolding sort_builds
sort_builds-All_back P [] h = tt
sort_builds-All_back P (x ∷ xs) h =
    let (p, rest) = insert_build-All_back P x (sort_builds xs) h in
    (p, sort_builds-All_back P xs rest)

All_In : (xs : List StoredBuild) → All (λ b. In b xs) xs
All_In [] = tt
All_In (x ∷ xs) = (inl refl, All_map (λ b h. inr h) xs (All_In xs))

sort_builds-All :
    (P : StoredBuild → Type 0) (xs : List StoredBuild) → All P xs → All P (sort_builds xs)
unfolding sort_builds
sort_builds-All P [] h = tt
sort_builds-All P (x ∷ xs) h = insert_build-All P x (sort_builds xs) h.0 (sort_builds-All P xs h.1)

-- `b` is in the list, passes the test, and none that passes it is newer.
pub record Newest (test : StoredBuild → Bool) (xs : List StoredBuild) (b : StoredBuild)
    : Type 0 where
  pub present : In b xs
  pub passes : test b ≡ true
  pub unbeaten : All (λ c. (test c && newer_build c b) ≡ false) xs

-- What is taken from the newest that passes a test, where there is one.
pub data Takes (test : StoredBuild → Bool) (xs : List StoredBuild) (field : StoredBuild → Text)
    (before after : Text) : Type 0 where
  keeps : All (λ c. test c ≡ false) xs → after ≡ before → Takes test xs field before after
  takes : (b : StoredBuild) → Newest test xs b → after ≡ field b → Takes test xs field before after

abbrev pub any_build : StoredBuild → Bool
any_build b = true

abbrev pub name_of : StoredBuild → Text
name_of b = b.build.name

abbrev pub image_of : StoredBuild → Text
image_of b = b.build.status.image

latest_name-Takes :
    (xs : List StoredBuild) (name : Text)
    → Falling xs
    → Takes any_build xs name_of name (latest_name xs name)
latest_name-Takes [] name h = keeps tt refl
latest_name-Takes (x ∷ xs) name h =
    takes x (record { present = inl refl; passes = refl; unbeaten = (newer_build_irrefl x, h.0) })
      refl

skipped :
    (x : StoredBuild) (xs : List StoredBuild) (before after after' : Text)
    → has_image x ≡ false
    → after' ≡ after
    → Takes has_image xs image_of before after
    → Takes has_image (x ∷ xs) image_of before after'
skipped x xs before after after' e same (keeps h k) = keeps (e, h) (same ∙ k)
skipped x xs before after after' e same (takes b n k) =
    takes b
      (record { present = inr n.present; passes = n.passes; unbeaten = (ground arith, n.unbeaten) })
      (same ∙ k)

first_image-Takes :
    (xs : List StoredBuild) (image : Text)
    → Falling xs
    → Takes has_image xs image_of image (first_image xs image)
unfolding first_image
first_image-Takes [] image h = keeps tt refl
first_image-Takes (x ∷ xs) image h = elim (Bool-cases (has_image x)) [
  | inl e ↦
      takes x
        (record {
          present = inl refl;
          passes = e;
          unbeaten = (
            ground (arith, newer_build_irrefl x),
            All_map (λ c n. let r : (has_image c && newer_build c x) ≡ false = ground arith in r) xs
                h.0,
          );
        })
        (ground arith)
  | inr e ↦
      skipped x xs image (first_image xs image) (first_image (x ∷ xs) image) e (ground arith)
        (first_image-Takes xs image h.1)
]

unsorted :
    (test : StoredBuild → Bool) (xs : List StoredBuild) (field : StoredBuild → Text)
    (before after : Text)
    → Takes test (sort_builds xs) field before after
    → Takes test xs field before after
unsorted test xs field before after (keeps h k) = keeps (sort_builds-All_back _ xs h) k
unsorted test xs field before after (takes b n k) =
    takes b
      (record {
        present =
            All_at _ (sort_builds xs) b (sort_builds-All (λ c. In c xs) xs (All_In xs)) n.present;
        passes = n.passes;
        unbeaten = sort_builds-All_back _ xs n.unbeaten;
      })
      k

-- A look at the Builds takes from those of the App, in whatever order they are listed, the name of the
-- newest and the image of the newest that succeeded with one; where there is none, the name or the
-- image stays, so a status never goes back for want of Builds.
pub observe_builds_newest :
    (builds : List StoredBuild) (app seen : App)
    → observe_builds none builds app ≡ ok seen
    → let items = select (is_of app) builds in
      Takes any_build items name_of app.status.latest_build seen.status.latest_build
      × Takes has_image items image_of app.status.image seen.status.image
unfolding observe_builds
observe_builds_newest builds app seen h =
    let items = select (is_of app) builds in
    let sorted = sort_builds-Falling items in
    (
      unsorted any_build items name_of app.status.latest_build seen.status.latest_build (
          subst (Takes any_build (sort_builds items) name_of app.status.latest_build) (ground arith)
            (latest_name-Takes (sort_builds items) app.status.latest_build sorted)),
      unsorted has_image items image_of app.status.image seen.status.image (
          subst (Takes has_image (sort_builds items) image_of app.status.image) (ground arith)
            (first_image-Takes (sort_builds items) app.status.image sorted)),
    )
