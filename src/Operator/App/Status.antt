-- ===== src/Operator/App/Status.antt =====
-- The status that operator/internal/controller/app_controller.go writes: what one look at the Builds
-- and one write of it leave.
use orkano.Prelude.{
  ◌≡◌, refl, sym, ap, ◌∙◌, inl, inr, Text, text_eq_iff, text_eq_refl, List, [], ◌∷◌, Option, none,
  some, true, Bool-cases, Option-cases, ok, arith, select,
}
use mathlib.Core.Path.{subst}
use orkano.Operator.Build.Status.{conditions_eq}
use orkano.Api.{Condition}
use orkano.Operator.Kube.{ApiError}
use orkano.Operator.App.{App, AppStatus, StoredBuild}
use orkano.Operator.App.Reconcile.{
  Library, Io, World, Write, observed, observe_builds, first_image, latest_name, sort_builds, is_of,
  status_eq, update_status,
}

conditions_eq_sound : (a b : List Condition) → conditions_eq a b ≡ true → a ≡ b
conditions_eq_sound [] [] h = refl
conditions_eq_sound [] (_ ∷ _) h = cc
conditions_eq_sound (_ ∷ _) [] h = cc
conditions_eq_sound (a ∷ xs) (b ∷ ys) h = ground (
  arith,
  text_eq_iff a.kind b.kind,
  text_eq_iff a.reason b.reason,
  text_eq_iff a.message b.message,
  conditions_eq_sound xs ys,
)

conditions_eq_refl : (a : List Condition) → conditions_eq a a ≡ true
conditions_eq_refl [] = refl
conditions_eq_refl (a ∷ xs) = ground (
  arith,
  text_eq_refl a.kind,
  text_eq_refl a.reason,
  text_eq_refl a.message,
  conditions_eq_refl xs,
)

status_eq_sound : (a b : AppStatus) → status_eq a b ≡ true → a ≡ b
unfolding status_eq
status_eq_sound a b h = ground (
  arith,
  conditions_eq_sound a.conditions b.conditions,
  text_eq_iff a.image b.image,
  text_eq_iff a.url b.url,
  text_eq_iff a.latest_build b.latest_build,
)

status_eq_refl : (a : AppStatus) → status_eq a a ≡ true
unfolding status_eq
status_eq_refl a = ground (
  arith,
  conditions_eq_refl a.conditions,
  text_eq_refl a.image,
  text_eq_refl a.url,
  text_eq_refl a.latest_build,
)

first_image_again :
    (bs : List StoredBuild) (image : Text)
    → first_image bs (first_image bs image) ≡ first_image bs image
unfolding first_image
first_image_again [] image = refl
first_image_again (b ∷ bs) image = ground (arith, first_image_again bs image)

latest_name_again :
    (bs : List StoredBuild) (name : Text)
    → latest_name bs (latest_name bs name) ≡ latest_name bs name
latest_name_again [] name = refl
latest_name_again (b ∷ bs) name = refl

-- An App that has seen its Builds has nothing new to see in them.
abbrev pub HasSeen : List StoredBuild → App → Type 0
HasSeen builds app =
    let items = sort_builds (select (is_of app) builds) in
    (latest_name items app.status.latest_build ≡ app.status.latest_build)
    × (first_image items app.status.image ≡ app.status.image)

abbrev pub SameBut : App → App → Type 0
SameBut app seen = seen ≡ record app { status = seen.status }

pub observe_builds-HasSeen :
    (fault : Option ApiError) (builds : List StoredBuild) (app seen : App)
    → observe_builds fault builds app ≡ ok seen
    → HasSeen builds seen × SameBut app seen
unfolding observe_builds
observe_builds-HasSeen (some e) builds app seen h = cc
observe_builds-HasSeen none builds app seen h =
    let items = sort_builds (select (is_of app) builds) in
    let status : AppStatus = record app.status {
      latest_build = latest_name items app.status.latest_build;
      image = first_image items app.status.image;
    } in
    let same : record app { status = status } ≡ seen = cc in
    subst (λ x. HasSeen builds x × SameBut app x) same
      (
        (latest_name_again items app.status.latest_build, first_image_again items app.status.image),
        refl,
      )

pub observe_builds_again :
    (builds : List StoredBuild) (app : App)
    → HasSeen builds app
    → observe_builds none builds app ≡ ok app
unfolding observe_builds
observe_builds_again builds app (latest, image) =
    λ i. ok (record app { status = record app.status { latest_build = latest i; image = image i } })

module _ (lib : Library) where
  pub update_status_ok :
      (io : Io) (app fin : App) (w : World) (ws : List Write)
      → w.app ≡ some app
      → fin ≡ record app { status = fin.status }
      → (update_status lib io app.status fin w ws).error ≡ none
      → (update_status lib io app.status fin w ws).world
        ≡ record w { app = some (observed lib fin) }
  unfolding update_status
  update_status_ok io app fin w ws stored same fine =
      elim (Bool-cases (status_eq app.status (observed lib fin).status)) [
        | inl eq ↦
            let with_status : AppStatus → App = λ s. record app { status = s } in
            let written_before : app.status ≡ (observed lib fin).status =
              status_eq_sound app.status (observed lib fin).status eq in
            let finished : App → App = λ f. record f { status = (observed lib fin).status } in
            let as_before : app ≡ observed lib fin =
              ap with_status written_before ∙ sym (ap finished same) in
            let kept : (update_status lib io app.status fin w ws).world ≡ w = ground (arith, eq) in
            let with_app : Option App → World = λ a. record w { app = a } in
            kept ∙ ap with_app (stored ∙ ap some as_before)
        | inr changed ↦ elim (Option-cases io.update_status) [
          | inl e ↦ ground arith
          | inr (e, e') ↦ ground arith
        ]
      ]

  pub update_status_same :
      (io : Io) (before : AppStatus) (fin : App) (w : World) (ws : List Write)
      → before ≡ (observed lib fin).status
      → update_status lib io before fin w ws ≡ record { world = w; writes = ws; error = none }
  unfolding update_status
  update_status_same io before fin w ws h = ground (arith, h, status_eq_refl before)
