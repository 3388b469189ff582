-- ===== src/Operator/Build/History.antt =====
-- The life of a build under operator/internal/controller/build_controller.go: reconciles, with any
-- answers and by any configuration of the operator, and a request to delete it, in any order.
use mathlib.Core.Path.{subst}
use orkano.Prelude.{◌≤◌, ◌≡◌, refl, ◌∙◌, sym, Text, List, [], ◌∷◌, true, ok, arith, All}
use orkano.Api.{Build, BuildStatus, unset, succeeded, Condition}
use orkano.Operator.Build.{
  Io, Effect, job_created, job_deleted, build_updated, status_updated, Reconciler, is_terminal,
}
use orkano.Operator.Build.Cycle.{reconcile}
use orkano.Operator.Build.Ensuring.{rank, status_after, Next}
use orkano.Operator.Build.Closed.{reconcile-Next}

pub data Event : Type 0 where
  reconciled : Reconciler → Io → Event
  deletion_requested : Event

-- What the API server stores of the writes: the status, and the finalizers.
abbrev pub stored : List Effect → Build → Build
stored [] b = b
stored (status_updated b' ∷ es) b = stored es (record b { status = b'.status })
stored (build_updated b' ∷ es) b = stored es (record b { finalizers = b'.finalizers })
stored (job_created _ ∷ es) b = stored es b
stored (job_deleted _ ∷ es) b = stored es b

stored-status : (es : List Effect) (b : Build) → (stored es b).status ≡ status_after es b.status
stored-status [] b = refl
stored-status (status_updated b' ∷ es) b = stored-status es (record b { status = b'.status })
stored-status (build_updated b' ∷ es) b = stored-status es (record b { finalizers = b'.finalizers })
stored-status (job_created _ ∷ es) b = stored-status es b
stored-status (job_deleted _ ∷ es) b = stored-status es b

module _ (sha : Text → Text) (set : Condition → List Condition → List Condition) where
  unfoldable pub step : Event → Build → Build
  unfolding reconcile
  step (reconciled rc io) b = stored (reconcile sha set rc io b).effects b
  step deletion_requested b = record b { deleted = true }

  unfoldable pub history : List Event → Build → Build
  unfolding step
  history [] b = b
  history (e ∷ es) b = history es (step e b)

module _ (sha : Text → Text) (set : Condition → List Condition → List Condition)
    (Pinned : Text → Type 0) where
  -- The registry's answers are pinned images.
  abbrev pub Pins : Event → Type 0
  Pins (reconciled rc io) = (ref image : Text) → io.resolve_digest ref ≡ ok image → Pinned image
  Pins deletion_requested = Unit

  step-Next :
      (e : Event) (b : Build)
      → Pins e
      → (b.status.phase ≡ succeeded → Pinned b.status.image)
      → Next sha set Pinned b.status (step sha set e b).status
        × (is_terminal b.status.phase ≡ true → (step sha set e b).status ≡ b.status)
  unfolding step
  step-Next (reconciled rc io) b pins held =
      let (next, keeps) = reconcile-Next sha set Pinned rc io pins b held in
      let same = stored-status (reconcile sha set rc io b).effects b in
      (subst (Next sha set Pinned b.status) (sym same) next, λ k. same ∙ keeps k)
  step-Next deletion_requested b pins held =
      (record { forward = omega arith; pinned = held }, λ k. refl)

  history-Next :
      (es : List Event) (b : Build)
      → All Pins es
      → (b.status.phase ≡ succeeded → Pinned b.status.image)
      → Next sha set Pinned b.status (history sha set es b).status
        × (is_terminal b.status.phase ≡ true → (history sha set es b).status ≡ b.status)
  unfolding history
  history-Next [] b pins held = (record { forward = omega arith; pinned = held }, λ k. refl)
  history-Next (e ∷ es) b (p, pins) held =
      let (first, keeps) = step-Next e b p held in
      let b' = step sha set e b in
      let (rest, kept) = history-Next es b' pins first.pinned in
      (
        record { forward = omega (arith, first.forward, rest.forward); pinned = rest.pinned },
        λ k.
            kept (subst (λ (s : BuildStatus). is_terminal s.phase ≡ true) (sym (keeps k)) k)
            ∙ keeps k,
      )

  -- A build that was new and has succeeded since, after any history, names an image that the
  -- registry resolved; where what the registry resolves is pinned, so is the build's image.
  pub history-Pinned :
      (es : List Event) (b : Build)
      → All Pins es
      → b.status.phase ≡ unset
      → (history sha set es b).status.phase ≡ succeeded
      → Pinned (history sha set es b).status.image
  history-Pinned es b pins new done =
      (history-Next es b pins (λ k. let no : ⊥ = ground arith in elim no [ ])).0.pinned done

module _ (sha : Text → Text) (set : Condition → List Condition → List Condition) where
  abbrev Anything : Text → Type 0
  Anything image = Unit

  any-Pins : (es : List Event) → All (Pins sha set Anything) es
  any-Pins [] = tt
  any-Pins (reconciled rc io ∷ es) = (λ ref image e. tt, any-Pins es)
  any-Pins (deletion_requested ∷ es) = (tt, any-Pins es)

  -- Over any history the phase of a build only goes forward, from none over pending and running to
  -- an end: a running build never reads as pending again.
  pub history_forward :
      (es : List Event) (b : Build) → rank b.status.phase ≤ rank (history sha set es b).status.phase
  history_forward es b = (history-Next sha set Anything es b (any-Pins es) (λ k. tt)).0.forward

  -- A build that has ended is a closed record: no history changes its status, deletion included.
  pub history_closed :
      (es : List Event) (b : Build)
      → is_terminal b.status.phase ≡ true
      → (history sha set es b).status ≡ b.status
  history_closed es b t = (history-Next sha set Anything es b (any-Pins es) (λ k. tt)).1 t
