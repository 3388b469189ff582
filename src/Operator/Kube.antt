-- ===== src/Operator/Kube.antt =====
-- What the App and Domain controllers of operator/internal/controller use of controller-runtime and
-- apimachinery, as interfaces with the behaviour that those libraries document.
pub mod Upserting
pub mod Instances
use orkano.Prelude.{
  ◌≡◌, ◌≢◌, ◌⊎◌, inl, inr, refl, Text, text_eq, List, [], ◌∷◌, Option, none, some, Bool, true,
  false, Result, ok, err, ◌++◌, if◌then◌else◌, is_some, not, ◌&&◌, ap, arith,
}

-- An error of the API, and whether `apierrors.IsConflict` holds of it.
pub record ApiError : Type 0 where
  pub conflict : Bool
  pub message : Text

-- `fmt.Errorf("…: %w", err)`.
abbrev pub wrap : Text → ApiError → ApiError
wrap context e = record e { message = context ++ e.message }

-- What the read and the write of one call answer, where they fail.
pub record Access : Type 0 where
  pub read : Option ApiError
  pub write : Option ApiError

-- What a Delete answers; `client.IgnoreNotFound` passes over `gone`.
pub data Deletion : Type 0 where
  done gone : Deletion
  undeleted : ApiError → Deletion

pub record Upserted (O : Type 0) : Type 0 where
  pub stored : Option O
  pub result : Result ApiError O
  pub wrote : Bool

abbrev pub failed : {O : Type 0} → ApiError → Option O → Upserted O
failed e stored = record { stored = stored; result = err e; wrote = false }

module _ {O : Type 0} (stamp : O → O) where
  abbrev pub current : O → Option O → O
  current blank none = blank
  current blank (some o) = o

  -- What the server keeps of a written object: it stamps one that it creates.
  abbrev pub kept : Option O → O → O
  kept none o = stamp o
  kept (some _) o = o

  -- `controllerutil.CreateOrUpdate`: it reads the object, lets `mutate` change it, and creates it
  -- where there was none, or writes it where it changed.
  pub data Upserts (blank : O) (mutate : O → Result ApiError O) (io : Access) (stored : Option O)
      (u : Upserted O) : Type 0 where
    unread :
        (e : ApiError) → io.read ≡ some e → u ≡ failed e stored → Upserts blank mutate io stored u
    refused :
        (e : ApiError)
        → io.read ≡ none
        → mutate (current blank stored) ≡ err e
        → u ≡ failed e stored
        → Upserts blank mutate io stored u
    unchanged :
        (o : O)
        → io.read ≡ none
        → stored ≡ some o
        → mutate o ≡ ok o
        → u ≡ record { stored = stored; result = ok o; wrote = false }
        → Upserts blank mutate io stored u
    unwritten :
        (o : O) (e : ApiError)
        → io.read ≡ none
        → mutate (current blank stored) ≡ ok o
        → stored ≢ some o
        → io.write ≡ some e
        → u ≡ failed e stored
        → Upserts blank mutate io stored u
    written :
        (o : O)
        → io.read ≡ none
        → mutate (current blank stored) ≡ ok o
        → stored ≢ some o
        → io.write ≡ none
        → u ≡ record { stored = some (kept stored o); result = ok (kept stored o); wrote = true }
        → Upserts blank mutate io stored u

  pub record CreateOrUpdate : Type 0 where
    pub run : O → (O → Result ApiError O) → Access → Option O → Upserted O
    pub run-Upserts :
        (blank : O) (mutate : O → Result ApiError O) (io : Access) (stored : Option O)
        → Upserts blank mutate io stored (run blank mutate io stored)

-- `controllerutil.SetControllerReference` on the UID of an object's controlling owner.
abbrev pub Claims : Text → Option Text → Result ApiError Text → Type 0
Claims uid none r = r ≡ ok uid
Claims uid (some other) r =
    ((other ≡ uid) × (r ≡ ok uid)) ⊎ ((other ≢ uid) × ((e : ApiError) × (r ≡ err e)))

pub record ControllerReference : Type 0 where
  pub claim : Text → Option Text → Result ApiError Text
  pub claim-Claims : (uid : Text) (owner : Option Text) → Claims uid owner (claim uid owner)

-- How the controllers take an object: never one that they did not create, and none that another
-- owner controls. The answer is the owner that the object has then.
unfoldable pub adopt :
    ControllerReference → Text → Bool → Option Text → ApiError → Result ApiError Text
adopt r uid created owner refusal =
    if created && not (is_some owner) then err refusal else r.claim uid owner

pub adopt-ok :
    (r : ControllerReference) (uid : Text) (created : Bool) (owner : Option Text) (e : ApiError)
    (u : Text)
    → adopt r uid created owner e ≡ ok u
    → u ≡ uid
unfolding adopt
adopt-ok r uid created none e u h = ground (arith, r.claim-Claims uid none)
adopt-ok r uid created (some other) e u h = ground (arith, r.claim-Claims uid (some other))

pub adopt_own :
    (r : ControllerReference) (uid : Text) (created : Bool) (e : ApiError)
    → adopt r uid created (some uid) e ≡ ok uid
unfolding adopt
adopt_own r uid created e = ground (arith, r.claim-Claims uid (some uid))

-- What is taken was not there, or one's own.
pub adopt_takes :
    (r : ControllerReference) (uid : Text) (created : Bool) (owner : Option Text) (e : ApiError)
    (u : Text)
    → adopt r uid created owner e ≡ ok u
    → (created ≡ false) ⊎ (owner ≡ some uid)
unfolding adopt
adopt_takes r uid false owner e u h = inl refl
adopt_takes r uid true none e u h = cc
adopt_takes r uid true (some other) e u h = elim (r.claim-Claims uid (some other)) [
  | inl (same, _) ↦ inr (ap some same)
  | inr (_, (why, k)) ↦ cc
]

-- `meta.FindStatusCondition` and `meta.SetStatusCondition`, for conditions of a type `C`: the condition
-- of that kind is as given afterwards, those of other kinds stay, and setting it again changes nothing.
module _ (C : Type 0) (kind : C → Text) where
  unfoldable pub find_condition : Text → List C → Option C
  find_condition k [] = none
  find_condition k (c ∷ cs) = if text_eq (kind c) k then some c else find_condition k cs

  pub record StatusConditions : Type 0 where
    pub set : C → List C → List C
    pub find_condition-set :
        (c : C) (k : Text) (cs : List C)
        → find_condition k (set c cs) ≡ (if text_eq (kind c) k then some c else find_condition k cs)
    pub set_again : (c : C) (cs : List C) → set c (set c cs) ≡ set c cs
