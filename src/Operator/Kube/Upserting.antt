-- ===== src/Operator/Kube/Upserting.antt =====
-- `controllerutil.CreateOrUpdate`, as operator/internal/controller uses it.
use orkano.Prelude.{◌≡◌, sym, ap, ◌∙◌, Option, none, some, false, Result, ok}
use mathlib.Core.Path.{subst}
use orkano.Operator.Kube.{
  ApiError, Access, Upserted, current, kept, unread, refused, unchanged, unwritten, written,
  CreateOrUpdate, failed,
}

module _ {O : Type 0} {stamp : O → O} (cu : CreateOrUpdate stamp) (blank : O) where
  same_ok : {r : Result ApiError O} {a b : O} → r ≡ ok a → r ≡ ok b → a ≡ b
  same_ok h k = cc

  -- An object that the mutation leaves as it is, is neither written nor changed.
  pub run-unchanged :
      (mutate : O → Result ApiError O) (io : Access) (o : O)
      → io.read ≡ none
      → mutate o ≡ ok o
      → cu.run blank mutate io (some o) ≡ record { stored = some o; result = ok o; wrote = false }
  run-unchanged mutate io o r m = elim (cu.run-Upserts blank mutate io (some o)) [
    | unread e e' q ↦ cc
    | refused e r' q p ↦ cc
    | unchanged o' r' s m' p ↦ cc
    | unwritten o' e r' m' n w p ↦ absurd (n (ap some (same_ok m m')))
    | written o' r' m' n w p ↦ absurd (n (ap some (same_ok m m')))
  ]

  -- A call fails and changes nothing, or leaves and returns what the mutation made of the object
  -- before, as the server keeps it.
  pub data Ran (mutate : O → Result ApiError O) (stored : Option O) (u : Upserted O) : Type 0 where
    fails : (e : ApiError) → u ≡ failed e stored → Ran mutate stored u
    leaves :
        (m : O)
        → mutate (current stamp blank stored) ≡ ok m
        → u.stored ≡ some (kept stamp stored m)
        → u.result ≡ ok (kept stamp stored m)
        → Ran mutate stored u

  pub run-Ran :
      (mutate : O → Result ApiError O) (io : Access) (stored : Option O)
      → Ran mutate stored (cu.run blank mutate io stored)
  run-Ran mutate io stored = elim (cu.run-Upserts blank mutate io stored) [
    | unread e r p ↦ fails e p
    | refused e r m p ↦ fails e p
    | unchanged o r s m p ↦
        leaves o (ap (λ x. mutate (current stamp blank x)) s ∙ m)
          (ap (λ u. u.stored) p ∙ s ∙ ap (λ x. some (kept stamp x o)) (sym s))
          (ap (λ u. u.result) p ∙ ap (λ x. ok (kept stamp x o)) (sym s))
    | unwritten o e r m n w p ↦ fails e p
    | written o r m n w p ↦ leaves o m (ap (λ u. u.stored) p) (ap (λ u. u.result) p)
  ]

  -- After a call that succeeded, a call finds nothing to do, where the mutation finds its own result
  -- as it is.
  pub run_again :
      (mutate : O → Result ApiError O) (io : Access) (stored : Option O)
      → ((d m : O) (s : Option O) → mutate d ≡ ok m → mutate (kept stamp s m) ≡ ok (kept stamp s m))
      → (o : O) → (cu.run blank mutate io stored).result ≡ ok o
      → (calm : Access) → calm.read ≡ none
      → cu.run blank mutate calm (cu.run blank mutate io stored).stored
        ≡ record { stored = some o; result = ok o; wrote = false }
  run_again mutate io stored steady o done calm r = elim (run-Ran mutate io stored) [
    | fails e p ↦ cc
    | leaves m made s k ↦
        let same : o ≡ kept stamp stored m = same_ok done k in
        subst
          (λ x.
            cu.run blank mutate calm x ≡ record { stored = some o; result = ok o; wrote = false })
          (sym s)
          (subst
            (λ x.
              cu.run blank mutate calm (some x)
              ≡ record { stored = some o; result = ok o; wrote = false })
            same
            (run-unchanged mutate calm o r
              (subst (λ x. mutate x ≡ ok x) (sym same) (steady _ m stored made))))
  ]

  pub run-stored :
      (mutate : O → Result ApiError O) (io : Access) (stored : Option O) (o : O)
      → (cu.run blank mutate io stored).result ≡ ok o
      → (cu.run blank mutate io stored).stored ≡ some o
  run-stored mutate io stored o done = elim (run-Ran mutate io stored) [
    | fails e p ↦ cc
    | leaves m made s k ↦ s ∙ ap some (sym (same_ok done k))
  ]
