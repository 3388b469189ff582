-- ===== src/Receiver/Redelivery.antt =====
-- `Webhook` of receiver/internal/webhook/webhook.go on more than one request: redeliveries,
-- forgeries, and the table's constraints over time.
use mathlib.Core.Path.{subst}
use orkano.Prelude.{
  ◌≡◌, refl, ap, ◌∙◌, sym, lit, text_eq_refl, List, [], ◌∷◌, ◌++◌, true, false, ok, err, ◌>>=◌,
  arith, In, inl, inr, ◌⊎◌, Result-cases,
}
use orkano.Prelude.Trimming.{to_lower}
use orkano.Receiver.{
  Host, Handler, Request, World, Response, SourceError, respond, reject, repositories, authenticate,
  pointer, ring, webhook,
}
use orkano.Receiver.Queue.{Delivery, enqueue_delivery, holds, in_bounds, holds-append}
use orkano.Receiver.Gates.{Authentic, authenticate_ok, authenticate_err, pointer_err, webhook_gates}

holds_left : (d : Delivery) (q more : List Delivery) → holds d q ≡ true → holds d (q ++ more) ≡ true
holds_left d [] more h = cc
holds_left d (e ∷ q) more h = ground (arith, holds_left d q more)

module _ (host : Host) where
  -- An accepted request, by what it made of the queue.
  record Rung (w : World) (h : Handler) (r : Request) (q : List Delivery) : Type 0 where
    row : Delivery
    passed : (authenticate host h r >>= pointer host w h r) ≡ ok row
    up : w.db_fails ≡ false
    fits : in_bounds host.char_length row ≡ true
    held : holds row (webhook host w h r q).1 ≡ true

  rung :
      (w : World) (h : Handler) (r : Request) (q : List Delivery)
      → (webhook host w h r q).0.status ≡ 202
      → Rung w h r q
  unfolding webhook ring enqueue_delivery respond reject
  rung w h r q s = elim (Result-cases (authenticate host h r >>= pointer host w h r)) [
    | inl (o, e) ↦
        let no : ⊥ = elim (Result-cases (authenticate host h r)) [
          | inl (o', a) ↦ authenticate_err host h r a (ground arith)
          | inr (body, a) ↦ pointer_err host w h r body {o = o} (ground arith) (ground arith)
        ] in
        elim no [ ]
    | inr (d, e) ↦ record {
      row = d;
      passed = e;
      up = ground arith;
      fits = ground arith;
      held = ground (arith, holds-append d d q, text_eq_refl d.delivery_id);
    }
  ]

  webhook_passed :
      (w : World) (h : Handler) (r : Request) (d : Delivery) (q : List Delivery)
      → (authenticate host h r >>= pointer host w h r) ≡ ok d
      → webhook host w h r q ≡ ring host w d q
  unfolding webhook
  webhook_passed w h r d q e = ground arith

  ring_held :
      (w : World) (d : Delivery) (q : List Delivery)
      → w.db_fails ≡ false
      → in_bounds host.char_length d ≡ true
      → holds d q ≡ true
      → ring host w d q ≡ (respond 202 [] (lit "accepted"), q)
  unfolding ring enqueue_delivery
  ring_held w d q u b h = ground arith

  -- A delivery that was accepted and comes again, whatever was queued in between, is answered 202
  -- and writes nothing.
  pub redelivery :
      (w : World) (h : Handler) (r : Request) (q more : List Delivery)
      → (webhook host w h r q).0.status ≡ 202
      → webhook host w h r ((webhook host w h r q).1 ++ more)
        ≡ (respond 202 [] (lit "accepted"), (webhook host w h r q).1 ++ more)
  redelivery w h r q more s =
      let g = rung w h r q s in
      let later = (webhook host w h r q).1 ++ more in
      webhook_passed w h r g.row later g.passed
      ∙ ring_held w g.row later g.up g.fits (holds_left g.row (webhook host w h r q).1 more g.held)

  authenticate_same :
      (h : Handler) (r r' : Request)
      → r.method ≡ r'.method
      → r.body ≡ r'.body
      → r.signature ≡ r'.signature
      → authenticate host h r ≡ authenticate host h r'
  unfolding authenticate
  authenticate_same h r r' m b s = rw (m, b, s) refl

  webhook_stopped :
      (w : World) (h : Handler) (r : Request) (q : List Delivery) {o : Response}
      → authenticate host h r ≡ err o
      → webhook host w h r q ≡ (o, q)
  unfolding webhook
  webhook_stopped w h r q e = ground arith

  -- A request that is not authentic is answered alike whatever its event, its delivery id, the
  -- files, the database and the queue are, and no queue changes: nothing behind the signature is
  -- read before the signature is checked.
  pub unauthentic_blind :
      (h : Handler) (w w' : World) (r r' : Request) (q q' : List Delivery)
      → r.method ≡ r'.method
      → r.body ≡ r'.body
      → r.signature ≡ r'.signature
      → (Authentic host h r → ⊥)
      → ((webhook host w h r q).1 ≡ q) × (webhook host w' h r' q' ≡ ((webhook host w h r q).0, q'))
  unauthentic_blind h w w' r r' q q' m b s n = elim (Result-cases (authenticate host h r)) [
    | inr (body, e) ↦ let no : ⊥ = n (authenticate_ok host h r e).1 in elim no [ ]
    | inl (o, e) ↦
        let here = webhook_stopped w h r q e in
        let there = webhook_stopped w' h r' q' (sym (authenticate_same h r r' m b s) ∙ e) in
        (ap (λ z. z.1) here, there ∙ ap (λ z. (z.0, q')) (sym here))
  ]

  -- A policy that cannot be read or parsed, or that is empty, lets nothing in.
  pub fails_closed :
      (w : World) (h : Handler) (r : Request) (q : List Delivery)
      → ((e : SourceError) × (repositories host w h ≡ err e)) ⊎ (repositories host w h ≡ ok [])
      → ¬ ((webhook host w h r q).0.status ≡ 202) × ((webhook host w h r q).1 ≡ q)
  fails_closed w h r q closed = elim (webhook_gates host w h r q) [
    | inr refused ↦ refused
    | inl a ↦
        let (policy, p, m) = a.is_pointer.listed in
        let no : ⊥ = elim closed [
          | inl (e, x) ↦ ground arith
          | inr x ↦
              let none_listed : policy ≡ [] = ground arith in
              subst (λ l. In (to_lower host.unicode_lower a.row.repo) l) none_listed m
        ] in
        elim no [ ]
  ]
