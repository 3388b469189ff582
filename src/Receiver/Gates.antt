-- ===== src/Receiver/Gates.antt =====
-- The gates of `Webhook` in receiver/internal/webhook/webhook.go: what a row in the queue proves.
use mathlib.Core.Path.{subst}
use orkano.Prelude.{
  ◌≤◌, ◌<◌, ◌≡◌, refl, sym, Text, lit, text_eq, text_eq_iff, List, [], ◌∷◌, ◌++◌, true, false,
  if◌then◌else◌, length, ok, err, some, any_of, arith, In, inl, inr, ◌⊎◌, Bool-cases, Result-cases,
  Option-cases, >>=-eq-ok,
}
use orkano.Prelude.Trimming.{to_lower}
use orkano.Receiver.{
  Host, Handler, Request, World, Response, read_body, respond, reject, ack, repositories, allowed,
  valid_signature, push_only, authenticate, pointer, ring, webhook, max_delivery_id_len,
  max_repo_len,
}
use orkano.Receiver.Queue.{Delivery, enqueue_delivery, holds}

any_of_In : (s : Text) (rs : List Text) → any_of (λ r. text_eq r s) rs ≡ true → In s rs
any_of_In s [] h = cc
any_of_In s (r ∷ rs) h = elim (Bool-cases (text_eq r s)) [
  | inl e ↦ inl (sym ((text_eq_iff r s).0 e))
  | inr n ↦ inr (any_of_In s rs (ground (arith, h, n)))
]

module _ (host : Host) where
  -- A request is authentic: a POST whose whole body fits and carries the secret's HMAC.
  pub record Authentic (h : Handler) (r : Request) : Type 0 where
    pub post : r.method ≡ lit "POST"
    pub fits : length r.body.bytes ≤ h.max_body
    pub whole : r.body.broken ≡ false
    pub signed : r.signature ≡ lit "sha256=" ++ host.hmac_hex h.secret r.body.bytes

  -- The row `d` is what an authentic push of an allowlisted repository may write, and only that.
  pub record IsPointer (w : World) (h : Handler) (r : Request) (d : Delivery) : Type 0 where
    pub push : r.event ≡ lit "push"
    pub event : d.event_type ≡ lit "push"
    pub id : d.delivery_id ≡ r.delivery
    pub id_bounds : (0 < length d.delivery_id) × (length d.delivery_id ≤ max_delivery_id_len)
    pub repo : host.decode r.body.bytes ≡ some d.repo
    pub repo_bounds : (0 < length d.repo) × (length d.repo ≤ max_repo_len)
    pub listed :
        (policy : List Text) × (repositories host w h ≡ ok policy)
        × In (to_lower host.unicode_lower d.repo) policy

  pub authenticate_ok :
      (h : Handler) (r : Request) {body : Text}
      → authenticate host h r ≡ ok body
      → (body ≡ r.body.bytes) × Authentic h r
  unfolding authenticate read_body valid_signature
  authenticate_ok h r e = (
    ground arith,
    record {
      post = (text_eq_iff r.method (lit "POST")).0 (ground arith);
      fits = ground arith;
      whole = ground arith;
      signed = sym (
          (text_eq_iff (lit "sha256=" ++ host.hmac_hex h.secret r.body.bytes) r.signature).0
            (ground arith));
    },
  )

  pub authenticate_err :
      (h : Handler) (r : Request) {o : Response}
      → authenticate host h r ≡ err o
      → (o.status ≡ 202)
      → ⊥
  unfolding authenticate read_body valid_signature respond reject
  authenticate_err h r e a = ground arith

  pub pointer_err :
      (w : World) (h : Handler) (r : Request) (body : Text) {o : Response}
      → pointer host w h r body ≡ err o
      → (o.status ≡ 202)
      → ⊥
  unfolding pointer push_only reject ack respond
  pointer_err w h r body e a = elim (Option-cases (host.decode body)) [
    | inl n ↦ ground arith
    | inr (repo, s) ↦ elim (Result-cases (allowed host w h repo)) [
      | inl (x, l) ↦ ground arith
      | inr (b, l) ↦ ground arith
    ]
  ]

  allowed_ok :
      (w : World) (h : Handler) (repo : Text)
      → allowed host w h repo ≡ ok true
      → (policy : List Text) × (repositories host w h ≡ ok policy)
        × In (to_lower host.unicode_lower repo) policy
  unfolding allowed
  allowed_ok w h repo e =
      let (policy, p, m) =
        >>=-eq-ok (repositories host w h)
          (λ rs. ok (any_of (λ r. text_eq r (to_lower host.unicode_lower repo)) rs)) e in
      (policy, p, any_of_In (to_lower host.unicode_lower repo) policy (ground arith))

  pub pointer_ok :
      (w : World) (h : Handler) (r : Request) {d : Delivery}
      → pointer host w h r r.body.bytes ≡ ok d
      → IsPointer w h r d
  unfolding pointer push_only
  pointer_ok w h r {d} e = elim (Option-cases (host.decode r.body.bytes)) [
    | inl n ↦ let no : ⊥ = ground arith in elim no [ ]
    | inr (repo, s) ↦
        let l : allowed host w h repo ≡ ok true = elim (Result-cases (allowed host w h repo)) [
          | inl (x, l) ↦ ground arith
          | inr (b, l) ↦ ground arith
        ] in
        let same : d ≡ record { delivery_id = r.delivery; repo = repo; event_type = r.event } =
          ground arith in
        let push : r.event ≡ lit "push" = ground (arith, text_eq_iff r.event (lit "push")) in
        subst (IsPointer w h r) (sym same) (record {
          push = push;
          event = push;
          id = refl;
          id_bounds = ground arith;
          repo = s;
          repo_bounds = ground arith;
          listed = allowed_ok w h repo l;
        })
  ]

  -- The request was accepted: it was authentic, and the queue holds its row, written unless a row
  -- with its id was there.
  pub record Accepted (w : World) (h : Handler) (r : Request) (q : List Delivery)
      (o : Response × List Delivery) : Type 0 where
    pub status : o.0.status ≡ 202
    pub authentic : Authentic h r
    pub row : Delivery
    pub is_pointer : IsPointer w h r row
    pub written : o.1 ≡ (if holds row q then q else q ++ row ∷ [])

  ring_cases :
      (w : World) (h : Handler) (r : Request) (d : Delivery) (q : List Delivery)
      → Authentic h r
      → IsPointer w h r d
      → Accepted w h r q (ring host w d q)
        ⊎ (¬ ((ring host w d q).0.status ≡ 202) × ((ring host w d q).1 ≡ q))
  unfolding ring enqueue_delivery respond reject
  ring_cases w h r d q a p =
      elim (Result-cases (enqueue_delivery host.char_length w.db_fails d q)) [
        | inl (e, x) ↦ inr (λ k. ground arith, ground arith)
        | inr ((rows, q'), x) ↦ inl (record {
          status = ground arith;
          authentic = a;
          row = d;
          is_pointer = p;
          written = ground arith;
        })
      ]

  -- Every request either is accepted, and then it passed every gate (a POST, a whole body within
  -- the bound, the secret's HMAC, a push event, bounded fields, a repository of the current policy)
  -- and the queue gained at most the pointer row made of it, or is answered otherwise than by 202,
  -- and then the queue is as it was.
  pub webhook_gates :
      (w : World) (h : Handler) (r : Request) (q : List Delivery)
      → Accepted w h r q (webhook host w h r q)
        ⊎ (¬ ((webhook host w h r q).0.status ≡ 202) × ((webhook host w h r q).1 ≡ q))
  unfolding webhook
  webhook_gates w h r q = elim (Result-cases (authenticate host h r)) [
    | inl (o, e) ↦ inr (λ k. authenticate_err h r e (ground arith), ground arith)
    | inr (body, e) ↦
        let (same, a) = authenticate_ok h r e in
        elim (Result-cases (pointer host w h r r.body.bytes)) [
          | inl (o, p) ↦ inr (λ k. pointer_err w h r r.body.bytes p (ground arith), ground arith)
          | inr (d, p) ↦
              let rung : webhook host w h r q ≡ ring host w d q = ground arith in
              subst (λ o. Accepted w h r q o ⊎ (¬ (o.0.status ≡ 202) × (o.1 ≡ q))) (sym rung)
                (ring_cases w h r d q a (pointer_ok w h r p))
        ]
  ]
