-- ===== src/Operator/Kube/Instances.antt =====
-- Functions that behave as the interfaces of `Kube` say, for tests.
use orkano.Prelude.{
  ◌≡◌, ◌≢◌, refl, sym, ap, ◌∙◌, inl, inr, Text, text_eq, text_eq_iff, text_eq_refl, lit, List, [],
  ◌∷◌, Option, none, some, true, false, Result, ok, err, arith, if◌then◌else◌, Bool-cases,
}
use orkano.Operator.Kube.{
  ApiError, Access, Upserted, current, kept, failed, Upserts, unread, refused, unchanged, unwritten,
  written, CreateOrUpdate, ControllerReference, Claims, StatusConditions, find_condition,
}

module _ {O : Type 0} (same : Discrete O) (stamp : O → O) where
  abbrev put : Option ApiError → Option O → O → Upserted O
  put (some e) stored o = failed e stored
  put none stored o = record {
    stored = some (kept stamp stored o);
    result = ok (kept stamp stored o);
    wrote = true;
  }

  abbrev finish : Option ApiError → Option O → O → Upserted O
  finish write none o = put write none o
  finish write (some old) o = elim (same old o) [
    | yes e ↦ record { stored = some old; result = ok o; wrote = false }
    | no n ↦ put write (some old) o
  ]

  abbrev answer : Option ApiError → Option ApiError → Option O → Result ApiError O → Upserted O
  answer (some e) write stored made = failed e stored
  answer none write stored (err e) = failed e stored
  answer none write stored (ok o) = finish write stored o

  module _ (blank : O) (mutate : O → Result ApiError O) (io : Access) where
    put-Upserts :
        (stored : Option O) (write : Option ApiError) (o : O)
        → io.read ≡ none
        → io.write ≡ write
        → mutate (current stamp blank stored) ≡ ok o
        → stored ≢ some o
        → Upserts stamp blank mutate io stored (put write stored o)
    put-Upserts stored (some e) o r w m n = unwritten o e r m n w refl
    put-Upserts stored none o r w m n = written o r m n w refl

    finish-Upserts :
        (stored : Option O) (o : O)
        → io.read ≡ none
        → mutate (current stamp blank stored) ≡ ok o
        → Upserts stamp blank mutate io stored (finish io.write stored o)
    finish-Upserts none o r m = put-Upserts none io.write o r refl m (λ e. cc)
    finish-Upserts (some old) o r m =
        elim (same old o)
          as (λ d. Upserts stamp blank mutate io (some old) (elim d [
            | yes e ↦ record { stored = some old; result = ok o; wrote = false }
            | no n ↦ put io.write (some old) o
          ])) [
            | yes e ↦ unchanged o r (ap some e) (ap mutate (sym e) ∙ m) refl
            | no n ↦ put-Upserts (some old) io.write o r refl m (λ e. n (cc))
          ]

    pub answer-Upserts :
        (stored : Option O) (read : Option ApiError) (made : Result ApiError O)
        → io.read ≡ read
        → mutate (current stamp blank stored) ≡ made
        → Upserts stamp blank mutate io stored (answer read io.write stored made)
    answer-Upserts stored (some e) made r m = unread e r refl
    answer-Upserts stored none (err e) r m = refused e r m refl
    answer-Upserts stored none (ok o) r m = finish-Upserts stored o r m

  abbrev pub writing : CreateOrUpdate stamp
  writing = record {
    run = λ blank mutate io stored.
        answer io.read io.write stored (mutate (current stamp blank stored));
    run-Upserts = λ blank mutate io stored.
        answer-Upserts blank mutate io stored io.read (mutate (current stamp blank stored)) refl
          refl;
  }

abbrev claimed : Text → Option Text → Result ApiError Text
claimed uid none = ok uid
claimed uid (some other) =
    if text_eq other uid
    then ok uid
    else err (record { conflict = false; message = lit "already owned" })

pub claimed-Claims : (uid : Text) (owner : Option Text) → Claims uid owner (claimed uid owner)
claimed-Claims uid none = refl
claimed-Claims uid (some other) = elim (Bool-cases (text_eq other uid)) [
  | inl e ↦ inl ((text_eq_iff other uid).0 e, ground (arith, e))
  | inr e ↦ inr (
    λ h. ground (arith, e, text_eq_iff other uid),
    (record { conflict = false; message = lit "already owned" }, ground (arith, e)),
  )
]

abbrev pub claiming : ControllerReference
claiming = record { claim = claimed; claim-Claims = claimed-Claims }

module _ (C : Type 0) (kind : C → Text) where
  abbrev set_condition : C → List C → List C
  set_condition c [] = c ∷ []
  set_condition c (d ∷ ds) =
      let rest = set_condition c ds in if text_eq (kind d) (kind c) then c ∷ ds else d ∷ rest

  pub find_condition-set_condition :
      (c : C) (k : Text) (cs : List C)
      → find_condition C kind k (set_condition c cs)
        ≡ (if text_eq (kind c) k then some c else find_condition C kind k cs)
  unfolding find_condition
  find_condition-set_condition c k [] = refl
  find_condition-set_condition c k (d ∷ ds) = ground (
    arith,
    text_eq_iff (kind d) (kind c),
    text_eq_iff (kind c) k,
    text_eq_iff (kind d) k,
    find_condition-set_condition c k ds,
  )

  pub set_condition_again :
      (c : C) (cs : List C) → set_condition c (set_condition c cs) ≡ set_condition c cs
  set_condition_again c [] = ground (arith, text_eq_refl (kind c))
  set_condition_again c (d ∷ ds) = ground (arith, text_eq_refl (kind c), set_condition_again c ds)

  abbrev pub setting : StatusConditions C kind
  setting = record {
    set = set_condition;
    find_condition-set = find_condition-set_condition;
    set_again = set_condition_again;
  }
