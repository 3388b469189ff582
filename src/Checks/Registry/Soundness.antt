-- ===== src/Checks/Registry/Soundness.antt =====
-- The registry of internal/checks/registry.go: what `Register` keeps and what it refuses.
use orkano.Prelude.{
  ◌≤◌, ◌≡◌, refl, Text, text_eq, text_eq_iff, is_empty, List, [], ◌∷◌, ◌++◌, true, false, none,
  some, is_some, if◌then◌else◌, ok, arith, ltb,
}
use orkano.Prelude.Counts.{count, count-append}
use orkano.Checks.{Check}
use orkano.Prelude.Maps.{lookup, lookup-insert}
use orkano.Checks.Registry.{
  Registry, new, get, contains, dedupe_from, dedupe, register, known_severity,
}

contains_iff : (x : Text) (xs : List Text) → contains x xs ≡ ltb 0 (count x xs)
contains_iff x [] = refl
contains_iff x (y ∷ ys) = ground (arith, contains_iff x ys)

count-dedupe_from :
    (x : Text) (seen ids : List Text)
    → count x (dedupe_from seen ids)
      ≡ (if ltb 0 (count x seen) then 0 else if ltb 0 (count x ids) then 1 else 0)
unfolding dedupe_from
count-dedupe_from x seen [] = ground arith
count-dedupe_from x seen (id ∷ ids) = ground (
  arith,
  contains_iff id seen,
  count-dedupe_from x seen ids,
  count-dedupe_from x (id ∷ seen) ids,
  text_eq_iff x id,
)

-- What `dedupe` returns holds exactly the ids that it was given, each once.
pub count-dedupe :
    (x : Text) (ids : List Text) → count x (dedupe ids) ≡ (if ltb 0 (count x ids) then 1 else 0)
unfolding dedupe
count-dedupe x [] = ground arith
count-dedupe x (y ∷ []) = ground arith
count-dedupe x (y ∷ z ∷ ids) = ground (arith, count-dedupe_from x [] (y ∷ z ∷ ids))

-- What holds of every registry that `Register` has filled.
pub record IsSound {W : Type 0} (r : Registry W) : Type 0 where
  pub listed : (x : Text) → count x r.order ≡ (if is_some (get r x) then 1 else 0)
  pub keyed : (x : Text) (c : Check W) → get r x ≡ some c → c.id ≡ x
  pub deduped : (x q : Text) (c : Check W) → get r x ≡ some c → count q c.requires ≤ 1
  pub runnable :
      (x : Text) (c : Check W)
      → get r x ≡ some c
      → (is_some c.probe ≡ true) × (known_severity c.severity ≡ true) × (is_empty c.id ≡ false)

module _ {W : Type 0} where
  pub new-IsSound : IsSound (new {W = W})
  unfolding lookup
  new-IsSound = record {
    listed = λ x. refl;
    keyed = λ x c h. cc;
    deduped = λ x q c h. cc;
    runnable = λ x c h. cc;
  }

  abbrev pub stored : Check W → Check W
  stored c = record c { requires = dedupe c.requires }

  -- A registration that succeeds adds this check under its id, last in the order, and nothing else.
  pub register_adds :
      (r : Registry W) (c : Check W) {s : Registry W}
      → register r c ≡ ok s
      → ((j : Text) → get s j ≡ (if text_eq j c.id then some (stored c) else get r j))
        × (s.order ≡ r.order ++ c.id ∷ [])
        × (get r c.id ≡ none)
        × (is_some c.probe ≡ true)
        × (known_severity c.severity ≡ true)
        × (is_empty c.id ≡ false)
  unfolding register
  register_adds r c h = (
    λ j. ground (arith, lookup-insert c.id j (stored c) r.by_id),
    ground arith,
    ground arith,
    ground arith,
    ground arith,
    ground arith,
  )

  -- A registration that succeeds keeps the registry sound: each check is filed under its own id and
  -- listed once, requires nothing twice, and has a probe, a known severity and an id.
  pub register-IsSound :
      (r : Registry W) (c : Check W) {s : Registry W} → IsSound r → register r c ≡ ok s → IsSound s
  register-IsSound r c {s} h e =
      let (adds, order, fresh, probe, severity, id) = register_adds r c e in
      record {
        listed = λ x. ground (
          arith,
          adds x,
          order,
          fresh,
          h.listed x,
          text_eq_iff x c.id,
          count-append x r.order (c.id ∷ []),
        );
        keyed = λ x d k. ground (arith, adds x, h.keyed x d, text_eq_iff x c.id);
        deduped = λ x q d k.
            ground (arith, adds x, h.deduped x q d, text_eq_iff x c.id, count-dedupe q c.requires);
        runnable = λ x d k. ground (arith, adds x, h.runnable x d, probe, severity, id);
      }
