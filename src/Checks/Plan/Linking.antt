-- ===== src/Checks/Plan/Linking.antt =====
-- What the first loop of `Plan` (internal/checks/registry.go) builds: `indegree` counts an id's
-- requirements, and `dependents` is the requirements read backwards.
use orkano.Prelude.{
  ℕ, ◌+◌, ◌<◌, ◌≡◌, Text, text_eq, text_eq_iff, List, [], ◌∷◌, Bool, true, if◌then◌else◌, length,
  ok, err, arith, >>=-eq-ok, Bool-cases, Result-cases, inl, inr, text_eq_refl, false,
}
use orkano.Prelude.Counts.{count, count-append}
use orkano.Checks.Plan.{Edges, PlanError, missing_requirement, add_edge, link_requires, link}

-- `a` is `b` with the requirements `rs` of `id` added, all of them known.
record Linked (known : Text → Bool) (id : Text) (rs : List Text) (b a : Edges) : Type 0 where
  degree : (x : Text) → a.indegree x ≡ b.indegree x + (if text_eq x id then length rs else 0)
  reverse :
      (q x : Text)
      → count x (a.dependents q)
        ≡ count x (b.dependents q) + (if text_eq x id then count q rs else 0)
  all_known : (q : Text) → 0 < count q rs → known q ≡ true

link_requires-Linked :
    (known : Text → Bool) (id : Text) (rs : List Text) (b : Edges) {a : Edges}
    → link_requires known id rs b ≡ ok a
    → Linked known id rs b a
unfolding link_requires
link_requires-Linked known id [] b h = record {
  degree = λ x. ground arith;
  reverse = λ q x. ground arith;
  all_known = λ q k. elim k [ ];
}
link_requires-Linked known id (r ∷ rs) b {a} h =
    let known_r : known r ≡ true = ground arith in
    let rest : link_requires known id rs (add_edge id r b) ≡ ok a = ground arith in
    let ih = link_requires-Linked known id rs (add_edge id r b) rest in
    record {
      degree = λ x. ground (arith, ih.degree x, text_eq_iff x id);
      reverse = λ q x. ground (
        arith,
        ih.reverse q x,
        text_eq_iff x id,
        text_eq_iff q r,
        count-append x (b.dependents r) (id ∷ []),
      );
      all_known = λ q k. ground (arith, ih.all_known q, text_eq_iff q r);
    }

-- `n` for each occurrence of `x`.
abbrev pub times : Text → List Text → ℕ → ℕ
times x [] n = 0
times x (y ∷ ys) n = (if text_eq x y then n else 0) + times x ys n

pub times-zero : (x : Text) (ys : List Text) → times x ys 0 ≡ 0
times-zero x [] = omega arith
times-zero x (y ∷ ys) = ground (arith, times-zero x ys)

pub times-once : (x : Text) (ys : List Text) (n : ℕ) → count x ys ≡ 1 → times x ys n ≡ n
times-once x [] n h = absurd (omega arith)
times-once x (y ∷ ys) n h = ground (arith, times-once x ys n, times-never x ys n)
  where
    times-never : (x : Text) (ys : List Text) (n : ℕ) → count x ys ≡ 0 → times x ys n ≡ 0
    times-never x [] n h = omega arith
    times-never x (y ∷ ys) n h = ground (arith, times-never x ys n)

pub record LinkedAll (known : Text → Bool) (reqs : Text → List Text) (ids : List Text) (b a : Edges)
    : Type 0 where
  pub degree : (x : Text) → a.indegree x ≡ b.indegree x + times x ids (length (reqs x))
  pub reverse :
      (q x : Text)
      → count x (a.dependents q) ≡ count x (b.dependents q) + times x ids (count q (reqs x))
  pub all_known : (q x : Text) → 0 < count x ids → 0 < count q (reqs x) → known q ≡ true

pub link-LinkedAll :
    (known : Text → Bool) (reqs : Text → List Text) (ids : List Text) (b : Edges) {a : Edges}
    → link known reqs ids b ≡ ok a
    → LinkedAll known reqs ids b a
unfolding link
link-LinkedAll known reqs [] b h = record {
  degree = λ x. ground arith;
  reverse = λ q x. ground arith;
  all_known = λ q x k. elim k [ ];
}
link-LinkedAll known reqs (id ∷ ids) b {a} h =
    let (m, first, rest) =
      >>=-eq-ok (link_requires known id (reqs id) b) (λ e. link known reqs ids e) h in
    let one = link_requires-Linked known id (reqs id) b first in
    let ih = link-LinkedAll known reqs ids m rest in
    record {
      degree = λ x. ground (arith, ih.degree x, one.degree x, text_eq_iff x id);
      reverse = λ q x. ground (arith, ih.reverse q x, one.reverse q x, text_eq_iff x id);
      all_known = λ q x k l. ground (arith, ih.all_known q x, one.all_known q, text_eq_iff x id);
    }

-- The only error of the loop: a registered check requires one that is not registered.
pub data Unregistered (known : Text → Bool) (reqs : Text → List Text) (ids : List Text)
    (e : PlanError) : Type 0 where
  unregistered :
      (id req : Text)
      → e ≡ missing_requirement id req
      → 0 < count id ids
      → 0 < count req (reqs id)
      → known req ≡ false
      → Unregistered known reqs ids e

link_requires_error :
    (known : Text → Bool) (id : Text) (rs : List Text) (b : Edges) {e : PlanError}
    → link_requires known id rs b ≡ err e
    → (req : Text) × (e ≡ missing_requirement id req) × (0 < count req rs) × (known req ≡ false)
unfolding link_requires
link_requires_error known id [] b h = cc
link_requires_error known id (r ∷ rs) b {e} h = elim (Bool-cases (known r)) [
  | inl k ↦
      let rest : link_requires known id rs (add_edge id r b) ≡ err e = ground arith in
      let (q, e', there, new) = link_requires_error known id rs (add_edge id r b) rest in
      (q, e', omega (arith, there), new)
  | inr k ↦ (r, ground arith, ground (arith, text_eq_refl r), k)
]

pub link_error :
    (known : Text → Bool) (reqs : Text → List Text) (ids : List Text) (b : Edges) {e : PlanError}
    → link known reqs ids b ≡ err e
    → Unregistered known reqs ids e
unfolding link
link_error known reqs [] b h = cc
link_error known reqs (id ∷ ids) b {e} h =
    elim (Result-cases (link_requires known id (reqs id) b)) [
      | inl (x, l) ↦
          let (q, e', there, new) = link_requires_error known id (reqs id) b l in
          unregistered id q (ground (arith, e', l)) (ground (arith, text_eq_refl id)) there new
      | inr (m, l) ↦ later id (link_error known reqs ids m (ground (arith, l)))
    ]
  where
    later : (id : Text) → Unregistered known reqs ids e → Unregistered known reqs (id ∷ ids) e
    later id (unregistered i q e' there wanted new) =
        unregistered i q e' (omega (arith, there)) wanted new
