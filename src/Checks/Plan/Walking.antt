-- ===== src/Checks/Plan/Walking.antt =====
-- What the main loop of `Plan` (internal/checks/registry.go) keeps, and that its fuel is enough.
use mathlib.Core.List.{append_assoc, append-nil}
use orkano.Prelude.{
  ℕ, zero, suc, ◌+◌, ◌≤◌, ◌<◌, ◌≡◌, refl, ap, sym, ◌∙◌, Text, text_eq_iff, text_eq_refl, List, [],
  ◌∷◌, ◌++◌, some, ◌==◌, if◌then◌else◌, length, length-append, arith, List-cases, inl, inr,
}
use orkano.Prelude.Counts.{count, count-append, length_le_of_count}
use orkano.Checks.Plan.{Walk, insert_by, sort_by, release, release_all, emit, walk}

-- How many of some requirements have not been emitted.
abbrev pub missing : List Text → List Text → ℕ
missing [] out = 0
missing (q ∷ qs) out = (if count q out == 0 then 1 else 0) + missing qs out

-- Every text of a list comes after its requirements.
abbrev pub Ordered : (Text → List Text) → List Text → List Text → Type 0
Ordered reqs seen [] = Unit
Ordered reqs seen (x ∷ xs) = (missing (reqs x) seen ≡ 0) × Ordered reqs (seen ++ x ∷ []) xs

missing-snoc :
    (x : Text) (qs out : List Text)
    → count x out ≡ 0
    → missing qs (out ++ x ∷ []) + count x qs ≡ missing qs out
missing-snoc x [] out h = omega arith
missing-snoc x (q ∷ qs) out h =
    ground (
      arith,
      missing-snoc x qs out h,
      count-append q out (x ∷ []),
      text_eq_iff q x,
      text_eq_iff x q,
    )

Ordered-snoc :
    (reqs : Text → List Text) (x : Text) (xs seen : List Text)
    → Ordered reqs seen xs
    → missing (reqs x) (seen ++ xs) ≡ 0
    → Ordered reqs seen (xs ++ x ∷ [])
Ordered-snoc reqs x [] seen h m = (rw append-nil at m, tt)
Ordered-snoc reqs x (y ∷ xs) seen h m =
    (h.0, Ordered-snoc reqs x xs (seen ++ y ∷ []) h.1 (rw append_assoc m))

count-insert_by :
    (idx : Text → ℕ) (z x : Text) (ys : List Text) → count z (insert_by idx x ys) ≡ count z (x ∷ ys)
unfolding insert_by
count-insert_by idx z x [] = refl
count-insert_by idx z x (y ∷ ys) = ground (arith, count-insert_by idx z x ys)

pub count-sort_by :
    (idx : Text → ℕ) (z : Text) (xs : List Text) → count z (sort_by idx xs) ≡ count z xs
unfolding sort_by
count-sort_by idx z [] = refl
count-sort_by idx z (x ∷ xs) =
    omega (arith, count-insert_by idx z x (sort_by idx xs), count-sort_by idx z xs)

sort_by-nil : (idx : Text → ℕ) (xs : List Text) → sort_by idx xs ≡ [] → xs ≡ []
sort_by-nil idx [] h = refl
sort_by-nil idx (x ∷ xs) h =
    ground (arith, count-sort_by idx x (x ∷ xs), text_eq_refl x, ap (count x) h)

-- Where an id stands: nowhere if it is not registered, in `ready` or in `order` once nothing is unmet.
abbrev mark : ℕ → ℕ → ℕ
mark registered unmet = if registered == 0 then 0 else if unmet == 0 then 1 else 0

module _ (ids : List Text) (reqs dependents : Text → List Text) (idx : Text → ℕ)
    (once : (x : Text) → count x ids ≤ 1)
    (reversed : (q x : Text) → count x (dependents q) ≡ count q (reqs x))
    (registered : (q x : Text) → 0 < count q (reqs x) → 0 < count x ids) where
  -- `deps` are the dependents of the last id in `order` whose requirement is still to be counted down.
  pub record Releasing (deps : List Text) (w : Walk) : Type 0 where
    pub placed : (x : Text) → count x w.ready + count x w.order ≡ mark (count x ids) (w.indegree x)
    pub degree : (x : Text) → w.indegree x ≡ missing (reqs x) w.order + count x deps
    pub known : (x : Text) → 0 < count x deps → 0 < count x ids
    pub ordered : Ordered reqs [] w.order

  release-Releasing :
      (dep : Text) (deps : List Text) (w : Walk)
      → Releasing (dep ∷ deps) w
      → Releasing deps (release dep w)
  unfolding release
  release-Releasing dep deps w h = record {
    placed = λ x. ground (
      arith,
      h.placed x,
      h.degree x,
      h.known x,
      text_eq_iff x dep,
      text_eq_refl dep,
      count-append x w.ready (dep ∷ []),
    );
    degree = λ x. ground (arith, h.degree x, text_eq_iff x dep, text_eq_refl dep);
    known = λ x k. h.known x (omega arith);
    ordered = h.ordered;
  }

  release_all-Releasing :
      (deps : List Text) (w : Walk) → Releasing deps w → Releasing [] (release_all deps w)
  unfolding release_all
  release_all-Releasing [] w h = h
  release_all-Releasing (dep ∷ deps) w h =
      release_all-Releasing deps (release dep w) (release-Releasing dep deps w h)

  abbrev pub Walking : Walk → Type 0
  Walking = Releasing []

  -- A round takes an id whose requirements have all been emitted, and was never emitted itself.
  emit-Walking :
      (id : Text) (rest : List Text) (w : Walk)
      → ((x : Text) → count x (id ∷ rest) ≡ count x w.ready)
      → Walking w
      → Walking (emit dependents id rest w)
  unfolding emit
  emit-Walking id rest w same h = release_all-Releasing (dependents id) _ (record {
    placed = λ x. omega (arith, h.placed x, same x, count-append x w.order (id ∷ []));
    degree = λ x. omega (arith, h.degree x, reversed id x, missing-snoc id (reqs x) w.order fresh);
    known = λ x k. registered id x (omega (arith, reversed id x));
    ordered = Ordered-snoc reqs id w.order [] h.ordered (omega (arith, free, h.degree id));
  })
    where
      present : 0 < count id w.ready
      present = omega (arith, same id, count_self)
        where
          count_self : 0 < count id (id ∷ rest)
          count_self = ground (arith, text_eq_refl id)

      fresh : count id w.order ≡ 0
      fresh = ground (arith, h.placed id, present)

      free : w.indegree id ≡ 0
      free = ground (arith, h.placed id, present)

  length_order_release_all :
      (deps : List Text) (w : Walk) → length (release_all deps w).order ≡ length w.order
  unfolding release_all
  length_order_release_all [] w = refl
  length_order_release_all (dep ∷ deps) w = length_order_release_all deps (release dep w)

  length_order_emit :
      (id : Text) (rest : List Text) (w : Walk)
      → length (emit dependents id rest w).order ≡ length w.order + 1
  unfolding emit
  length_order_emit id rest w = omega (
    arith,
    length_order_release_all (dependents id)
        (record w { ready = rest; order = w.order ++ id ∷ [] }),
    length-append w.order (id ∷ []),
  )

  -- What stands in `ready` and `order` is registered, and stands there once.
  placed_le : (w : Walk) → Walking w → (x : Text) → count x (w.ready ++ w.order) ≤ count x ids
  placed_le w h x = ground (arith, h.placed x, count-append x w.ready w.order)

  placed_length : (w : Walk) → Walking w → length w.ready + length w.order ≤ length ids
  placed_length w h = omega (
    arith,
    length_le_of_count (w.ready ++ w.order) ids (placed_le w h),
    length-append w.ready w.order,
  )

  -- The walk ends within its fuel, with nothing ready.
  pub walk_ends :
      (fuel : ℕ) (w : Walk)
      → Walking w
      → length ids ≤ fuel + length w.order
      → (v : Walk) × (walk fuel idx dependents w ≡ some v) × Walking v × (v.ready ≡ [])
  unfolding walk
  walk_ends zero w h f = elim (List-cases w.ready) [
    | inl e ↦ (w, ground arith, h, e)
    | inr (x, xs, e) ↦ absurd (ground (arith, placed_length w h))
  ]
  walk_ends (suc fuel) w h f = elim (List-cases (sort_by idx w.ready)) [
    | inl e ↦ (w, rw (e, walk), h, sort_by-nil idx w.ready e)
    | inr (id, rest, e) ↦
        let same : (x : Text) → count x (id ∷ rest) ≡ count x w.ready =
          λ x. ap (count x) (sym e) ∙ count-sort_by idx x w.ready in
        rw (e, walk)
          (walk_ends fuel (emit dependents id rest w) (emit-Walking id rest w same h)
            (omega (arith, length_order_emit id rest w)))
  ]
