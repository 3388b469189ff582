-- ===== src/Allowlist/Policy.antt =====
-- `Normalize` of internal/repoallowlist: which policy some lines stand for.
use mathlib.Core.Path.{subst}
use orkano.Prelude.{
  ℕ, ◌+◌, ◌≤◌, ◌<◌, ◌≡◌, ◌↔◌, ap, ◌∙◌, sym, Text, List, [], ◌∷◌, true, length, Result, ok, arith,
  text_eq_iff, >>=-eq-ok,
}
use orkano.Prelude.Counts.{count, count-append, length_le_of_count}
use orkano.Prelude.Trimming.{trim_space, to_lower}
use orkano.Prelude.Sorting.{sort_texts, Sorted, sort_texts-Sorted, count-sort_texts, count_of_All}
use orkano.Allowlist.{
  AllowlistError, matches, add, take_entry, collect, normalize, max_repositories,
  max_repository_length,
}
use orkano.Allowlist.Canonical.{
  IsCanonical, IsCanonical-of_entry, entry, entries, Collected, count-add, add-Collected,
}

module _ (u : Text → Text) where
  -- What one entry does to the set, where it is accepted.
  record Taken (t : Text) (set : List Text) (n : ℕ) (set' : List Text) (m : ℕ) : Type 0 where
    collected : Collected m set'
    counts : (z : Text) → (0 < count z set') ↔ (0 < count z set + count z (entry u t))

  take_entry-Taken :
      (t : Text) (set : List Text) (n : ℕ)
      (next : List Text → ℕ → Result AllowlistError (List Text)) {out : List Text}
      → Collected n set
      → take_entry u t set n next ≡ ok out
      → (set' : List Text) × (m : ℕ) × (next set' m ≡ ok out) × Taken t set n set' m
  unfolding take_entry
  take_entry-Taken [] set n next h e =
      (set, n, e, record { collected = h; counts = λ z. (λ k. omega arith, λ k. omega arith) })
  take_entry-Taken (c ∷ t) set n next h e =
      let x = to_lower u (c ∷ t) in
      let matched : matches (c ∷ t) ≡ true = ground arith in
      let short : length (c ∷ t) ≤ max_repository_length = ground arith in
      let room : n + 1 ≤ max_repositories = ground arith in
      (
        add x set,
        n + 1,
        ground arith,
        record {
          collected = add-Collected n x set (IsCanonical-of_entry u (c ∷ t) matched short) room h;
          counts = λ z. (
            λ k. ground (arith, count-add z x set, text_eq_iff z x),
            λ k. ground (arith, count-add z x set, text_eq_iff z x),
          );
        },
      )

  collect-Collected :
      (rs set : List Text) (n : ℕ) {out : List Text}
      → Collected n set
      → collect u rs set n ≡ ok out
      → (m : ℕ) × Collected m out
        × ((z : Text) → (0 < count z out) ↔ (0 < count z set + count z (entries u rs)))
  unfolding collect
  collect-Collected [] set n {out} h e =
      let same : set ≡ out = ground arith in
      (
        n,
        subst (Collected n) same h,
        λ z. (λ k. ground (arith, ap (count z) same), λ k. ground (arith, ap (count z) same)),
      )
  collect-Collected (r ∷ rs) set n h e =
      let (set', m, rest, taken) = take_entry-Taken (trim_space r) set n (collect u rs) h e in
      let (k, done, counts) = collect-Collected rs set' m taken.collected rest in
      (
        k,
        done,
        λ z. (
          λ l. ground (
            arith,
            taken.counts z,
            counts z,
            count-append z (entry u (trim_space r)) (entries u rs),
          ),
          λ l. ground (
            arith,
            taken.counts z,
            counts z,
            count-append z (entry u (trim_space r)) (entries u rs),
          ),
        ),
      )

  nothing : Collected 0 []
  nothing = record {
    once = λ z. omega arith;
    canonical = tt;
    few = omega arith;
    bounded = omega arith;
  }

  -- What `Normalize` returns: exactly the entries of its lines that are not blank, each once, in
  -- canonical form, sorted.
  pub record IsPolicy (rs out : List Text) : Type 0 where
    pub sorted : Sorted out
    pub once : (z : Text) → count z out ≤ 1
    pub canonical : (z : Text) → 0 < count z out → IsCanonical z
    pub few : length out ≤ max_repositories
    pub members : (z : Text) → (0 < count z out) ↔ (0 < count z (entries u rs))

  -- What `Normalize` returns holds the canonical form of every line that is not blank and nothing
  -- else, each once, sorted, and no more entries than allowed.
  pub normalize-IsPolicy :
      (rs : List Text) {out : List Text} → normalize u rs ≡ ok out → IsPolicy rs out
  unfolding normalize
  normalize-IsPolicy rs {out} e =
      let (set, collected, sorts) = >>=-eq-ok (collect u rs [] 0) (λ set. ok (sort_texts set)) e in
      let (m, done, counts) = collect-Collected rs [] 0 nothing collected in
      let same : sort_texts set ≡ out = ground (arith, sorts) in
      let as_often : (z : Text) → count z out ≡ count z set =
        λ z. ap (count z) (sym same) ∙ count-sort_texts z set in
      record {
        sorted = subst Sorted same (sort_texts-Sorted set);
        once = λ z. omega (arith, as_often z, done.once z);
        canonical =
            λ z k. count_of_All IsCanonical set done.canonical z (omega (arith, k, as_often z));
        few = omega (
          arith,
          done.few,
          done.bounded,
          length_le_of_count out set (λ z. omega (arith, as_often z)),
        );
        members = λ z. (
          λ k. omega (arith, (counts z).0 (omega (arith, k, as_often z))),
          λ k. omega (arith, (counts z).1 (omega (arith, k)), as_often z),
        );
      }
