-- ===== src/Allowlist/RoundTrip.antt =====
-- The canonical form of internal/repoallowlist is a fixed point, and `Parse` reads back what `Format`
-- writes.
use mathlib.Core.Path.{fun_ext}
use mathlib.Core.List.{append_assoc}
use orkano.Prelude.{
  ℕ, ◌+◌, ◌≤◌, ◌≡◌, refl, ap, ◌∙◌, sym, Text, is_empty, join, List, [], ◌∷◌, ◌++◌, true, false,
  length, Result, ok, arith, All, >>=-eq-ok, text_eq_refl,
}
use orkano.Prelude.Counts.{count}
use orkano.Prelude.Trimming.{trim_space}
use orkano.Prelude.Splitting.{split_on, split_on-append, Lacks}
use orkano.Prelude.Sorting.{
  sort_texts, sort_texts-Sorted, count-sort_texts, Sorted-unique, All_of_count,
}
use orkano.Allowlist.{
  AllowlistError, matches, add, take_entry, collect, normalize, parse, format, lines,
  max_repositories,
}
use orkano.Allowlist.Canonical.{
  IsCanonical, to_lower_canonical, trim_canonical, Lacks-newline, count-add,
}
use orkano.Allowlist.Policy.{IsPolicy, normalize-IsPolicy}

nonempty_of_matches : (s : Text) → matches s ≡ true → is_empty s ≡ false
unfolding matches
nonempty_of_matches [] h = cc
nonempty_of_matches (c ∷ s) h = refl

module _ (u : Text → Text) where
  take_entry_canonical :
      (x : Text) (set : List Text) (n : ℕ)
      (next : List Text → ℕ → Result AllowlistError (List Text))
      → IsCanonical x
      → n + 1 ≤ max_repositories
      → take_entry u (trim_space x) set n next ≡ next (add x set) (n + 1)
  unfolding take_entry
  take_entry_canonical x set n next c l =
      rw (trim_canonical u x c, to_lower_canonical u x c)
        (ground (arith, c.named, c.fits, nonempty_of_matches x c.named, to_lower_canonical u x c))

  collect_canonical :
      (xs set : List Text) (n : ℕ)
      → All IsCanonical xs
      → ((z : Text) → count z set + count z xs ≤ 1)
      → n + length xs ≤ max_repositories
      → (out : List Text) × (collect u xs set n ≡ ok out)
        × ((z : Text) → count z out ≡ count z set + count z xs)
  unfolding collect
  collect_canonical [] set n c o l = (set, refl, λ z. omega arith)
  collect_canonical (x ∷ xs) set n c o l =
      let (out, e, counts) =
        collect_canonical xs (add x set) (n + 1) c.1
          (λ z. ground (arith, o z, o x, count-add z x set, text_eq_refl x)) (omega arith) in
      (
        out,
        take_entry_canonical x set n (collect u xs) c.0 (omega arith) ∙ e,
        λ z. ground (arith, counts z, o z, o x, count-add z x set, text_eq_refl x),
      )

  -- A policy is a fixed point of `Normalize`.
  normalize_policy : (rs out : List Text) → IsPolicy u rs out → normalize u out ≡ ok out
  unfolding normalize
  normalize_policy rs out p =
      let (set, e, counts) =
        collect_canonical out [] 0 (All_of_count IsCanonical out p.canonical)
          (λ z. omega (arith, p.once z)) (omega (arith, p.few)) in
      let same : sort_texts set ≡ out =
        Sorted-unique (sort_texts set) out (sort_texts-Sorted set) p.sorted
          (λ z. omega (arith, count-sort_texts z set, counts z)) in
      rw e (ap ok same)

  -- What `Normalize` returns, it returns again when given it.
  pub normalize_idempotent :
      (rs : List Text) {out : List Text} → normalize u rs ≡ ok out → normalize u out ≡ ok out
  normalize_idempotent rs {out} e = normalize_policy rs out (normalize-IsPolicy u rs e)

  -- A blank line at the end changes nothing.
  collect_blank :
      (xs set : List Text) (n : ℕ) → collect u (xs ++ [] ∷ []) set n ≡ collect u xs set n
  unfolding collect
  collect_blank [] set n = unfold trim_space in refl
  collect_blank (x ∷ xs) set n =
      ap (take_entry u (trim_space x) set n) (fun_ext λ s. fun_ext λ m. collect_blank xs s m)

  split_lines :
      (p : Text) (ps : List Text)
      → All (Lacks b'\n') (p ∷ ps)
      → split_on b'\n' (lines u (p ∷ ps)) ≡ (p ∷ ps) ++ ([] ∷ [])
  unfolding join split_on
  split_lines p [] h = split_on-append b'\n' p [] h.0
  split_lines p (q ∷ ps) h =
      ap (split_on b'\n') (append_assoc p (b'\n' ∷ join (b'\n' ∷ []) (q ∷ ps)) (b'\n' ∷ []))
      ∙ split_on-append b'\n' p (lines u (q ∷ ps)) h.0
      ∙ ap (λ l. p ∷ l) (split_lines q ps h.1)

  normalize_blank : (xs : List Text) → normalize u (xs ++ [] ∷ []) ≡ normalize u xs
  unfolding normalize
  normalize_blank xs = rw (collect_blank xs [] 0)

  parse-lines : (out : List Text) → All (Lacks b'\n') out → parse u (lines u out) ≡ normalize u out
  unfolding parse split_on trim_space
  parse-lines [] h = normalize_blank []
  parse-lines (p ∷ ps) h = ap (normalize u) (split_lines p ps h) ∙ normalize_blank (p ∷ ps)

  -- What `Format` writes for some entries, `Parse` reads as the policy that they normalise to.
  pub parse-format :
      (rs : List Text) {s : Text}
      → format u rs ≡ ok s
      → (out : List Text) × (normalize u rs ≡ ok out) × (parse u s ≡ ok out)
  unfolding format
  parse-format rs {s} e =
      let (out, normalized, prints) = >>=-eq-ok (normalize u rs) (λ out. ok (lines u out)) e in
      let same : lines u out ≡ s = ground (arith, prints) in
      let policy = normalize-IsPolicy u rs normalized in
      (
        out,
        normalized,
        ap (parse u) (sym same)
            ∙ parse-lines out (All_of_count _ out (λ z k. Lacks-newline u z (policy.canonical z k)))
            ∙ normalize_idempotent rs normalized,
      )
